-- ===== src/Schemas.antt =====
-- app/schemas: the records that the components hand to one another, with their properties.
-- Pydantic's range checks are not repeated: a theorem that needs one states it.
pub mod Json
pub mod Status
pub mod Trading
pub mod Order
pub mod Risk
