-- ===== src/Services.antt =====
-- app/services: of the services, the one that explains the exits of the shadow observations.
pub mod ShadowExit
