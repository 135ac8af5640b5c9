-- ===== src/Schemas/Json.antt =====
-- The values of a Python `dict` that came from JSON: a broker's raw responses.
use trading_ai_alpha_agent.Prelude.{String, Bool}

mutual
  pub data Json : Type 0 where
    null : Json
    boolean : Bool → Json
    number : String → Json
    text : String → Json
    array : Items → Json
    object : Fields → Json

  pub data Items : Type 0 where
    nil : Items
    cons : Json → Items → Items

  pub data Fields : Type 0 where
    end : Fields
    field : String → Json → Fields → Fields
