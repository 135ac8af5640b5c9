-- ===== src/Execution/Store/Interface.antt =====
-- What the execution agent calls of a store, and what it relies on.
use trading_ai_alpha_agent.Prelude.{String, Option, none, some, ◌≡◌, if◌then◌else◌}
use trading_ai_alpha_agent.Prelude.Text.{eqb}
use trading_ai_alpha_agent.Prelude.Result.{Result, ok}
use trading_ai_alpha_agent.Schemas.Order.{OrderRecord}

pub record Store (R S : Type 0) : Type 0 where
  pub get : String → S → Option (OrderRecord R)
  pub reserve : String → OrderRecord R → S → Result S
  pub upsert : String → OrderRecord R → S → Result S

-- Reserving takes only a free key; a record that is written is the one that is found, and no other
-- key changes.
pub record IsStore {R S : Type 0} (store : Store R S) : Type 0 where
  pub reserve-get :
      (k : String) (r : OrderRecord R) (s : S) {s' : S}
      → store.reserve k r s ≡ ok s'
      → (store.get k s ≡ none)
        × ((j : String) → store.get j s' ≡ (if eqb k j then some r else store.get j s))
  pub upsert-get :
      (k : String) (r : OrderRecord R) (s : S) {s' : S}
      → store.upsert k r s ≡ ok s'
      → (j : String) → store.get j s' ≡ (if eqb k j then some r else store.get j s)
