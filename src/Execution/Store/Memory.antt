-- ===== src/Execution/Store/Memory.antt =====
-- `InMemoryOrderIdempotencyStore`, a helper of the tests: a `dict` from keys to records. The source
-- keeps the record itself, to which `execute` goes on to write; here a record is kept as it was when
-- it was stored, and its changes show once it is stored again, as those in the database do.
use trading_ai_alpha_agent.Prelude.{
  String, Bool, true, false, none, some, ◌≡◌, arith, if◌then◌else◌, Option-cases, inl, inr,
}
use trading_ai_alpha_agent.Prelude.Text.{Dict, lookup, insert, lookup-insert}
use trading_ai_alpha_agent.Prelude.Result.{Result, ok, err, order_idempotency_error}
use trading_ai_alpha_agent.Schemas.Order.{OrderRecord}
use trading_ai_alpha_agent.Execution.Store.Interface.{Store, IsStore}

module _ {R : Type 0} where
  -- `exists`
  unfoldable pub memory_exists : String → Dict (OrderRecord R) → Bool
  memory_exists k d = elim (lookup k d) [ none ↦ false | some _ ↦ true ]

  unfoldable pub memory_reserve :
      String → OrderRecord R → Dict (OrderRecord R) → Result (Dict (OrderRecord R))
  unfolding memory_exists
  memory_reserve k r d =
      if memory_exists k d
      then err (order_idempotency_error "order_idempotency_key_already_exists")
      else ok (insert k r d)

  unfoldable pub memory_upsert :
      String → OrderRecord R → Dict (OrderRecord R) → Result (Dict (OrderRecord R))
  memory_upsert k r d = ok (insert k r d)

abbrev pub memory_store : (R : Type 0) → Store R (Dict (OrderRecord R))
memory_store R = record { get = lookup; reserve = memory_reserve; upsert = memory_upsert }

module _ {R : Type 0} where
  memory_reserve-ok :
      (k : String) (r : OrderRecord R) (d : Dict (OrderRecord R)) {d' : Dict (OrderRecord R)}
      → memory_reserve k r d ≡ ok d'
      → (lookup k d ≡ none) × (insert k r d ≡ d')
  unfolding memory_reserve
  memory_reserve-ok k r d h = elim (Option-cases (lookup k d)) [
    | inl free ↦ (free, ground arith)
    | inr (old, taken) ↦ ground arith
  ]

  memory_upsert-ok :
      (k : String) (r : OrderRecord R) (d : Dict (OrderRecord R)) {d' : Dict (OrderRecord R)}
      → memory_upsert k r d ≡ ok d'
      → insert k r d ≡ d'
  unfolding memory_upsert
  memory_upsert-ok k r d h = cc

-- The store in memory is a store.
pub memory_store-IsStore : (R : Type 0) → IsStore (memory_store R)
memory_store-IsStore R = record {
  reserve-get = λ k r d h.
      let (free, e) = memory_reserve-ok k r d h in (free, λ j. rw (← e) (lookup-insert k j r d));
  upsert-get = λ k r d h j. rw (← memory_upsert-ok k r d h) (lookup-insert k j r d);
}
