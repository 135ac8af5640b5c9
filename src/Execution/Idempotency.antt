-- ===== src/Execution/Idempotency.antt =====
-- One order for each idempotency key: the calls of `place_order`, counted in a log.
use text.Mathlib.TextEquality.{eq_iff}
use Prim.Native.Nat.{◌+◌}
use trading_ai_alpha_agent.Prelude.{
  String, ℕ, ◌≤◌, Bool, true, false, List, [], ◌∷◌, Option, none, some, ◌≡◌, refl, subst,
  Bool-cases, sym, ap, ◌∙◌, ◌⊎◌, inl, inr, arith, Option-cases, count_if, if◌then◌else◌,
}
use trading_ai_alpha_agent.Prelude.Text.{eqb}
use trading_ai_alpha_agent.Prelude.Result.{Result, ok, err, foreign_error, Result-cases}
use trading_ai_alpha_agent.Schemas.Order.{OrderRecord, new_order_record}
use trading_ai_alpha_agent.Execution.Broker.{issue_context, Reply, Broker}
use trading_ai_alpha_agent.Execution.Store.{IsStore}
use trading_ai_alpha_agent.Execution.Agent.{
  State, Call, Environment, validate_pre_trade, reconcile, upsert_then, settle, place, submit,
  execute, execute_all, reconciled_record, failed_record, placed_record,
}
use trading_ai_alpha_agent.Execution.Permission.{unit_cases}
use trading_ai_alpha_agent.Execution.Agent.Equations.{
  upsert_then_written, upsert_then_failed, submit_refused, submit_unissued, submit_placed,
  execute_refused, execute_known, execute_new,
}

module _ {R W : Type 0} where
  -- A broker that also writes the key of each order that it is asked to place into a log.
  abbrev pub logged : Broker R W → Broker R (List String × W)
  logged b = record {
    place_order = λ i permit world.
        let (reply, w) = b.place_order i permit world.1 in
        (reply, (i.idempotency_key ∷ world.0, w));
    reconcile_order =
        λ id world. let (reply, w) = b.reconcile_order id world.1 in (reply, (world.0, w));
  }

abbrev pub logged_env : {R S W : Type 0} → Environment R S W → Environment R S (List String × W)
logged_env env = record {
  live_orders_enabled = env.live_orders_enabled;
  store = env.store;
  broker = logged env.broker;
  token = env.token;
}

-- how often the key stands in the log
abbrev pub times : String → List String → ℕ
times k log = count_if (eqb k) log

abbrev present {ℓ} : {A : Type ℓ} → Option A → ℕ
present none = 0
present (some a) = 1

le_present :
    {A : Type 0} (n : ℕ) (b : Bool) (a : A) (o : Option A)
    → n ≤ present o
    → n ≤ present (if b then some a else o)
le_present n true a none h = omega arith
le_present n true a (some a') h = h
le_present n false a o h = h

at_most_once :
    {A : Type 0} (n : ℕ) (before after : Option A)
    → present before + n ≤ present after
    → (n ≤ 1) × ((before ≡ none) ⊎ (n ≡ 0))
at_most_once n none none h = (omega arith, inl refl)
at_most_once n none (some a) h = (omega arith, inl refl)
at_most_once n (some b) none h = absurd (omega arith)
at_most_once n (some b) (some a) h = (omega arith, inr (omega arith))

used_once :
    (k j : String) (n : ℕ) (log : List String) → n + times j log ≤ 0 → n + times j (k ∷ log) ≤ 1
used_once k j n log h = ground arith

unused :
    (k j : String) (n : ℕ) (log : List String) {m : ℕ}
    → eqb k j ≡ false
    → n + times j log ≤ m
    → n + times j (k ∷ log) ≤ m
unused k j n log other h = ground (arith, eq_iff k j, eq_iff j k)

-- The key that is reserved was free, so it does not stand in the log.
le_present_used :
    {A : Type 0} (k j : String) (a : A) (n : ℕ) (log : List String) (get : String → Option A)
    → get k ≡ none
    → n + times j log ≤ present (get j)
    → n + times j (k ∷ log) ≤ present (if eqb k j then some a else get j)
le_present_used k j a n log get free h = elim (Bool-cases (eqb k j)) [
  | inl same ↦
      let e : k ≡ j = (eq_iff k j).0 same in
      let empty : n + times j log ≤ 0 =
        subst (λ o. n + times j log ≤ present o) (ap get (sym e) ∙ free) h in
      rw same (used_once k j n log empty)
  | inr other ↦ rw other (unused k j n log other h)
]

module _ {R S W : Type 0} (env : Environment R S W) (laws : IsStore env.store)
    (base : String → ℕ) where
  -- Each key was used at most as often as it stands in the store, beyond what `base` counts.
  abbrev Bounded : S → List String → Type 0
  Bounded s log = (k : String) → base k + times k log ≤ present (env.store.get k s)

  abbrev World : Type 0
  World = List String × W

  -- A write keeps what is bounded.
  upsert-Bounded :
      (k : String) (r : OrderRecord R) (s : S) {s' : S} (log : List String)
      → env.store.upsert k r s ≡ ok s'
      → Bounded s log
      → Bounded s' log
  upsert-Bounded k r s log h b j =
      rw (laws.upsert-get k r s h j)
        (le_present (base j + times j log) (eqb k j) r (env.store.get j s) (b j))

  -- The bound at the store and the log of a state.
  abbrev IsBounded : State S World → Type 0
  IsBounded st = Bounded st.0 st.1.0

  upsert_then-IsBounded :
      (c : Call R) (r : OrderRecord R) (answer : Result (OrderRecord R)) (s : S) (world : World)
      → Bounded s world.0
      → IsBounded (upsert_then (logged_env env) c r answer (s, world)).1
  upsert_then-IsBounded c r answer s world b =
      elim (Result-cases (env.store.upsert c.intent.idempotency_key r s)) [
        | inl (s', e) ↦
            rw (upsert_then_written (logged_env env) c s world r answer e)
              (upsert-Bounded c.intent.idempotency_key r s world.0 e b)
        | inr (e, refused) ↦ rw (upsert_then_failed (logged_env env) c s world r answer refused) b
      ]

  settle-IsBounded :
      (c : Call R) (r : OrderRecord R) (reply : Reply) (s : S) (world : World)
      → Bounded s world.0
      → IsBounded (settle (logged_env env) c r reply (s, world)).1
  unfolding settle
  settle-IsBounded c r (Reply.raised class message) s world b = b
  settle-IsBounded c r (Reply.returned result) s world b =
      upsert_then-IsBounded c (reconciled_record r result) (ok (reconciled_record r result)) s world
        b

  -- A reconciliation places no order.
  reconcile_log :
      (id : Option String) (world : World) → (reconcile (logged_env env) id world).1.0 ≡ world.0
  unfolding reconcile
  reconcile_log none world = refl
  reconcile_log (some id) world = ground arith

  place-IsBounded :
      (c : Call R) (r : OrderRecord R) (reply : Reply) (s : S) (world : World)
      → Bounded s world.0
      → IsBounded (place (logged_env env) c r reply (s, world)).1
  unfolding place
  place-IsBounded c r (Reply.raised class message) s world b =
      upsert_then-IsBounded c (failed_record r class message) (err (foreign_error class message)) s
        world b
  place-IsBounded c r (Reply.returned result) s world b =
      let after = reconcile (logged_env env) result.broker_order_id world in
      settle-IsBounded c (placed_record r result) after.0 s after.1
        (rw (reconcile_log result.broker_order_id world) b)

  -- Reserving a key makes room for the one order that follows.
  reserve-Bounded :
      (k : String) (r : OrderRecord R) (s : S) {s' : S} (log : List String)
      → env.store.reserve k r s ≡ ok s'
      → Bounded s log
      → Bounded s' log × Bounded s' (k ∷ log)
  reserve-Bounded k r s log h b =
      let (free, found) = laws.reserve-get k r s h in
      (
        (λ j.
            rw (found j) (le_present (base j + times j log) (eqb k j) r (env.store.get j s) (b j))),
        (λ j.
            rw (found j) (le_present_used k j r (base j) log (λ i. env.store.get i s) free (b j))),
      )

  submit-IsBounded :
      (c : Call R) (s : S) (world : World)
      → Bounded s world.0
      → IsBounded (submit (logged_env env) c (s, world)).1
  unfolding submit
  submit-IsBounded c s world b =
      let key = c.intent.idempotency_key in
      let fresh = new_order_record c.record_id c.intent in
      elim (Result-cases (env.store.reserve key fresh s)) [
        | inr (e, refused) ↦ rw (submit_refused (logged_env env) c s world refused) b
        | inl (s', e) ↦
            let (kept, used) = reserve-Bounded key fresh s world.0 e b in
            elim (Result-cases (issue_context env.token c.now c.execution_id c.intent)) [
              | inr (e', none_issued) ↦
                  rw (submit_unissued (logged_env env) c s world e none_issued) kept
              | inl (permit, issued) ↦
                  let (reply, w) = env.broker.place_order c.intent (some permit) world.1 in
                  rw (submit_placed (logged_env env) c s world e issued)
                    (place-IsBounded c fresh reply s' (key ∷ world.0, w) used)
            ]
      ]

  execute-IsBounded :
      (c : Call R) (st : State S World) → IsBounded st → IsBounded (execute (logged_env env) c st).1
  execute-IsBounded c (s, world) b =
      elim (unit_cases (validate_pre_trade env.live_orders_enabled c)) [
        | inr (e, refused) ↦ rw (execute_refused (logged_env env) c s world refused) b
        | inl passed ↦ elim (Option-cases (env.store.get c.intent.idempotency_key s)) [
          | inl free ↦
              rw (execute_new (logged_env env) c s world passed free) (submit-IsBounded c s world b)
          | inr (r, known) ↦ rw (execute_known (logged_env env) c s world passed known) b
        ]
      ]

  execute_all-IsBounded :
      (cs : List (Call R)) (st : State S World)
      → IsBounded st
      → IsBounded (execute_all (logged_env env) cs st)
  unfolding execute_all
  execute_all-IsBounded [] st b = b
  execute_all-IsBounded (c ∷ cs) st b =
      execute_all-IsBounded cs (execute (logged_env env) c st).1 (execute-IsBounded c st b)

module _ {R S W : Type 0} (env : Environment R S W) (laws : IsStore env.store) where
  -- From any state of the store, however many calls are made and whatever the broker answers or
  -- raises, the broker is asked at most once to place an order with a given key, and never with a
  -- key that was in the store before.
  pub placed_at_most_once :
      (cs : List (Call R)) (s : S) (w : W) (k : String)
      → let log = (execute_all (logged_env env) cs (s, ([], w))).1.0 in
        (times k log ≤ 1) × ((env.store.get k s ≡ none) ⊎ (times k log ≡ 0))
  placed_at_most_once cs s w k =
      let last = execute_all (logged_env env) cs (s, ([], w)) in
      at_most_once (times k last.1.0) (env.store.get k s) (env.store.get k last.0) (
        execute_all-IsBounded env laws (λ j. present (env.store.get j s)) cs (s, ([], w))
          (λ j. omega arith) k)
