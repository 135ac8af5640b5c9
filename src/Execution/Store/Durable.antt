-- ===== src/Execution/Store/Durable.antt =====
-- What the store in the database keeps: a key that was written stays taken, and is read back as
-- pydantic reads the payload of its record.
use trading_ai_alpha_agent.Prelude.{
  String, Bool, true, false, not, ◌||◌, Option, none, some, ◌≡◌, refl, ap, ◌∙◌, arith,
  if◌then◌else◌, Option-cases, inl, inr,
}
use text.Mathlib.TextEquality.{eq_iff}
use trading_ai_alpha_agent.Prelude.Text.{eqb, lookup, insert, lookup-insert}
use trading_ai_alpha_agent.Prelude.Result.{
  Error, ok, err, >>=-eq-ok, Result-cases, order_idempotency_error,
}
use trading_ai_alpha_agent.Schemas.Order.{OrderRecord}
use trading_ai_alpha_agent.Execution.Store.Database.{
  Payloads, OrderIdempotencyRecord, Tables, is_found, already_exists, key_row,
  payload_to_order_record, commit_order, commit_change, database_get, database_reserve,
  database_upsert, has_key,
}

found_if :
    {A : Type 0} (b : Bool) (new : A) (old : Option A)
    → is_found old ≡ true
    → is_found (if b then some new else old) ≡ true
found_if true new old h = refl
found_if false new old h = h

eqb_self : (k : String) → eqb k k ≡ true
eqb_self k = (eq_iff k k).1 refl

refused_if_taken :
    {A : Type 0} (a b c d : Bool) (made : A)
    → d ≡ true
    → (if a || (b || (c || d)) then already_exists else ok made)
      ≡ err (order_idempotency_error "order_idempotency_key_already_exists")
refused_if_taken a b c d made h = ground arith

module _ {R P : Type 0} (payloads : Payloads R P) (links_hold : OrderRecord R → Bool)
    (refuses : OrderRecord R → P → Option Error) where
  -- A write that returned.
  pub data Writes (k : String) (r : OrderRecord R) (t t' : Tables R P) : Type 0 where
    reserves : database_reserve payloads links_hold refuses k r t ≡ ok t' → Writes k r t t'
    upserts : database_upsert payloads links_hold refuses k r t ≡ ok t' → Writes k r t t'

  -- Any number of writes.
  pub data Leads (t : Tables R P) : Tables R P → Type 0 where
    here : Leads t t
    step :
        {t' t'' : Tables R P} (k : String) (r : OrderRecord R)
        → Leads t t'
        → Writes k r t' t''
        → Leads t t''

  commit_order-keys :
      (k : String) (r : OrderRecord R) (p : P) (clashes : Bool) (t : Tables R P) {t' : Tables R P}
      → commit_order payloads links_hold refuses k r p clashes t ≡ ok t'
      → t'.keys ≡ insert k (key_row payloads k r p) t.keys
  commit_order-keys k r p clashes t h = ground arith

  commit_change-keys :
      (k : String) (r : OrderRecord R) (p : P) (t : Tables R P) {t' : Tables R P} (o : _)
      → commit_change payloads links_hold refuses k r p o t ≡ ok t'
      → t'.keys ≡ insert k (key_row payloads k r p) t.keys
  commit_change-keys k r p t o h = ground arith

  -- The payload that a write has stored.
  abbrev Stored : String → OrderRecord R → Tables R P → Tables R P → Type 0
  Stored k r t t' =
      (p : P) × (payloads.dump r ≡ ok p) × (t'.keys ≡ insert k (key_row payloads k r p) t.keys)

  Writes-Stored :
      (k : String) (r : OrderRecord R) (t t' : Tables R P) → Writes k r t t' → Stored k r t t'
  unfolding database_reserve database_upsert
  Writes-Stored k r t t' (Writes.reserves h) =
      let (p, dumped, h1) = >>=-eq-ok (payloads.dump r) _ h in
      (p, dumped, commit_order-keys k r p _ t h1)
  Writes-Stored k r t t' (Writes.upserts h) =
      let (p, dumped, h1) = >>=-eq-ok (payloads.dump r) _ h in
      elim (Option-cases (lookup r.id t.orders)) [
        | inl new ↦ (p, dumped, commit_order-keys k r p false t (rw new at h1))
        | inr (o, old) ↦ (p, dumped, commit_change-keys k r p t o (rw old at h1))
      ]

  abbrev IsTaken : String → Tables R P → Type 0
  IsTaken k t = is_found (lookup k t.keys) ≡ true

  Writes-IsTaken :
      (j k : String) (r : OrderRecord R) (t t' : Tables R P)
      → Writes k r t t'
      → IsTaken j t
      → IsTaken j t'
  Writes-IsTaken j k r t t' w taken =
      let (p, dumped, e) = Writes-Stored k r t t' w in
      rw (e, lookup-insert k j (key_row payloads k r p) t.keys)
        (found_if (eqb k j) (key_row payloads k r p) (lookup j t.keys) taken)

  Leads-IsTaken : (j : String) {t t' : Tables R P} → Leads t t' → IsTaken j t → IsTaken j t'
  Leads-IsTaken j Leads.here taken = taken
  Leads-IsTaken j (Leads.step {t'} {t''} k r before w) taken =
      Writes-IsTaken j k r t' t'' w (Leads-IsTaken j before taken)

  commit_refuses :
      (k : String) (r : OrderRecord R) (p : P) (clashes : Bool) (t : Tables R P)
      → IsTaken k t
      → (e : Error) × (commit_order payloads links_hold refuses k r p
            (clashes || is_found (lookup k t.keys))
            t
          ≡ err e)
  commit_refuses k r p clashes t taken = elim (Option-cases (refuses r p)) [
    | inr (e, refused) ↦ (e, rw (commit_order, refused) refl)
    | inl admitted ↦ (
      order_idempotency_error "order_idempotency_key_already_exists",
      rw (commit_order, admitted)
          (refused_if_taken (not (links_hold r)) (has_key r.intent.idempotency_key t.orders) clashes
            (is_found (lookup k t.keys)) _ taken),
    )
  ]

  taken_refuses :
      (k : String) (r : OrderRecord R) (t : Tables R P)
      → IsTaken k t
      → (e : Error) × (database_reserve payloads links_hold refuses k r t ≡ err e)
  unfolding database_reserve
  taken_refuses k r t taken = elim (Result-cases (payloads.dump r)) [
    | inr (e, unread) ↦ (e, rw unread refl)
    | inl (p, dumped) ↦
        let (e, refused) = commit_refuses k r p (is_found (lookup r.id t.orders)) t taken in
        (e, rw dumped refused)
  ]

  -- What a write of the record `r` under the key `k` comes to: the payload of the record is stored,
  -- the key is read back as that payload is, every other key as before; and in the tables
  -- `later`, a reservation of the key raises, whatever record it is for.
  pub record IsKept (k : String) (r : OrderRecord R) (t t' later : Tables R P) : Type 0 where
    pub payload : P
    pub dumped : payloads.dump r ≡ ok payload
    pub read :
        (j : String)
        → database_get payloads j t' ≡ (
            if eqb k j
            then payload_to_order_record payloads (payloads.column payload)
            else database_get payloads j t)
    pub refused :
        (other : OrderRecord R)
        → (e : Error) × (database_reserve payloads links_hold refuses k other later ≡ err e)

  -- A write to the database that returned, by reserving or by updating, stores the payload of its
  -- record. The key reads back what pydantic and the column make of that payload, be it a record,
  -- none or an exception, and no other key reads differently. After any further writes, each
  -- reservation of the key raises, so that no key is ever reserved twice.
  pub Writes-IsKept :
      (k : String) (r : OrderRecord R) (t t' : Tables R P) {later : Tables R P}
      → Writes k r t t'
      → Leads t' later
      → IsKept k r t t' later
  unfolding database_get
  Writes-IsKept k r t t' {later} w leads =
      let (p, dumped, e) = Writes-Stored k r t t' w in
      let row = key_row payloads k r p in
      let taken : IsTaken k t' = rw (e, lookup-insert k k row t.keys, eqb_self k) refl in
      record {
        payload = p;
        dumped = dumped;
        read = λ j.
            read_if (eqb k j) row (lookup j t'.keys) (lookup j t.keys)
              (ap (lookup j) e ∙ lookup-insert k j row t.keys);
        refused = λ other. taken_refuses k other later (Leads-IsTaken k leads taken);
      }
    where
      read_if :
          (b : Bool) (row : OrderIdempotencyRecord P) (new old : Option (OrderIdempotencyRecord P))
          → new ≡ (if b then some row else old)
          → (elim new [ none ↦ ok none | some row ↦ payload_to_order_record payloads row.payload ])
            ≡ (if b then payload_to_order_record payloads row.payload else elim old [
              | none ↦ ok none
              | some row ↦ payload_to_order_record payloads row.payload
            ])
      read_if true row new old h = rw h refl
      read_if false row new old h = rw h refl
