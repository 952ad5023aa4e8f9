-- ===== src/Idempotency/Keys.antt =====
-- A key that is taken has its record, and what `upsert` returns is what the key then has.
use domain_process_e2e.Prelude.{
  Bool, true, false, List, [], ◌∷◌, ◌++◌, Option, none, some, any, ◌≡◌, refl, arith, Bool-cases,
  inl, inr, subst,
}
use mathlib.Core.Option.{some-injective}
use domain_process_e2e.Text.{Text, text_eq_refl}
use domain_process_e2e.Model.{IdempotencyRecord}
use domain_process_e2e.Idempotency.{
  has_key, create, get, Upserted, inserted, found_or_insert, upsert,
}

pub has_own_key : (r : IdempotencyRecord) → has_key r.client_id r.idempotency_key r ≡ true
has_own_key r = rw (text_eq_refl r.client_id, text_eq_refl r.idempotency_key) refl

pub get_taken :
    (table : List IdempotencyRecord) (c k : Text)
    → any (has_key c k) table ≡ true
    → (r : IdempotencyRecord) × (get table c k ≡ some r)
unfolding get
get_taken [] c k h = absurd (cc)
get_taken (r ∷ table) c k h = elim (Bool-cases (has_key c k r)) [
  | inl e ↦ rw e (r, refl)
  | inr e ↦ rw e (get_taken table c k (rw e at h))
]

get_appended :
    (table : List IdempotencyRecord) (r : IdempotencyRecord)
    → any (has_key r.client_id r.idempotency_key) table ≡ false
    → get (table ++ r ∷ []) r.client_id r.idempotency_key ≡ some r
unfolding get
get_appended [] r h = rw (has_own_key r) refl
get_appended (s ∷ table) r h = ground (arith, get_appended table r)

-- A record that is created is the one that its key has.
pub create-get :
    (r : IdempotencyRecord) (table table' : List IdempotencyRecord)
    → create r table ≡ some table'
    → get table' r.client_id r.idempotency_key ≡ some r
unfolding create
create-get r table table' h =
    elim (Bool-cases (any (has_key r.client_id r.idempotency_key) table)) [
      | inl e ↦ absurd (cc (rw e at h))
      | inr e ↦
          subst (λ t. get t r.client_id r.idempotency_key ≡ some r) (some-injective _ _ (rw e at h))
            (get_appended table r e)
    ]

any_key :
    (c k : Text) (table : List IdempotencyRecord) (r : IdempotencyRecord)
    → get table c k ≡ some r
    → any (has_key c k) table ≡ true
unfolding get
any_key c k [] r h = absurd (cc)
any_key c k (s ∷ table) r h = ground (arith, any_key c k table r)

-- Under a key that a record holds, no other can be created.
pub create-none :
    (r : IdempotencyRecord) (table : List IdempotencyRecord) (holder : IdempotencyRecord)
    → get table r.client_id r.idempotency_key ≡ some holder
    → create r table ≡ none
unfolding create
create-none r table holder h = rw (any_key r.client_id r.idempotency_key table holder h) refl

-- Under a key that is free, the record is created.
pub get-create :
    (r : IdempotencyRecord) (table : List IdempotencyRecord)
    → get table r.client_id r.idempotency_key ≡ none
    → create r table ≡ some (table ++ r ∷ [])
unfolding create
get-create r table free = elim (Bool-cases (any (has_key r.client_id r.idempotency_key) table)) [
  | inl e ↦
      let (holder, found) = get_taken table r.client_id r.idempotency_key e in
      absurd (cc (free, found))
  | inr e ↦ rw e refl
]

create_taken :
    (r : IdempotencyRecord) (table : List IdempotencyRecord)
    → create r table ≡ none
    → any (has_key r.client_id r.idempotency_key) table ≡ true
unfolding create
create_taken r table h = elim (Bool-cases (any (has_key r.client_id r.idempotency_key) table)) [
  | inl e ↦ e
  | inr e ↦ absurd (cc (rw e at h))
]

-- The result of `upsert` is the record that the key has afterwards.
abbrev pub IsUpserted : IdempotencyRecord → Upserted → Type 0
IsUpserted r (table, result) =
    (found : IdempotencyRecord) × (is_new : Bool) × (result ≡ some (found, is_new))
    × (get table r.client_id r.idempotency_key ≡ some found)

inserted-IsUpserted :
    (r : IdempotencyRecord) (table : List IdempotencyRecord) (o : Option (List IdempotencyRecord))
    → create r table ≡ o
    → IsUpserted r (inserted r table o)
inserted-IsUpserted r table (some table') e = (r, true, refl, create-get r table table' e)
inserted-IsUpserted r table none e =
    let (found, q) = get_taken table r.client_id r.idempotency_key (create_taken r table e) in
    rw q (found, false, refl, q)

found_or_insert-IsUpserted :
    (others : List IdempotencyRecord → List IdempotencyRecord) (r : IdempotencyRecord)
    (table : List IdempotencyRecord) (o : Option IdempotencyRecord)
    → get table r.client_id r.idempotency_key ≡ o
    → IsUpserted r (found_or_insert others r table o)
found_or_insert-IsUpserted others r table (some found) e = (found, false, refl, e)
found_or_insert-IsUpserted others r table none e =
    inserted-IsUpserted r (others table) (create r (others table)) refl

-- Whatever other transactions insert in between, `upsert` raises nothing, and the record that it
-- returns is the one that the table then has under the key.
pub upsert-IsUpserted :
    (others : List IdempotencyRecord → List IdempotencyRecord) (r : IdempotencyRecord)
    (table : List IdempotencyRecord)
    → IsUpserted r (upsert others r table)
unfolding upsert
upsert-IsUpserted others r table =
    found_or_insert-IsUpserted others r table (get table r.client_id r.idempotency_key) refl
