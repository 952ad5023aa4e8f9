-- ===== src/Idempotency.antt =====
-- src/domain_processing_service/repositories/idempotency.py. (client_id, idempotency_key) is
-- unique, and an insert that breaks this is `none`, the IntegrityError.
pub mod Keys
use domain_process_e2e.Prelude.{
  Bool, true, false, ◌&&◌, List, [], ◌∷◌, ◌++◌, if◌then◌else◌, Option, none, some, any, find,
}
use domain_process_e2e.Text.{Text, text_eq}
use domain_process_e2e.Model.{IdempotencyRecord}

abbrev pub has_key : Text → Text → IdempotencyRecord → Bool
has_key client_id idempotency_key r =
    text_eq r.client_id client_id && text_eq r.idempotency_key idempotency_key

unfoldable pub create : IdempotencyRecord → List IdempotencyRecord → Option (List IdempotencyRecord)
create record_ table =
    if any (has_key record_.client_id record_.idempotency_key) table
    then none
    else some (table ++ record_ ∷ [])

unfoldable pub get : List IdempotencyRecord → Text → Text → Option IdempotencyRecord
get table client_id idempotency_key = find (has_key client_id idempotency_key) table

-- What `upsert` leaves, and the record with `is_new`; `none` is the IntegrityError raised again.
abbrev pub Upserted : Type 0
Upserted = List IdempotencyRecord × Option (IdempotencyRecord × Bool)

abbrev or_raise : List IdempotencyRecord → Option IdempotencyRecord → Upserted
or_raise table none = (table, none)
or_raise table (some existing) = (table, some (existing, false))

-- the savepoint, and the lookup after an IntegrityError
abbrev pub inserted :
    IdempotencyRecord → List IdempotencyRecord → Option (List IdempotencyRecord) → Upserted
inserted record_ table (some table') = (table', some (record_, true))
inserted record_ table none = or_raise table (get table record_.client_id record_.idempotency_key)

abbrev pub found_or_insert :
    (List IdempotencyRecord → List IdempotencyRecord)
    → IdempotencyRecord
    → List IdempotencyRecord
    → Option IdempotencyRecord
    → Upserted
found_or_insert others record_ table (some existing) = (table, some (existing, false))
found_or_insert others record_ table none =
    inserted record_ (others table) (create record_ (others table))

-- `others` is what other transactions commit between the lookup and the insert.
unfoldable pub upsert :
    (List IdempotencyRecord → List IdempotencyRecord)
    → IdempotencyRecord
    → List IdempotencyRecord
    → Upserted
upsert others record_ table =
    found_or_insert others record_ table (get table record_.client_id record_.idempotency_key)
