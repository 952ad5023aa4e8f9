-- ===== src/Routes/Cursor.antt =====
-- src/domain_processing_service/dtos.py, Cursor. The texts of times and ids, JSON and base64 are
-- parameters.
use domain_process_e2e.Prelude.{
  ℕ, List, [], ◌∷◌, if◌then◌else◌, Option, none, some, ◌≡◌, refl, is_some,
}
use domain_process_e2e.Text.{Text, text, text_eq}

-- What json.loads gives, as far as decode reads it: a value of a field is a string or not.
pub data Value : Type 0 where
  string : Text → Value
  not_string : Value

pub data Json : Type 0 where
  object : List (Text × Value) → Json
  not_object : Json

pub record Codec : Type 0 where
  pub isoformat : ℕ → Text
  pub fromisoformat : Text → Option ℕ
  pub uuid_str : ℕ → Text
  pub uuid : Text → Option ℕ
  pub dumps : List (Text × Text) → Text
  pub loads : Text → Option Json
  pub urlsafe_b64encode : Text → Text
  pub urlsafe_b64decode : Text → Option Text

-- The cursor, or a ValueError, or an exception of another kind, which decode does not catch.
pub data Decoded : Type 0 where
  decoded : ℕ × ℕ → Decoded
  value_error uncaught : Decoded

-- `data[key]`, where a later field replaces an earlier one
abbrev pub field : List (Text × Value) → Text → Option Value
field [] key = none
field ((k, v) ∷ fields) key =
    let later = field fields key in
    if is_some later then later else if text_eq k key then some v else none

abbrev pub with_id : ℕ → Option ℕ → Decoded
with_id created_at none = value_error
with_id created_at (some task_id) = decoded (created_at, task_id)

-- `UUID(…)`, which raises no ValueError for what is no string
abbrev pub then_id : Codec → Option Value → Option ℕ → Decoded
then_id codec none (some created_at) = value_error
then_id codec (some (string t)) (some created_at) = with_id created_at (codec.uuid t)
then_id codec (some not_string) (some created_at) = uncaught
then_id codec v none = value_error

-- `datetime.fromisoformat(…)`, which raises a TypeError for what is no string
abbrev pub from_fields : Codec → Option Value → Option Value → Decoded
from_fields codec none v = value_error
from_fields codec (some (string t)) v = then_id codec v (codec.fromisoformat t)
from_fields codec (some not_string) v = uncaught

-- Indexing what is no object with a string raises a TypeError.
abbrev pub from_json : Codec → Option Json → Decoded
from_json codec none = value_error
from_json codec (some not_object) = uncaught
from_json codec (some (object fields)) =
    from_fields codec (field fields (text "created_at")) (field fields (text "task_id"))

abbrev pub from_text : Codec → Option Text → Decoded
from_text codec none = value_error
from_text codec (some t) = from_json codec (codec.loads t)

-- `data`
abbrev pub cursor_fields : Text → Text → List (Text × Text)
cursor_fields created_at task_id = (text "created_at", created_at) ∷ (text "task_id", task_id) ∷ []

unfoldable pub encode : Codec → ℕ × ℕ → Text
encode codec (created_at, task_id) =
    codec.urlsafe_b64encode
      (codec.dumps (cursor_fields (codec.isoformat created_at) (codec.uuid_str task_id)))

unfoldable pub decode : Codec → Text → Decoded
decode codec cursor = from_text codec (codec.urlsafe_b64decode cursor)

abbrev pub strings : List (Text × Text) → List (Text × Value)
strings [] = []
strings ((k, v) ∷ fields) = (k, string v) ∷ strings fields

-- Each reader reads what its writer writes.
pub record CodecLaws (codec : Codec) : Type 0 where
  pub time_read : (t : ℕ) → codec.fromisoformat (codec.isoformat t) ≡ some t
  pub id_read : (i : ℕ) → codec.uuid (codec.uuid_str i) ≡ some i
  pub json_read :
      (created_at task_id : Text)
      → codec.loads (codec.dumps (cursor_fields created_at task_id))
        ≡ some (object (strings (cursor_fields created_at task_id)))
  pub base64_read : (t : Text) → codec.urlsafe_b64decode (codec.urlsafe_b64encode t) ≡ some t

-- A cursor that is encoded is decoded to itself, when each reader reads what its writer writes.
pub decode-encode :
    (codec : Codec) → CodecLaws codec → (c : ℕ × ℕ) → decode codec (encode codec c) ≡ decoded c
unfolding decode encode text_eq
decode-encode codec laws (created_at, task_id) =
    rw
      (
        laws.base64_read _,
        laws.json_read (codec.isoformat created_at) (codec.uuid_str task_id),
        laws.time_read created_at,
        laws.id_read task_id,
      )
      refl
