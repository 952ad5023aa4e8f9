-- ===== src/Logging/Payload.antt =====
-- What stands in the payload of a record.
use domain_process_e2e.Prelude.{
  Bool, true, false, List, [], ◌∷◌, ◌++◌, Option, none, some, is_some, any, ◌≡◌, refl, ap, ◌∙◌, inl,
  inr, arith, Bool-cases, Option-cases,
}
use mathlib.Core.List.{append-nil}
use domain_process_e2e.Text.{Text, text, text_eq, text_eq→eq}
use domain_process_e2e.Logging.{
  FieldValue, null, string, is_null, is_truthy, Fields, lookup, LogRecord, is_reserved, or_value,
  or_context, request_id_of, base_payload, add_attributes, exception_field, payload_of,
  filter_record, extra_of,
}
use domain_process_e2e.Logging.Attributes.{
  DistinctKeys, lookup-front, lookup-back, one_more-DistinctKeys, by_attributes,
  add_attributes-kept, gets_in,
}

base-DistinctKeys : (context : FieldValue) (r : LogRecord) → DistinctKeys (base_payload context r)
unfolding base_payload lookup text_eq
base-DistinctKeys context r = elim (Bool-cases (is_truthy (request_id_of context r))) [
  | inl e ↦ rw e (refl, (refl, (refl, (refl, (refl, tt)))))
  | inr e ↦ rw e (refl, (refl, (refl, (refl, tt))))
]

abbrev exc_info : Text
exc_info = text "exc_info"

exc_info_reserved : is_reserved exc_info ≡ true
unfolding is_reserved text_eq
exc_info_reserved = refl

-- The loop adds no "exc_info", which is reserved.
attributes-DistinctKeys :
    (attributes payload : Fields)
    → DistinctKeys payload × (lookup exc_info payload ≡ none)
    → DistinctKeys (add_attributes attributes payload)
      × (lookup exc_info (add_attributes attributes payload) ≡ none)
attributes-DistinctKeys attributes payload h =
    by_attributes (λ p. DistinctKeys p × (lookup exc_info p ≡ none))
      (λ k v p new free h.
        (one_more-DistinctKeys p k v h.0 new, lookup-back exc_info p _ h.1 ∙ not_exc_info k v free))
      attributes payload h
  where
    is_exc_info : (k : Text) → k ≡ exc_info → ¬ (is_reserved k ≡ false)
    is_exc_info k e free = absurd (cc (exc_info_reserved, ap is_reserved e, free))

    not_exc_info :
        (k : Text) (v : FieldValue) → is_reserved k ≡ false → lookup exc_info ((k, v) ∷ []) ≡ none
    not_exc_info k v free = elim (Bool-cases (text_eq k exc_info)) [
      | inl e ↦ absurd (is_exc_info k (text_eq→eq k exc_info e) free)
      | inr e ↦ unfold lookup in rw e refl
    ]

base_no-exc_info :
    (context : FieldValue) (r : LogRecord) → lookup exc_info (base_payload context r) ≡ none
unfolding base_payload lookup text_eq
base_no-exc_info context r = elim (Bool-cases (is_truthy (request_id_of context r))) [
  | inl e ↦ rw e refl
  | inr e ↦ rw e refl
]

pub payload_of-DistinctKeys :
    (context : FieldValue) (r : LogRecord) → DistinctKeys (payload_of context r)
unfolding payload_of
payload_of-DistinctKeys context r = with_exception r.exc_info
  where
    body : Fields
    body = add_attributes r.attributes (base_payload context r)

    whole : DistinctKeys body × (lookup exc_info body ≡ none)
    whole =
        attributes-DistinctKeys r.attributes (base_payload context r)
          (base-DistinctKeys context r, base_no-exc_info context r)

    with_exception : (o : Option Text) → DistinctKeys (body ++ exception_field o)
    with_exception none = rw (append-nil body) whole.0
    with_exception (some t) = one_more-DistinctKeys body exc_info (string t) whole.0 whole.1

-- What stands in the payload before the loop stays.
pub payload_of-kept :
    (context : FieldValue) (r : LogRecord) (k : Text) (v : FieldValue)
    → lookup k (base_payload context r) ≡ some v
    → lookup k (payload_of context r) ≡ some v
unfolding payload_of
payload_of-kept context r k v h =
    lookup-front k (add_attributes r.attributes (base_payload context r)) _ v
      (add_attributes-kept r.attributes (base_payload context r) k v h)

-- What `make_record` promises: the fields of `extra` are attributes of the record, and `request_id`
-- is one only when it is a field.
pub record RecordLaws (make_record : Text → Fields → Option LogRecord) : Type 0 where
  pub extra_there :
      (event : Text) (extra : Fields) (r : LogRecord) (k : Text) (v : FieldValue)
      → make_record event extra ≡ some r
      → lookup k extra ≡ some v
      → lookup k r.attributes ≡ some v
  pub no_request_id :
      (event : Text) (extra : Fields) (r : LogRecord)
      → make_record event extra ≡ some r
      → lookup (text "request_id") extra ≡ none
      → lookup (text "request_id") r.attributes ≡ none

abbrev pub given : Fields → FieldValue
given fields = or_value (lookup (text "request_id") fields) null

-- The filter changes no attribute that is there.
pub filter_record-kept :
    (context : FieldValue) (r : LogRecord) (k : Text) (v : FieldValue)
    → lookup k r.attributes ≡ some v
    → lookup k (filter_record context r).attributes ≡ some v
unfolding filter_record
filter_record-kept context r k v h =
    elim (Bool-cases (is_some (lookup (text "request_id") r.attributes))) [
      | inl e ↦ rw e h
      | inr e ↦ rw e (lookup-front k r.attributes _ v h)
    ]

or_context-same : (v : FieldValue) → or_context v v ≡ v
or_context-same v = elim (Bool-cases (is_truthy v)) [ inl e ↦ rw e refl | inr e ↦ rw e refl ]

-- The id of the line is that of the field, or else the context's.
pub filter_record-request_id :
    (context : FieldValue) (r : LogRecord)
    → request_id_of context (filter_record context r)
      ≡ or_context (or_value (lookup (text "request_id") r.attributes) null) context
unfolding request_id_of filter_record
filter_record-request_id context r = elim (Option-cases (lookup (text "request_id") r.attributes)) [
  | inl e ↦
      let at_end : lookup (text "request_id") (r.attributes ++ (text "request_id", context) ∷ [])
          ≡ some context =
        lookup-back (text "request_id") r.attributes _ e ∙ (unfold lookup text_eq in refl) in
      rw (e, at_end) (or_context-same context)
  | inr (v, e) ↦ rw (e, e) refl
]

-- the keys that the payload has before the loop
abbrev fixed_keys : List Text
fixed_keys = text "timestamp" ∷ text "level" ∷ text "logger" ∷ text "event" ∷ text "request_id" ∷ []

abbrev pub is_fixed : Text → Bool
is_fixed k = any (λ l. text_eq l k) fixed_keys

-- A key that is none of these is new to that payload.
base-new :
    (context : FieldValue) (r : LogRecord) (k : Text)
    → is_fixed k ≡ false
    → lookup k (base_payload context r) ≡ none
unfolding base_payload lookup
base-new context r k h =
    let a : text_eq (text "timestamp") k ≡ false = ground arith in
    let b : text_eq (text "level") k ≡ false = ground arith in
    let c : text_eq (text "logger") k ≡ false = ground arith in
    let d : text_eq (text "event") k ≡ false = ground arith in
    let e : text_eq (text "request_id") k ≡ false = ground arith in
    elim (Bool-cases (is_truthy (request_id_of context r))) [
      | inl f ↦ rw (f, a, b, c, d, e) refl
      | inr f ↦ rw (f, a, b, c, d) refl
    ]

pub base-event :
    (context : FieldValue) (r : LogRecord)
    → lookup (text "event") (base_payload context r)
      ≡ some (or_value (lookup (text "event") r.attributes) (string r.message))
unfolding base_payload lookup text_eq
base-event context r = refl

pub base-request_id :
    (context : FieldValue) (r : LogRecord)
    → is_truthy (request_id_of context r) ≡ true
    → lookup (text "request_id") (base_payload context r) ≡ some (request_id_of context r)
unfolding base_payload lookup text_eq
base-request_id context r h = rw h refl

pub event_first :
    (event : Text) (fields : Fields)
    → lookup (text "event") (extra_of event fields) ≡ some (string event)
unfolding lookup text_eq
event_first event fields = refl

pub request_id_later :
    (event : Text) (fields : Fields)
    → lookup (text "request_id") (extra_of event fields) ≡ lookup (text "request_id") fields
unfolding lookup text_eq
request_id_later event fields = refl

pub field_later :
    (event : Text) (fields : Fields) (k : Text)
    → is_fixed k ≡ false
    → lookup k (extra_of event fields) ≡ lookup k fields
unfolding lookup
field_later event fields k h =
    let other : text_eq (text "event") k ≡ false = ground arith in rw other refl

pub payload_of-attribute :
    (context : FieldValue) (r : LogRecord) (k : Text) (v : FieldValue)
    → lookup k r.attributes ≡ some v
    → is_null v ≡ false
    → is_reserved k ≡ false
    → is_fixed k ≡ false
    → lookup k (payload_of context r) ≡ some v
unfolding payload_of
payload_of-attribute context r k v there value free new =
    lookup-front k (add_attributes r.attributes (base_payload context r)) _ v (
      gets_in r.attributes (base_payload context r) k v there value free (base-new context r k new))
