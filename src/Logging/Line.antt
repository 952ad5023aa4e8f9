-- ===== src/Logging/Line.antt =====
-- What stands in a line that log_event writes.
use domain_process_e2e.Prelude.{
  true, false, Option, some, ◌≡◌, refl, sym, ap, ◌∙◌, inl, inr, Option-cases,
}
use mathlib.Core.Option.{some-injective}
use domain_process_e2e.Text.{Text, text}
use domain_process_e2e.Logging.{
  FieldValue, null, string, is_null, is_truthy, Fields, lookup, LogRecord, is_reserved, or_value,
  or_context, request_id_of, payload_of, filter_record, extra_of, log_event,
}
use domain_process_e2e.Logging.Attributes.{DistinctKeys}
use domain_process_e2e.Logging.Payload.{
  RecordLaws, given, filter_record-kept, filter_record-request_id, is_fixed, base-event,
  base-request_id, event_first, request_id_later, field_later, payload_of-attribute,
  payload_of-kept, payload_of-DistinctKeys,
}

module _ (make_record : Text → Fields → Option LogRecord) (laws : RecordLaws make_record)
    (context : FieldValue) (event : Text) (fields : Fields) where
  log_event-made :
      (line : Fields)
      → log_event make_record context event fields ≡ some line
      → (r : LogRecord) × (make_record event (extra_of event fields) ≡ some r)
        × (line ≡ payload_of context (filter_record context r))
  unfolding log_event
  log_event-made line h = elim (Option-cases (make_record event (extra_of event fields))) [
    | inl e ↦ absurd (cc (rw e at h))
    | inr (r, e) ↦ (r, e, sym (some-injective _ _ (rw e at h)))
  ]

  id_attribute :
      (r : LogRecord)
      → make_record event (extra_of event fields) ≡ some r
      → or_value (lookup (text "request_id") r.attributes) null ≡ given fields
  id_attribute r made = elim (Option-cases (lookup (text "request_id") fields)) [
    | inl e ↦ rw (laws.no_request_id event _ r made (request_id_later event fields ∙ e), e) refl
    | inr (v, e) ↦
        rw
          (
            laws.extra_there event _ r (text "request_id") v made
                (request_id_later event fields ∙ e),
            e,
          )
          refl
  ]

  -- A line that log_event writes names no key twice; its event is the one that is given; and each
  -- field that is not None stands in it under its key, unless logging has that name for an
  -- attribute or the formatter for a key of its own.
  pub log_event-line :
      (line : Fields) (k : Text) (v : FieldValue)
      → log_event make_record context event fields ≡ some line
      → lookup k fields ≡ some v
      → is_null v ≡ false
      → is_reserved k ≡ false
      → is_fixed k ≡ false
      → DistinctKeys line
        × (lookup (text "event") line ≡ some (string event))
        × (lookup k line ≡ some v)
  log_event-line line k v h there value free new =
      let (r, made, e) = log_event-made line h in
      let filtered = filter_record context r in
      let its_event = filter_record-kept context r (text "event") (string event) (
        laws.extra_there event _ r (text "event") (string event) made (event_first event fields)) in
      let its_field =
        filter_record-kept context r k v
          (laws.extra_there event _ r k v made (field_later event fields k new ∙ there)) in
      rw e (
        payload_of-DistinctKeys context filtered,
        payload_of-kept context filtered (text "event") (string event) (
            base-event context filtered
            ∙ ap (λ o. some (or_value o (string filtered.message))) its_event),
        payload_of-attribute context filtered k v its_field value free new,
      )

  -- A line that is written within a request has the id of the request, or the one that the
  -- call gives.
  pub log_event-request_id :
      (line : Fields)
      → log_event make_record context event fields ≡ some line
      → is_truthy (or_context (given fields) context) ≡ true
      → lookup (text "request_id") line ≡ some (or_context (given fields) context)
  log_event-request_id line h truthy =
      let (r, made, e) = log_event-made line h in
      let filtered = filter_record context r in
      let its_id : request_id_of context filtered ≡ or_context (given fields) context =
        filter_record-request_id context r ∙ ap (λ v. or_context v context) (id_attribute r made) in
      rw e (
        payload_of-kept context filtered (text "request_id") _
          (base-request_id context filtered (ap is_truthy its_id ∙ truthy) ∙ ap some its_id))
