-- ===== src/Middleware/Traced.antt =====
-- The log lines of a request carry the id that its response has.
use domain_process_e2e.Prelude.{
  ℕ, true, List, [], ◌∷◌, ◌++◌, Option, none, some, ◌≡◌, refl, ap, ◌∙◌, inl, inr, Bool-cases,
  Option-cases, subst, map, map-Memᴰ,
}
use mathlib.Core.List.{Memᴰ}
use domain_process_e2e.Prelude.Distinct.{Memᴰ-append}
use domain_process_e2e.Text.{Text, text, is_empty}
use domain_process_e2e.Logging.{
  null, string, is_truthy, Fields, lookup, LogRecord, or_value, or_context, log_event,
}
use domain_process_e2e.Logging.Payload.{RecordLaws}
use domain_process_e2e.Logging.Line.{log_event-request_id}
use domain_process_e2e.Middleware.{
  LogCall, call_in, HttpRequest, Ending, responded, raised, Handled, World, request_id_for,
  request_fields, finish, dispatch_request,
}

regroup {ℓ} :
    {A : Type ℓ} (xs ys : List A) (x y : A)
    → ((xs ++ x ∷ []) ++ ys) ++ y ∷ [] ≡ xs ++ x ∷ ys ++ y ∷ []
regroup [] ys x y = refl
regroup (z ∷ xs) ys x y = ap (◌∷◌ z) (regroup xs ys x y)

-- The id of a request is not empty.
request_id_for-nonempty :
    (uuid : Text) (header : Option Text) → is_truthy (string (request_id_for uuid header)) ≡ true
unfolding request_id_for is_empty
request_id_for-nonempty uuid none = refl
request_id_for-nonempty uuid (some h) = elim (Bool-cases (is_empty h)) [
  | inl e ↦ rw e refl
  | inr e ↦ rw (e, e) refl
]

module _ {Headers : Type 0} (set_header : Text → Text → Headers → Headers) where
  -- what the client gets
  abbrev pub answer : Text → Ending Headers → Ending Headers
  answer request_id raised = raised
  answer request_id (responded r) =
      responded (record r { headers = set_header (text "X-Request-ID") request_id r.headers })

  -- the last call of log_event
  abbrev pub last_event : Ending Headers → Text
  last_event raised = text "request.failed"
  last_event (responded r) = text "request.completed"

  finish_lem :
      (request_id : Text) (request : HttpRequest) (duration : ℕ) (o : Ending Headers) (w : World)
      → (last_call : LogCall) × ((finish set_header request_id request duration o w).0
          ≡ answer request_id o)
        × ((finish set_header request_id request duration o w).1.log ≡ w.log ++ last_call ∷ [])
        × (last_call.context ≡ w.context)
        × (last_call.event ≡ last_event o)
        × (lookup (text "request_id") last_call.fields ≡ some (string request_id))
  unfolding finish lookup domain_process_e2e.Text.text_eq
  finish_lem request_id request duration raised w = (_, refl, refl, refl, refl, refl)
  finish_lem request_id request duration (responded r) w = (_, refl, refl, refl, refl, refl)

  module _ (uuid : Text) (request : HttpRequest) (duration : ℕ) (call_next : Text → Handled Headers)
      (w : World) where
    abbrev pub its_id : Text
    its_id = request_id_for uuid request.request_id_header

    abbrev pub handled : Handled Headers
    handled = call_next its_id

    abbrev pub result : Ending Headers × World
    result = dispatch_request set_header uuid request duration call_next w

    abbrev inside : List LogCall
    inside = map (call_in (string its_id)) handled.calls

    -- The calls of log_event that dispatch_request adds.
    abbrev Logged : LogCall → LogCall → Type 0
    Logged first final =
        (result.1.log ≡ w.log ++ first ∷ inside ++ final ∷ [])
        × (first.event ≡ text "request.started")
        × (final.event ≡ last_event handled.outcome)
        × (first.context ≡ string its_id)
        × (final.context ≡ string its_id)

    abbrev started : LogCall
    started = call_in (string its_id) (text "request.started", request_fields its_id request)

    abbrev before : World
    before = record { context = string its_id; log = (w.log ++ started ∷ []) ++ inside }

    abbrev finished : Ending Headers × World
    finished = finish set_header its_id request duration handled.outcome before

    dispatch_request-finish : result ≡ (finished.0, record finished.1 { context = w.context })
    unfolding dispatch_request
    dispatch_request-finish = refl

    dispatch_request-Logged :
        (first : LogCall) × (final : LogCall) × (result.0 ≡ answer its_id handled.outcome)
        × (result.1.context ≡ w.context)
        × Logged first final
    dispatch_request-Logged =
        let (final, same, log, context, event, own) =
          finish_lem its_id request duration handled.outcome before in
        (
          started,
          final,
          ap (λ (r : Ending Headers × World). r.0) dispatch_request-finish ∙ same,
          ap (λ (r : Ending Headers × World). r.1.context) dispatch_request-finish,
          (
            ap (λ (r : Ending Headers × World). r.1.log) dispatch_request-finish
                ∙ log
                ∙ regroup w.log inside started final,
            refl,
            event,
            refl,
            context,
          ),
        )

    -- The middleware logs the start of a request, and after all that is logged within it, its
    -- completion or failure; it hands on how the application ends, with the id of the request in
    -- the header of a response; and whichever way that is, the context is as it was.
    pub dispatch_request_lem :
        (first : LogCall) × (final : LogCall) × (result.0 ≡ answer its_id handled.outcome)
        × (result.1.context ≡ w.context)
        × (result.1.log
            ≡ w.log ++ first ∷ map (call_in (string its_id)) handled.calls ++ final ∷ [])
        × (first.event ≡ text "request.started")
        × (final.event ≡ last_event handled.outcome)
    dispatch_request_lem =
        let (first, final, same, context, (log, start, end, _, _)) = dispatch_request-Logged in
        (first, final, same, context, log, start, end)

    all_in_context :
        (first final c : LogCall)
        → first.context ≡ string its_id
        → final.context ≡ string its_id
        → Memᴰ c (first ∷ inside ++ final ∷ [])
        → c.context ≡ string its_id
    all_in_context first final c e f (Memᴰ.head q) = ap (λ (c : LogCall). c.context) q ∙ e
    all_in_context first final c e f (Memᴰ.tail m) = elim (Memᴰ-append inside (final ∷ []) m) [
      | inl n ↦
          let (call, k, q) = map-Memᴰ (call_in (string its_id)) handled.calls n in
          ap (λ (c : LogCall). c.context) q ∙ in_context call
      | inr (Memᴰ.head q) ↦ ap (λ (c : LogCall). c.context) q ∙ f
      | inr (Memᴰ.tail k) ↦ elim k [ ]
    ]
      where
        in_context : (call : Text × Fields) → (call_in (string its_id) call).context ≡ string its_id
        in_context (event, fields) = refl

    -- A call that names no other id is written with that of its context.
    own_id :
        (c : LogCall)
        → c.context ≡ string its_id
        → or_value (lookup (text "request_id") c.fields) (string its_id) ≡ string its_id
        → or_context (or_value (lookup (text "request_id") c.fields) null) c.context ≡ string its_id
    own_id c e h = elim (Option-cases (lookup (text "request_id") c.fields)) [
      | inl f ↦ rw f e
      | inr (v, f) ↦
          let this : v ≡ string its_id = rw f at h in
          rw (f, this, request_id_for-nonempty uuid request.request_id_header) refl
    ]

    -- Each line that is written for a request, from its start to its end, by a call that names no
    -- other id, has the id that the header of the response gets.
    pub dispatch_request-traced :
        (make_record : Text → Fields → Option LogRecord) (c : LogCall) (line : Fields)
        → RecordLaws make_record
        → w.log ≡ []
        → Memᴰ c result.1.log
        → or_value (lookup (text "request_id") c.fields) (string its_id) ≡ string its_id
        → log_event make_record c.context c.event c.fields ≡ some line
        → (result.0 ≡ answer its_id handled.outcome)
          × (lookup (text "request_id") line ≡ some (string its_id))
    dispatch_request-traced make_record c line laws empty m no_other h =
        let (first, final, same, context, (log, start, end, e, f)) = dispatch_request-Logged in
        let there : Memᴰ c (first ∷ inside ++ final ∷ []) =
          subst (Memᴰ c) (log ∙ ap (λ l. l ++ first ∷ inside ++ final ∷ []) empty) m in
        let own = own_id c (all_in_context first final c e f there) no_other in
        (
          same,
          log_event-request_id make_record laws c.context c.event c.fields line h
                (ap is_truthy own ∙ request_id_for-nonempty uuid request.request_id_header)
              ∙ ap some own,
        )
