-- ===== src/Http/Laws.antt =====
-- The verdict on a response, the bound on the body, the headers kept, and the order of the
-- attempts.
use domain_process_e2e.Prelude.{
  ℕ, zero, suc, ◌+◌, ◌-◌, ◌≤◌, ◌<◌, Bool, true, false, List, [], ◌∷◌, ◌++◌, ltb, if◌then◌else◌,
  Option, none, some, take, length, ◌≡◌, ◌≢◌, ◌⊎◌, ◌↔◌, inl, inr, refl, sym, ap, ◌∙◌, arith,
  Bool-cases, length-append, length-take-le, length-take, flatten, ltb→lt,
}
use mathlib.Core.List.{Memᴰ, append-nil}
use domain_process_e2e.Text.{Text, text}
use domain_process_e2e.Http.{
  HttpResult, is_success, is_retryable_error, is_permanent_failure, read_chunks, read_body_limited,
  is_stored, bound_value, filter_headers, Scheme, https, http, Attempt, response, redirects, Client,
  probe, give_up, respond, attempt_then, timeout_exception, connect_error, request_exception,
  other_exception,
}
use domain_process_e2e.Model.{
  Message, timed_out, connection_failed, request_error, unexpected_error,
}

-- The responses that are neither a success nor a retryable error nor a permanent failure are those
-- with no error whose status is 408, 429, below 200 or from 600 on.
pub unjudged_iff :
    (r : HttpResult)
    → ((is_success r ≡ false) × (is_retryable_error r ≡ false) × (is_permanent_failure r ≡ false))
      ↔ ((r.error ≡ none)
          × ((r.status_code < 200)
              ⊎ (r.status_code ≡ 408)
              ⊎ (r.status_code ≡ 429)
              ⊎ (600 ≤ r.status_code)))
unfolding is_success is_retryable_error is_permanent_failure
unjudged_iff r = (λ h. ground arith, λ h. ground arith)

-- A retryable error and a permanent failure exclude one another, and a success excludes both.
pub verdicts_exclusive :
    (r : HttpResult)
    → (is_success r ≡ true → (is_retryable_error r ≡ false) × (is_permanent_failure r ≡ false))
      × (is_retryable_error r ≡ true → is_permanent_failure r ≡ false)
unfolding is_success is_retryable_error is_permanent_failure
verdicts_exclusive r = (λ h. ground arith, λ h. ground arith)

module _ {ℓ} {A : Type ℓ} where
  take-append_short :
      (n : ℕ) (xs ys : List A) → length xs ≤ n → take n (xs ++ ys) ≡ xs ++ take (n - length xs) ys
  take-append_short n [] ys h = ap (λ k. take k ys) (omega arith)
  take-append_short zero (x ∷ xs) ys h = absurd (omega arith)
  take-append_short (suc n) (x ∷ xs) ys h =
      ap (◌∷◌ x) (take-append_short n xs ys (omega arith) ∙ ap (λ k. xs ++ take k ys) (omega arith))

  take-append_long : (n : ℕ) (xs ys : List A) → n ≤ length xs → take n (xs ++ ys) ≡ take n xs
  take-append_long zero xs ys h = refl
  take-append_long (suc n) [] ys h = absurd (omega arith)
  take-append_long (suc n) (x ∷ xs) ys h = ap (◌∷◌ x) (take-append_long n xs ys (omega arith))

  take_nil : (n : ℕ) → take {A = A} n [] ≡ []
  take_nil zero = refl
  take_nil (suc n) = refl

  length-take_long : (n : ℕ) (xs : List A) → n ≤ length xs → length (take n xs) ≡ n
  length-take_long n xs h = omega (arith, length-take n xs)

read_chunks-take :
    (limit total : ℕ) (chunks : List Text)
    → total ≤ limit
    → flatten (read_chunks limit total chunks) ≡ take (limit - total) (flatten chunks)
unfolding read_chunks
read_chunks-take limit total [] h = sym (take_nil (limit - total))
read_chunks-take limit total (chunk ∷ chunks) h =
    elim (Bool-cases (ltb limit (total + length chunk))) [
      | inl e ↦ rw e (
          append-nil _
          ∙ ap (λ k. take k chunk) (omega arith)
          ∙ sym (
              take-append_long (limit - total) chunk (flatten chunks)
                (omega (arith, ltb→lt limit (total + length chunk) e))))
      | inr e ↦
          let room : total + length chunk ≤ limit = ground arith in
          rw e (
            ap (λ t. chunk ++ t)
              (read_chunks-take limit (total + length chunk) chunks room
                ∙ ap (λ k. take k (flatten chunks)) (omega arith))
            ∙ sym (take-append_short (limit - total) chunk (flatten chunks) (omega (arith, room))))
    ]

-- The body that is read is the first `limit` bytes of what the server sends.
pub read_body_limited-eq-take :
    (limit : ℕ) (chunks : List Text) → read_body_limited limit chunks ≡ take limit (flatten chunks)
unfolding read_body_limited
read_body_limited-eq-take limit chunks =
    read_chunks-take limit 0 chunks (omega arith) ∙ ap (λ k. take k (flatten chunks)) (omega arith)

bound_value_short : (v : Text) → length (bound_value v) ≤ 1003
unfolding bound_value
bound_value_short v = elim (Bool-cases (ltb 1000 (length v))) [
  | inl e ↦ rw e (omega (arith, length-append (take 1000 v) (text "..."), length-take-le 1000 v))
  | inr e ↦ rw e (ground arith)
]

filter_headers-if :
    (lower : Text → Text) (b : Bool) {key v : Text} (k w : Text) {rest : List (Text × Text)}
    → is_stored (lower k) ≡ b
    → Memᴰ (key, v) (if b then (k, bound_value w) ∷ rest else rest)
    → ((is_stored (lower key) ≡ true) × (length v ≤ 1003)) ⊎ Memᴰ (key, v) rest
filter_headers-if lower true {key} {v} k w e (Memᴰ.head q) =
    inl (ap (λ p. is_stored (lower p.0)) q ∙ e, rw (ap (λ p. p.1) q) (bound_value_short w))
filter_headers-if lower true k w e (Memᴰ.tail m) = inr m
filter_headers-if lower false k w e m = inr m

-- Of whatever the server sends, a header that is stored passes the filter on names, and its value
-- has at most 1003 code points.
pub filter_headers_stored :
    (lower : Text → Text) (headers : List (Text × Text)) (key v : Text)
    → Memᴰ (key, v) (filter_headers lower headers)
    → (is_stored (lower key) ≡ true) × (length v ≤ 1003)
unfolding filter_headers
filter_headers_stored lower [] key v m = elim m [ ]
filter_headers_stored lower ((k, w) ∷ headers) key v m =
    elim (filter_headers-if lower (is_stored (lower k)) k w refl m) [
      | inl h ↦ h
      | inr n ↦ filter_headers_stored lower headers key v n
    ]

module _ (c : Client) where
  -- The response that made a result.
  abbrev pub FromResponse : Attempt → HttpResult → Type 0
  FromResponse a r =
      (status : ℕ) × (headers : List (Text × Text)) × (chunks : List Text) × (a
        ≡ response status headers chunks)
      × (r ≡ respond c status headers chunks)

  attempt_then_cases :
      (a : Attempt) (next : Option Message → HttpResult)
      → (attempt_then c a next).error ≡ none
      → FromResponse a (attempt_then c a next)
        ⊎ ((e : Option Message) × (attempt_then c a next ≡ next e))
  unfolding attempt_then
  attempt_then_cases (response status headers chunks) next h =
      inl (status, headers, chunks, refl, refl)
  attempt_then_cases (timeout_exception e) next h = inr (some (timed_out e), refl)
  attempt_then_cases (connect_error e) next h = inr (some (connection_failed e), refl)
  attempt_then_cases (redirects e) next h = absurd (cc)
  attempt_then_cases (request_exception e) next h = inr (some (request_error e), refl)
  attempt_then_cases (other_exception e) next h = inr (some (unexpected_error e), refl)

  give_up_error : (e : Option Message) → (give_up c e).error ≢ none
  unfolding give_up
  give_up_error e h = cc

  last_attempt :
      (a : Attempt)
      → (attempt_then c a (give_up c)).error ≡ none
      → FromResponse a (attempt_then c a (give_up c))
  last_attempt a h = elim (attempt_then_cases a (give_up c) h) [
    | inl r ↦ r
    | inr (e, q) ↦ absurd (give_up_error e (sym (ap (λ r. r.error) q) ∙ h))
  ]

  -- A probe with no error is made from a response: that of HTTPS, or that of HTTP.
  pub probe_response :
      (request : Scheme → Attempt)
      → (probe c request).error ≡ none
      → FromResponse (request https) (probe c request)
        ⊎ FromResponse (request http) (probe c request)
  unfolding probe
  probe_response request h =
      let next = λ (e : Option Message). attempt_then c (request http) (give_up c) in
      elim (attempt_then_cases (request https) next h) [
        | inl r ↦ inl r
        | inr (e, q) ↦
            let (status, headers, chunks, a, r) =
              last_attempt (request http) (sym (ap (λ r. r.error) q) ∙ h) in
            inr (status, headers, chunks, a, q ∙ r)
      ]

  -- If HTTPS gives a response, the probe is made from it.
  pub probe_https :
      (request : Scheme → Attempt) (status : ℕ) (headers : List (Text × Text)) (chunks : List Text)
      → request https ≡ response status headers chunks
      → probe c request ≡ respond c status headers chunks
  unfolding probe attempt_then
  probe_https request status headers chunks e = rw e
