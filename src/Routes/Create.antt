-- ===== src/Routes/Create.antt =====
-- src/domain_processing_service/routes.py, create_job: the names of a request, the domains and
-- tasks that are made for them, and the transaction around it. The database is what the transaction
-- sees.
use domain_process_e2e.Prelude.{
  ℕ, suc, Bool, false, not, List, [], ◌∷◌, ◌++◌, map, ◌==◌, if◌then◌else◌, Option, none, some,
  is_some, filter, any,
}
use domain_process_e2e.Prelude.Sort.{sort}
use domain_process_e2e.Text.{Text, text, text_eq, text_leb, is_empty}
use domain_process_e2e.Normalization.{
  Unicode, NormalizedDomain, NormalizeError, normalize_domain, deduplicate_domains,
}
use domain_process_e2e.Model.{
  pending, failed, user_request, validation_error, Message, invalid_domain, validation_failed,
  Domain, Task,
}
use domain_process_e2e.Domains.{new_domain}

pub record Request : Type 0 where
  pub domains : List Text
  pub idempotency_key : Option Text
  pub client_id : Option Text
  pub request_id : Text

-- The ids that uuid4 gives, in the order of the calls.
pub record Ids : Type 0 where
  pub job : ℕ
  pub record_ : ℕ
  pub domain : ℕ → ℕ
  pub task : ℕ → ℕ

-- `digest` is SHA256 of the JSON text of a list, `iterate` the order in which a set of the texts
-- is gone through.
pub record Service : Type 0 where
  pub unicode : Unicode
  pub digest : List Text → Text
  pub iterate : List Text → List Text
  pub max_domains_per_request : ℕ

-- The answers: an HTTP error, 202 with the new job, 200 with the job of the idempotency record.
pub data Response : Type 0 where
  http_error : ℕ → Response
  created replayed : ℕ → Response

-- `{key(x): x for x in xs}.get(k)`: a later entry replaces an earlier one.
abbrev pub dict_get {ℓ} : {A : Type ℓ} → (A → Text) → List A → Text → Option A
dict_get key [] k = none
dict_get key (x ∷ xs) k =
    let later = dict_get key xs k in
    if is_some later then later else if text_eq (key x) k then some x else none

abbrev pub cons_some {ℓ} : {A : Type ℓ} → Option A → List A → List A
cons_some none xs = xs
cons_some (some x) xs = x ∷ xs

-- `[table[v] for v in values if v in table]`
abbrev pub keep_found {ℓ} : {A : Type ℓ} → (Text → Option A) → List Text → List A
keep_found table [] = []
keep_found table (v ∷ vs) = cons_some (table v) (keep_found table vs)

-- `table[v]` for each of a list; `none` is the KeyError.
abbrev pub cons_both {ℓ} : {A : Type ℓ} → Option A → Option (List A) → Option (List A)
cons_both (some x) (some xs) = some (x ∷ xs)
cons_both _ _ = none

abbrev pub value_of : NormalizedDomain → Text
value_of r = r.value

unfoldable pub valid_domains : Unicode → List Text → List NormalizedDomain
valid_domains u ds = filter (λ (r : NormalizedDomain). r.is_valid) (map (normalize_domain u) ds)

unfoldable pub invalid_domains : Unicode → List Text → List NormalizedDomain
invalid_domains u ds =
    filter (λ (r : NormalizedDomain). not r.is_valid) (map (normalize_domain u) ds)

-- final_valid_domains
unfoldable pub final_valid : Unicode → List NormalizedDomain → List NormalizedDomain
final_valid u valid =
    keep_found (dict_get value_of valid) (deduplicate_domains u (map value_of valid))

-- `norm_d.value if norm_d.value else "invalid"`
abbrev pub stored_name : NormalizedDomain → Text
stored_name r = if is_empty r.value then text "invalid" else r.value

-- _compute_request_hash
unfoldable pub compute_request_hash : Service → List Text → Text
compute_request_hash service ds =
    service.digest (sort text_leb (map (λ d. (normalize_domain service.unicode d).value) ds))

abbrev pub name_of : Domain → Text
name_of d = d.normalized_domain

-- The loop that adds the missing domains to `domain_map`; `fresh` gives the ids.
unfoldable pub missing_domains : (ℕ → ℕ) → ℕ → List Domain → List Text → List Domain
missing_domains fresh now domain_map [] = []
missing_domains fresh now domain_map (name ∷ names) =
    let new_d = new_domain (fresh 0) name now in
    let skipped = missing_domains fresh now domain_map names in
    let added = missing_domains (λ i. fresh (suc i)) now (domain_map ++ new_d ∷ []) names in
    if is_some (dict_get name_of domain_map name) then skipped else new_d ∷ added

-- `[domain_map[v] for v in names]`
abbrev pub domains_of : List Domain → List Text → Option (List Domain)
domains_of domain_map [] = some []
domains_of domain_map (v ∷ vs) =
    cons_both (dict_get name_of domain_map v) (domains_of domain_map vs)

abbrev pub inactive_ids : List Domain → List ℕ
inactive_ids ds = map (λ (d : Domain). d.id) (filter (λ (d : Domain). not d.is_active) ds)

abbrev pub has_some_id : List ℕ → Domain → Bool
has_some_id ids d = any (λ i. i == d.id) ids

abbrev pub new_task : ℕ → ℕ → ℕ → ℕ → Task
new_task task_id job_id domain_id now = record {
  id = task_id;
  job_id = some job_id;
  domain_id = domain_id;
  type = user_request;
  status = pending;
  attempts = 0;
  next_attempt_at = now;
  lease_expires_at = none;
  error_payload = none;
  created_at = now;
  updated_at = now;
}

abbrev pub error_message : Option NormalizeError → Message
error_message none = validation_failed
error_message (some e) = invalid_domain e

abbrev pub failed_task : Option NormalizeError → Task → Task
failed_task error t = record t {
  status = failed;
  error_payload =
      some (record { code = validation_error; message = error_message error; retryable = false });
}

-- the first loop over `tasks_to_create`, and then `rest` from the ids that are left
unfoldable pub valid_tasks : (ℕ → ℕ) → ℕ → ℕ → List Domain → ((ℕ → ℕ) → List Task) → List Task
valid_tasks fresh job_id now [] rest = rest fresh
valid_tasks fresh job_id now (d ∷ ds) rest =
    new_task (fresh 0) job_id d.id now ∷ valid_tasks (λ i. fresh (suc i)) job_id now ds rest

-- the second loop, over the invalid names and their domains
unfoldable pub invalid_tasks : ℕ → ℕ → List NormalizedDomain → List Domain → (ℕ → ℕ) → List Task
invalid_tasks job_id now (r ∷ rs) (d ∷ ds) fresh =
    failed_task r.error (new_task (fresh 0) job_id d.id now)
    ∷ invalid_tasks job_id now rs ds (λ i. fresh (suc i))
invalid_tasks job_id now _ _ fresh = []
