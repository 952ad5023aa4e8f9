-- ===== src/Examples.antt =====
-- Concrete inputs: tasks, domains, details, a Unicode table that is right on ASCII, and the
-- environments of a run. The theorems at these inputs stand in the child modules.
pub mod Names
pub mod Tables
pub mod Details
pub mod Runs
pub mod Requests
pub mod Locks
pub mod Loops
pub mod Reached
pub mod Observed
use domain_process_e2e.Prelude.{
  ℕ, ◌+◌, Bool, true, false, List, [], ◌∷◌, ◌==◌, if◌then◌else◌, Option, none, some, map, refl, sym,
  ◌∙◌, ◌≡◌,
}
use mathlib.Core.List.{Memᴰ}
use domain_process_e2e.Tasks.Budget.{IsTable, IsTaskValid}
use domain_process_e2e.Text.{Text, text}
use domain_process_e2e.Normalization.{Unicode, ascii_lower, encoded}
use domain_process_e2e.Model.{
  pending, processing, user_request, refresh, Job, Domain, Task, DomainDetail, Db,
}
use domain_process_e2e.Ip.{Address, v4, ip4}
use domain_process_e2e.Dns.{RecordType, Lookup, hosts}
use domain_process_e2e.Dns
use domain_process_e2e.Http.{Scheme, Attempt, response, Client}
use domain_process_e2e.Pipeline.{Env}

abbrev pub ascii : Unicode
ascii = record {
  lower = map ascii_lower;
  idna = encoded;
  lower_ascii = λ t h. refl;
  idna_ascii = λ t h k. refl;
}

abbrev pub task_of : ℕ → ℕ → Task
task_of i created_at = record {
  id = i;
  job_id = some 7;
  domain_id = 4;
  type = user_request;
  status = pending;
  attempts = 0;
  next_attempt_at = 0;
  lease_expires_at = none;
  error_payload = none;
  created_at = created_at;
  updated_at = created_at;
}

abbrev pub first_task : Task
first_task = task_of 1 10

abbrev pub second_task : Task
second_task = record (task_of 2 5) { type = refresh; job_id = none }

abbrev pub expired_task : Task
expired_task = record (task_of 3 10) {
  status = processing;
  attempts = 1;
  lease_expires_at = some 20;
}

abbrev pub detail_of : ℕ → ℕ → DomainDetail
detail_of domain_id version = record {
  domain_id = domain_id;
  ip_addresses = [];
  ips_v4 = [];
  ips_v6 = [];
  cname = none;
  http_status = 200;
  page_title = none;
  response_time = 3;
  response_headers = [];
  fetched_at = 0;
  next_refresh_at = 86400;
  version = version;
}

abbrev pub known_domain : Domain
known_domain = record {
  id = 4;
  normalized_domain = text "example.com";
  is_active = true;
  deactivated_at = none;
  created_at = 0;
  updated_at = 0;
}

abbrev pub open_job : Job
open_job = record { id = 7; status = pending; created_at = 0; updated_at = 0 }

abbrev pub small_db : List Task → List DomainDetail → Db
small_db tasks details = record {
  jobs = open_job ∷ [];
  domains = known_domain ∷ [];
  tasks = tasks;
  details = details;
  records = [];
}

-- Texts that begin with an 8 stand for 8.8.8.8, the others for 10.0.0.1.
abbrev pub parse : Text → Option Address
parse [] = none
parse (c ∷ t) = some (v4 (if c == b'8' then ip4 8 8 8 8 else ip4 10 0 0 1))

-- A network whose public hosts answer 200, and whose private hosts do what is given.
abbrev pub network : Attempt → Text → Scheme → Attempt
network private_ [] s = private_
network private_ (c ∷ t) s = if c == b'8' then response 200 [] [] else private_

abbrev pub no_title : Text → Option Text
no_title t = none

abbrev pub client : Client
client = record {
  lower = map ascii_lower;
  extract_title = no_title;
  max_response_read_bytes = 1000;
  elapsed_ms = 3;
}

abbrev pub env_of : (RecordType → Text → Lookup) → Env
env_of query = record {
  freshness_seconds = 3600;
  max_attempts = 3;
  clock = λ i. 100000 + i;
  jitter = λ i. 0;
  other = λ i db. db;
  others = λ i table. table;
  fault = λ i. none;
  ip_address = parse;
  query = query;
  client = client;
  lock_acquired = true;
}

-- A name with a private and a public address.
abbrev pub two_addresses : RecordType → Text → Lookup
two_addresses Dns.RecordType.a name = hosts (text "10" ∷ text "8" ∷ [])
two_addresses _ name = hosts []

-- A table of one right row is right.
pub one_row-IsTable : (t : Task) → IsTaskValid 3 t → IsTable 3 (t ∷ [])
one_row-IsTable t h = record {
  unique = λ s r m n e. only m ∙ sym (only n);
  rows = λ s m. rw (only m) h;
}
  where
    only : {s : Task} → Memᴰ s (t ∷ []) → s ≡ t
    only (Memᴰ.head e) = e
    only (Memᴰ.tail m) = elim m [ ]
