-- ===== src/Pipeline/Ssrf.antt =====
-- No request goes to an address that the validator rejects.
use domain_process_e2e.Prelude.{
  Bool, true, false, not, List, [], ◌∷◌, if◌then◌else◌, Option, none, some, ◌≡◌, ◌⊎◌, refl, sym, ap,
  ◌∙◌, subst, Bool-cases, inl, inr,
}
use mathlib.Core.Path.{fun_ext}
use mathlib.Core.Option.{some-injective}
use domain_process_e2e.Text.{Text}
use domain_process_e2e.Model.{Task, Domain, Db}
use domain_process_e2e.Dns.{DnsResult, all_ips}
use domain_process_e2e.Dns
use domain_process_e2e.Http.{Scheme, Attempt}
use domain_process_e2e.Ip.{Address, IpValidationResult, validate}
use domain_process_e2e.Processor.{first_allowed, or_blocked, validate_ips}
use domain_process_e2e.Pipeline.{
  Env, ProcessingResult, Action, probe_and_write, check_ips, after_dns, observe, after_double_check,
  under_lock, after_read, process_body, process_task, resolve_dns, session, ok, bind, ◌>>=◌,
  fresh_in, handle_exception, contended,
}
use domain_process_e2e.Domains
use domain_process_e2e.Ip.Public.{validate-ip}

pick :
    (b : Bool) (x r : IpValidationResult) (rest : Option IpValidationResult)
    → x.is_allowed ≡ b
    → (if b then some x else rest) ≡ some r
    → ((r ≡ x) × (r.is_allowed ≡ true)) ⊎ (rest ≡ some r)
pick true x r rest e h =
    let q : r ≡ x = sym (some-injective x r h) in
    inl (q, ap (λ (r : IpValidationResult). r.is_allowed) q ∙ e)
pick false x r rest e h = inr h

-- The address in an accepted result is one that the validator accepts.
abbrev Accepted : (Text → Option Address) → IpValidationResult → Type 0
Accepted ip_address r = (validate ip_address r.ip).is_allowed ≡ true

first_allowed-Accepted :
    (ip_address : Text → Option Address) (ips : List Text) (r : IpValidationResult)
    → first_allowed ip_address ips ≡ some r
    → Accepted ip_address r
unfolding first_allowed
first_allowed-Accepted ip_address [] r h = absurd (cc)
first_allowed-Accepted ip_address (x ∷ ips) r h =
    elim (pick (validate ip_address x).is_allowed (validate ip_address x) r
      (first_allowed ip_address ips) refl h) [
        | inl (q, good) ↦
            subst (λ ip. (validate ip_address ip).is_allowed ≡ true)
              (sym (ap (λ (r : IpValidationResult). r.ip) q ∙ validate-ip ip_address x))
              (sym (ap (λ (r : IpValidationResult). r.is_allowed) q) ∙ good)
        | inr k ↦ first_allowed-Accepted ip_address ips r k
      ]

or_blocked-Accepted :
    (ip_address : Text → Option Address) (ip : Text) (o : Option IpValidationResult)
    → ((r : IpValidationResult) → o ≡ some r → Accepted ip_address r)
    → (or_blocked ip o).is_allowed ≡ true
    → Accepted ip_address (or_blocked ip o)
or_blocked-Accepted ip_address ip none h good = absurd (cc)
or_blocked-Accepted ip_address ip (some r) h good = h r refl

pub validate_ips-Accepted :
    (ip_address : Text → Option Address) (ips : List Text)
    → (validate_ips ip_address ips).is_allowed ≡ true
    → Accepted ip_address (validate_ips ip_address ips)
unfolding validate_ips
validate_ips-Accepted ip_address [] good = absurd (cc)
validate_ips-Accepted ip_address (ip ∷ ips) good =
    or_blocked-Accepted ip_address ip (first_allowed ip_address (ip ∷ ips))
      (first_allowed-Accepted ip_address (ip ∷ ips)) good

-- Two networks that answer alike at every address that the validator accepts.
module _ (env : Env) (request request' : Text → Scheme → Attempt)
    (alike : (ip : Text)
      → (validate env.ip_address ip).is_allowed ≡ true
      → request ip ≡ request' ip) where
  check_ips_alike :
      (task : Task) (dns : DnsResult) (v : IpValidationResult)
      → (v.is_allowed ≡ true → Accepted env.ip_address v)
      → check_ips env request task dns v ≡ check_ips env request' task dns v
  unfolding check_ips
  check_ips_alike task dns v h = elim (Bool-cases v.is_allowed) [
    | inl e ↦ rw e (ap (λ a. probe_and_write env a task dns) (alike v.ip (h e)))
    | inr e ↦ rw e
  ]

  after_dns_alike :
      (task : Task) (dns : DnsResult)
      → after_dns env request task dns ≡ after_dns env request' task dns
  unfolding after_dns
  after_dns_alike task dns = elim (Bool-cases (Dns.is_success dns)) [
    | inl e ↦ rw e (
        check_ips_alike task dns (validate_ips env.ip_address (all_ips dns))
          (validate_ips-Accepted env.ip_address (all_ips dns)))
    | inr e ↦ rw e
  ]

  observe_alike :
      (task : Task) (name : Text) → observe env request task name ≡ observe env request' task name
  unfolding observe
  observe_alike task name = ap (λ k. resolve_dns env name >>= k) (fun_ext (after_dns_alike task))

  after_double_check_alike :
      (task : Task) (name : Text) (fresh : Bool)
      → after_double_check env request task name fresh
        ≡ after_double_check env request' task name fresh
  unfolding after_double_check
  after_double_check_alike task name true = refl
  after_double_check_alike task name false = observe_alike task name

  under_lock_alike :
      (task : Task) (name : Text)
      → under_lock env request task name ≡ under_lock env request' task name
  unfolding under_lock
  under_lock_alike task name =
      ap
        (λ (k : Bool → Action ProcessingResult).
          if not env.lock_acquired
          then contended env task
          else session env 1 (λ db. (ok (fresh_in env 1 task db), db)) >>= k)
        (fun_ext (after_double_check_alike task name))

  after_read_alike :
      (task : Task) (found : Option Domain × Bool)
      → after_read env request task found ≡ after_read env request' task found
  unfolding after_read
  after_read_alike task (none, fresh) = refl
  after_read_alike task (some domain, true) = refl
  after_read_alike task (some domain, false) = under_lock_alike task domain.normalized_domain

  -- The run of a task, its result and what it writes, is the same whatever the network would answer
  -- at the addresses that the validator rejects.
  pub process_task_alike :
      (task : Task) (db : Db) → process_task env request task db ≡ process_task env request' task db
  unfolding process_task process_body
  process_task_alike task db =
      ap
        (λ (k : Option Domain × Bool → Action ProcessingResult). handle_exception env task (
          bind k (
            session env 0
              (λ db. (ok (Domains.get db.domains task.domain_id, fresh_in env 0 task db), db)) db)))
        (fun_ext (after_read_alike task))
