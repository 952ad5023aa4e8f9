-- ===== src/Lock/Bracket.antt =====
-- with_lock and process_domain leave the lock as they find it.
use domain_process_e2e.Prelude.{
  ℕ, ◌*◌, Bool, true, false, none, is_some, ◌≡◌, ◌≢◌, refl, sym, ◌∙◌, inl, inr, Bool-cases,
  Option-cases,
}
use domain_process_e2e.Text.{Text}
use domain_process_e2e.Lock.{
  Reply, reply, raised, Redis, lock_key, lock_ttl_seconds, LockContext, is_acquired, Client,
  connected, disconnected, context_of, lua_script, acquire, leave, with_lock, connect,
  process_domain, double_checked,
}
use domain_process_e2e.Lock.Owners.{RedisLaws, owners, acquire-Refines}
use domain_process_e2e.Lock.Exclusion.{Step, Steps, Steps-held, acquire-release, refused}

context-is_acquired :
    (d token : Text) (r : Reply Bool)
    → (context_of d token r).acquired ≡ is_acquired (context_of d token r)
unfolding is_acquired
context-is_acquired d token (raised e) = refl
context-is_acquired d token (reply true) = refl
context-is_acquired d token (reply false) = refl

context_error :
    (d token : Text) (r : Reply Bool)
    → is_some (context_of d token r).error ≡ true
    → (e : Text) × (r ≡ raised e)
context_error d token (raised e) h = (e, refl)
context_error d token (reply true) h = absurd (cc)
context_error d token (reply false) h = absurd (cc)

module _ (redis : Redis) (laws : RedisLaws redis) where
  -- No call raises.
  abbrev pub Reliable : Type 1
  Reliable =
      (A : Type 0) (f : redis.Server → redis.Server × A) (s : redis.Server) (e : Text)
      → (redis.call A f s).1 ≢ raised e

  -- acquire takes a lock that is free.
  acquires_free :
      (token d : Text) (s : redis.Server)
      → Reliable
      → owners redis s d ≡ none
      → is_acquired (acquire redis token d s).1 ≡ true
  unfolding acquire
  acquires_free token d s reliable free = elim (acquire-Refines redis laws token d s) [
    | inl (_, answer) ↦ answer ∙ rw free refl
    | inr (error, _, _) ↦
        let (e, failed) = context_error d token _ error in
        absurd (
          reliable Bool (λ s. redis.set_nx_px s (lock_key d) token (lock_ttl_seconds * 1000)) s e
            failed)
  ]

  flag_lem :
      (token d : Text) (s : redis.Server)
      → (acquire redis token d s).1.acquired ≡ is_acquired (acquire redis token d s).1
  unfolding acquire
  flag_lem token d s = context-is_acquired d token _

  leave_restores :
      (token d : Text) (s s' : redis.Server)
      → Reliable
      → owners redis s' d ≡ owners redis (acquire redis token d s).0 d
      → owners redis (leave redis connected token d (acquire redis token d s).1 s') d
        ≡ owners redis s d
  unfolding leave
  leave_restores token d s s' reliable kept =
      let context = (acquire redis token d s).1 in
      let flag : context.acquired ≡ is_acquired context = flag_lem token d s in
      elim (Option-cases (owners redis s d)) [
        | inl free ↦
            let got = acquires_free token d s reliable free in
            let (_, freed) =
              acquire-release redis laws token d s s' got (Steps.then Steps.done (Step.passes kept))
                (reliable ℕ (lua_script redis (lock_key d) token) s') in
            rw (flag, got) (freed ∙ sym free)
        | inr (w, held) ↦
            let not_got = refused redis laws token d w s held in
            let still =
              Steps-held redis laws w d (Steps.then Steps.done (Step.acquires token d)) held in
            rw (flag, not_got) (kept ∙ still ∙ sym held)
      ]

  -- When no call raises and the body leaves the lock of the domain alone, it is after `async with
  -- lock.acquire(domain)` with whom it was before, whether it could be taken or not.
  pub with_lock_restores {ℓ} :
      {A : Type ℓ} (ping : Bool) (token d : Text)
      (body : LockContext → redis.Server → redis.Server × A) (client : Client) (s : redis.Server)
      → Reliable
      → ((context : LockContext) (s : redis.Server)
          → owners redis (body context s).0 d ≡ owners redis s d)
      → owners redis (with_lock redis ping token d body client s).1 d ≡ owners redis s d
  unfolding with_lock connect
  with_lock_restores ping token d body connected s reliable keeps =
      leave_restores token d s _ reliable (keeps _ _)
  with_lock_restores true token d body disconnected s reliable keeps =
      leave_restores token d s _ reliable (keeps _ _)
  with_lock_restores false token d body disconnected s reliable keeps = refl

  double_checked_keeps {ℓ} :
      {A : Type ℓ} (d : Text) (is_fresh : redis.Server → redis.Server × Bool)
      (process : redis.Server → redis.Server × A)
      → ((s : redis.Server) → owners redis (is_fresh s).0 d ≡ owners redis s d)
      → ((s : redis.Server) → owners redis (process s).0 d ≡ owners redis s d)
      → (context : LockContext) (s : redis.Server)
      → owners redis (double_checked redis is_fresh process context s).0 d ≡ owners redis s d
  unfolding double_checked
  double_checked_keeps d is_fresh process fresh_keeps process_keeps context s =
      elim (Bool-cases (is_acquired context)) [
        | inl e ↦ elim (Bool-cases (is_fresh s).1) [
          | inl f ↦ rw (e, f) (fresh_keeps s)
          | inr f ↦ rw (e, f) (process_keeps (is_fresh s).0 ∙ fresh_keeps s)
        ]
        | inr e ↦ rw e refl
      ]

  -- When no call raises and the callbacks leave the lock of the domain alone, it is after
  -- process_domain with whom it was before: free again when it was free, and with another worker
  -- when that one had it.
  pub process_domain_restores {ℓ} :
      {A : Type ℓ} (ping : Bool) (token d : Text) (is_fresh : redis.Server → redis.Server × Bool)
      (process : redis.Server → redis.Server × A) (client : Client) (s : redis.Server)
      → Reliable
      → ((s : redis.Server) → owners redis (is_fresh s).0 d ≡ owners redis s d)
      → ((s : redis.Server) → owners redis (process s).0 d ≡ owners redis s d)
      → owners redis (process_domain redis ping token d is_fresh process client s).1 d
        ≡ owners redis s d
  unfolding process_domain
  process_domain_restores ping token d is_fresh process client s reliable fresh_keeps
        process_keeps =
      with_lock_restores ping token d (double_checked redis is_fresh process) client s reliable
        (double_checked_keeps d is_fresh process fresh_keeps process_keeps)
