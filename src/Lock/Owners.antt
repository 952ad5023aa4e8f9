-- ===== src/Lock/Owners.antt =====
-- The lock refines a table of owners, by the documented behaviour of the commands.
use domain_process_e2e.Prelude.{
  ℕ, ◌*◌, Bool, true, false, not, ◌&&◌, [], ◌∷◌, ◌++◌, if◌then◌else◌, Option, none, some, is_some,
  ◌≡◌, ◌≢◌, refl, ap, ◌∙◌, ◌⊎◌, inl, inr, subst, Bool-cases, Option-cases,
}
use domain_process_e2e.Text.{Text, text, text_eq, text_eq_refl, text_eq→eq}
use domain_process_e2e.Lock.{
  Reply, reply, raised, Redis, lock_ttl_seconds, lock_key, is_acquired, connected, context_of,
  is_one, released, same_token, lua_script, acquire, release,
}

-- SET NX stores a free key and leaves one that is held, DEL removes a key and counts it, the other
-- keys stay; a call that raises has run as a whole or not at all.
pub record RedisLaws (redis : Redis) : Type 1 where
  pub set_free :
      (s : redis.Server) (k v : Text) (px : ℕ)
      → redis.get s k ≡ none
      → ((redis.set_nx_px s k v px).1 ≡ true) × (redis.get (redis.set_nx_px s k v px).0 k ≡ some v)
  pub set_held :
      (s : redis.Server) (k v w : Text) (px : ℕ)
      → redis.get s k ≡ some w
      → redis.set_nx_px s k v px ≡ (s, false)
  pub set_other :
      (s : redis.Server) (k l v : Text) (px : ℕ)
      → l ≢ k
      → redis.get (redis.set_nx_px s k v px).0 l ≡ redis.get s l
  pub del_found :
      (s : redis.Server) (k w : Text)
      → redis.get s k ≡ some w
      → ((redis.del s k).1 ≡ 1) × (redis.get (redis.del s k).0 k ≡ none)
  pub del_other :
      (s : redis.Server) (k l : Text) → l ≢ k → redis.get (redis.del s k).0 l ≡ redis.get s l
  pub call_once :
      (A : Type 0) (f : redis.Server → redis.Server × A) (s : redis.Server)
      → (((redis.call A f s).0 ≡ (f s).0) × ((redis.call A f s).1 ≡ reply (f s).1))
        ⊎ (((e : Text) × ((redis.call A f s).1 ≡ raised e))
            × (((redis.call A f s).0 ≡ (f s).0) ⊎ ((redis.call A f s).0 ≡ s)))

-- Who holds the lock of each domain.
abbrev pub Owners : Type 0
Owners = Text → Option Text

-- The lock is taken when it is free,
abbrev pub take_lock : Text → Text → Owners → Owners
take_lock token domain owners e =
    if text_eq e domain && not (is_some (owners domain)) then some token else owners e

-- and given back by the one who holds it.
abbrev pub give_back : Text → Text → Owners → Owners
give_back token domain owners e =
    if text_eq e domain && same_token (owners domain) token then none else owners e

rest_of : Text → Text
rest_of [] = []
rest_of (x ∷ xs) = xs

same_token-some : (o : Option Text) (t : Text) → same_token o t ≡ true → (w : Text) × (o ≡ some w)
same_token-some none t h = absurd (cc)
same_token-some (some w) t h = (w, refl)

++_cancel : (xs ys zs : Text) → xs ++ ys ≡ xs ++ zs → ys ≡ zs
unfolding rest_of
++_cancel [] ys zs h = h
++_cancel (x ∷ xs) ys zs h = ++_cancel xs ys zs (ap rest_of h)

lock_key_injective : (d e : Text) → lock_key d ≡ lock_key e → d ≡ e
unfolding lock_key
lock_key_injective d e h = ++_cancel (text "lock:domain:") d e h

other_key : (d e : Text) → text_eq e d ≡ false → lock_key e ≢ lock_key d
other_key d e h same =
    let hit : text_eq e d ≡ true = rw (lock_key_injective e d same) (text_eq_refl d) in cc (h, hit)

module _ (redis : Redis) where
  abbrev pub owners : redis.Server → Owners
  owners s domain = redis.get s (lock_key domain)

  -- The operation has run, with the answer of the table; or its call has raised, and it has run or
  -- changed nothing.
  abbrev pub Refines : Type 0 → Owners → Owners → redis.Server → Bool → Bool → Type 0
  Refines Raised before result s answer expected =
      ((owners s ≡ result) × (answer ≡ expected))
      ⊎ (Raised × (answer ≡ false) × ((owners s ≡ result) ⊎ (owners s ≡ before)))

module _ (redis : Redis) (laws : RedisLaws redis) where
  set-take :
      (s : redis.Server) (token d : Text) (px : ℕ)
      → ((e : Text)
          → owners redis (redis.set_nx_px s (lock_key d) token px).0 e
            ≡ take_lock token d (owners redis s) e)
        × ((redis.set_nx_px s (lock_key d) token px).1 ≡ not (is_some (owners redis s d)))
  set-take s token d px = elim (Option-cases (owners redis s d)) [
    | inl free ↦
        let (done, mine) = laws.set_free s (lock_key d) token px free in
        (
          (λ e. elim (Bool-cases (text_eq e d)) [
            | inl h ↦ rw (text_eq→eq e d h, text_eq_refl d, free) mine
            | inr h ↦ rw h (laws.set_other s (lock_key d) (lock_key e) token px (other_key d e h))
          ]),
          rw free done,
        )
    | inr (w, held) ↦
        let same = laws.set_held s (lock_key d) token w px held in
        (
          (λ e. elim (Bool-cases (text_eq e d)) [
            | inl h ↦ rw (same, h, held) refl
            | inr h ↦ rw (same, h) refl
          ]),
          rw (same, held) refl,
        )
  ]

  script-give :
      (s : redis.Server) (token d : Text)
      → ((e : Text)
          → owners redis (lua_script redis (lock_key d) token s).0 e
            ≡ give_back token d (owners redis s) e)
        × (is_one (lua_script redis (lock_key d) token s).1 ≡ same_token (owners redis s d) token)
  unfolding lua_script
  script-give s token d = elim (Bool-cases (same_token (owners redis s d) token)) [
    | inl mine ↦
        let (w, held) = same_token-some (owners redis s d) token mine in
        let (one, gone) = laws.del_found s (lock_key d) w held in
        (
          (λ e. elim (Bool-cases (text_eq e d)) [
            | inl h ↦ rw (mine, text_eq→eq e d h, text_eq_refl d) gone
            | inr h ↦ rw (mine, h) (laws.del_other s (lock_key d) (lock_key e) (other_key d e h))
          ]),
          rw (mine, one) refl,
        )
    | inr not_mine ↦ (
      (λ e. elim (Bool-cases (text_eq e d)) [
        | inl h ↦ rw (not_mine, h) refl
        | inr h ↦ rw (not_mine, h) refl
      ]),
      rw not_mine refl,
    )
  ]

  call-Refines :
      (A : Type 0) (f : redis.Server → redis.Server × A) (s : redis.Server) (says : Reply A → Bool)
      (result : Owners) (Raised : Type 0)
      → owners redis (f s).0 ≡ result
      → ((e : Text) → says (raised e) ≡ false)
      → (((e : Text) × ((redis.call A f s).1 ≡ raised e)) → Raised)
      → Refines redis Raised
          (owners redis s)
          result
          (redis.call A f s).0
          (says (redis.call A f s).1)
          (says (reply (f s).1))
  call-Refines A f s says result Raised whole denies has = elim (laws.call_once A f s) [
    | inl (ran, answer) ↦ inl (ap (owners redis) ran ∙ whole, ap says answer)
    | inr ((e, failed), state) ↦ inr (
      has (e, failed),
      ap says failed ∙ denies e,
      elim state [
        | inl ran ↦ inl (ap (owners redis) ran ∙ whole)
        | inr kept ↦ inr (ap (owners redis) kept)
      ],
    )
  ]

  reply-is_acquired :
      (token domain : Text) (b : Bool) → is_acquired (context_of domain token (reply b)) ≡ b
  unfolding is_acquired
  reply-is_acquired token domain true = refl
  reply-is_acquired token domain false = refl

  -- acquire takes the lock in the table of owners exactly when it is free, and says so; when the
  -- command raises, it says no, and gives the error.
  pub acquire-Refines :
      (token domain : Text) (s : redis.Server)
      → Refines redis
          (is_some (acquire redis token domain s).1.error ≡ true)
          (owners redis s)
          (take_lock token domain (owners redis s))
          (acquire redis token domain s).0
          (is_acquired (acquire redis token domain s).1)
          (not (is_some (owners redis s domain)))
  unfolding acquire is_acquired
  acquire-Refines token domain s =
      let (whole, answer) = set-take s token domain (lock_ttl_seconds * 1000) in
      let says : Reply Bool → Bool = λ r. is_acquired (context_of domain token r) in
      let set : redis.Server → redis.Server × Bool =
        λ s. redis.set_nx_px s (lock_key domain) token (lock_ttl_seconds * 1000) in
      subst
        (Refines redis (is_some (acquire redis token domain s).1.error ≡ true) (owners redis s)
          (take_lock token domain (owners redis s)) (acquire redis token domain s).0
          (is_acquired (acquire redis token domain s).1))
        (reply-is_acquired token domain (set s).1 ∙ answer)
        (call-Refines Bool set s says _ _ (λ i e. whole e i) (λ e. refl)
          (λ r. let (e, failed) = r in rw failed refl))

  -- release by a connected client gives the lock back in the table of owners exactly when the
  -- token holds it, and says so; when the call raises, it says no.
  pub release-Refines :
      (token domain : Text) (s : redis.Server)
      → Refines redis
          ((e : Text) × ((redis.call ℕ (lua_script redis (lock_key domain) token) s).1 ≡ raised e))
          (owners redis s)
          (give_back token domain (owners redis s))
          (release redis connected token domain s).0
          (release redis connected token domain s).1
          (same_token (owners redis s domain) token)
  unfolding release
  release-Refines token domain s =
      let (whole, answer) = script-give s token domain in
      subst
        (Refines redis
          ((e : Text) × ((redis.call ℕ (lua_script redis (lock_key domain) token) s).1 ≡ raised e))
          (owners redis s) (give_back token domain (owners redis s))
          (release redis connected token domain s).0 (release redis connected token domain s).1)
        answer
        (call-Refines ℕ (lua_script redis (lock_key domain) token) s released _ _ (λ i e. whole e i)
          (λ e. refl) (λ r. r))
