-- ===== src/Lock/Exclusion.antt =====
-- One holder at a time, whatever the other workers do, until the lock expires.
use domain_process_e2e.Prelude.{
  ℕ, Bool, true, false, not, none, some, is_some, ◌≡◌, ◌≢◌, refl, sym, ap, ◌∙◌, inl, inr, subst,
  Bool-cases,
}
use domain_process_e2e.Text.{Text, text_eq, text_eq_refl, text_eq→eq}
use domain_process_e2e.Lock.{
  raised, Redis, lock_key, is_acquired, Client, connected, disconnected, lua_script, acquire,
  release,
}
use domain_process_e2e.Lock.Owners.{
  RedisLaws, Owners, owners, take_lock, give_back, Refines, acquire-Refines, release-Refines,
}

-- What others do while the lock of a domain is held with a token: they try to take locks, they
-- release with tokens of theirs, and time passes, which may end other locks.
pub data Step (redis : Redis) (token domain : Text) : redis.Server → redis.Server → Type 0 where
  acquires : {s : redis.Server} (t e : Text) → Step redis token domain s (acquire redis t e s).0
  releases :
      {s : redis.Server} (client : Client) (t e : Text)
      → t ≢ token
      → Step redis token domain s (release redis client t e s).0
  passes :
      {s s' : redis.Server}
      → owners redis s' domain ≡ owners redis s domain
      → Step redis token domain s s'

pub data Steps (redis : Redis) (token domain : Text) : redis.Server → redis.Server → Type 0 where
  done : {s : redis.Server} → Steps redis token domain s s
  then :
      {s s1 s2 : redis.Server}
      → Steps redis token domain s s1
      → Step redis token domain s1 s2
      → Steps redis token domain s s2

module _ (redis : Redis) (laws : RedisLaws redis) where
  take-held : (t e d w : Text) (o : Owners) → o d ≡ some w → take_lock t e o d ≡ some w
  take-held t e d w o held = elim (Bool-cases (text_eq d e)) [
    | inl h ↦
        let here : o e ≡ some w = subst (λ x. o x ≡ some w) (text_eq→eq d e h) held in
        rw (h, here) held
    | inr h ↦ rw h held
  ]

  give-held : (t e d w : Text) (o : Owners) → o d ≡ some w → t ≢ w → give_back t e o d ≡ some w
  give-held t e d w o held other = elim (Bool-cases (text_eq d e)) [
    | inl h ↦
        let here : o e ≡ some w = subst (λ x. o x ≡ some w) (text_eq→eq d e h) held in
        rw (h, here)
          (elim (Bool-cases (text_eq w t)) [
            | inl same ↦ absurd (other (sym (text_eq→eq w t same)))
            | inr differs ↦ rw differs held
          ])
    | inr h ↦ rw h held
  ]

  either-held :
      (before result : Owners) (s : redis.Server) (Raised : Type 0) (answer expected : Bool)
      (d w : Text)
      → Refines redis Raised before result s answer expected
      → before d ≡ some w
      → result d ≡ some w
      → owners redis s d ≡ some w
  either-held before result s Raised answer expected d w r old new = elim r [
    | inl (after, _) ↦ ap (λ o. o d) after ∙ new
    | inr (_, _, state) ↦ elim state [
      | inl after ↦ ap (λ o. o d) after ∙ new
      | inr after ↦ ap (λ o. o d) after ∙ old
    ]
  ]

  -- A release with another token, whether the lock has expired for it or not, leaves the holder.
  pub release_other :
      (client : Client) (t e d w : Text) (s : redis.Server)
      → owners redis s d ≡ some w
      → t ≢ w
      → owners redis (release redis client t e s).0 d ≡ some w
  unfolding release
  release_other disconnected t e d w s held other = held
  release_other connected t e d w s held other =
      either-held (owners redis s) (give_back t e (owners redis s)) _ _ _ _ d w
        (release-Refines redis laws t e s) held (give-held t e d w (owners redis s) held other)

  Step-held :
      (token d : Text) {s s' : redis.Server}
      → Step redis token d s s'
      → owners redis s d ≡ some token
      → owners redis s' d ≡ some token
  Step-held token d (Step.acquires {s} t e) held =
      either-held (owners redis s) (take_lock t e (owners redis s)) _ _ _ _ d token
        (acquire-Refines redis laws t e s) held (take-held t e d token (owners redis s) held)
  Step-held token d (Step.releases {s} client t e other) held =
      release_other client t e d token s held other
  Step-held token d (Step.passes same) held = same ∙ held

  -- The invariant: the holder stays, whatever the others do.
  pub Steps-held :
      (token d : Text) {s s' : redis.Server}
      → Steps redis token d s s'
      → owners redis s d ≡ some token
      → owners redis s' d ≡ some token
  Steps-held token d Steps.done held = held
  Steps-held token d (Steps.then run step) held =
      Step-held token d step (Steps-held token d run held)

  pub taken :
      (token d : Text) (s : redis.Server)
      → is_acquired (acquire redis token d s).1 ≡ true
      → owners redis (acquire redis token d s).0 d ≡ some token
  taken token d s h = elim (acquire-Refines redis laws token d s) [
    | inl (after, answer) ↦
        let free : not (is_some (owners redis s d)) ≡ true = sym answer ∙ h in
        ap (λ o. o d) after ∙ rw (text_eq_refl d, free) refl
    | inr (_, denied, _) ↦ absurd (cc (denied, h))
  ]

  pub refused :
      (t d w : Text) (s : redis.Server)
      → owners redis s d ≡ some w
      → is_acquired (acquire redis t d s).1 ≡ false
  refused t d w s held = elim (acquire-Refines redis laws t d s) [
    | inl (_, answer) ↦ answer ∙ rw held refl
    | inr (_, denied, _) ↦ denied
  ]

  -- A connected client's release with the token that holds the lock, when the call does not raise,
  -- says so and frees the domain.
  pub acquire-release :
      (token d : Text) (s s' : redis.Server)
      → is_acquired (acquire redis token d s).1 ≡ true
      → Steps redis token d (acquire redis token d s).0 s'
      → ((e : Text) → (redis.call ℕ (lua_script redis (lock_key d) token) s').1 ≢ raised e)
      → ((release redis connected token d s').1 ≡ true)
        × (owners redis (release redis connected token d s').0 d ≡ none)
  acquire-release token d s s' got run answered =
      let held = Steps-held token d run (taken token d s got) in
      elim (release-Refines redis laws token d s') [
        | inl (after, answer) ↦ (
          answer ∙ rw (held, text_eq_refl token) refl,
          ap (λ o. o d) after ∙ rw (text_eq_refl d, held, text_eq_refl token) refl,
        )
        | inr ((e, failed), _, _) ↦ absurd (answered e failed)
      ]

  -- After acquire has given the lock of a domain, and whatever the others do while it has not
  -- expired, no other acquire of that domain gets it.
  pub acquire_excludes :
      (token t d : Text) (s s' : redis.Server)
      → is_acquired (acquire redis token d s).1 ≡ true
      → Steps redis token d (acquire redis token d s).0 s'
      → is_acquired (acquire redis t d s').1 ≡ false
  acquire_excludes token t d s s' got run =
      refused t d token s' (Steps-held token d run (taken token d s got))
