-- ===== src/Examples/Locks.antt =====
-- The lock of a domain, on a server that keeps its keys in a function.
use domain_process_e2e.Prelude.{
  ℕ, Bool, true, false, not, if◌then◌else◌, Option, none, some, is_some, ◌≡◌, ◌≢◌, refl, inl, inr,
  Bool-cases,
}
use domain_process_e2e.Text.{Text, text, text_eq, text_eq_refl, text_eq→eq}
use domain_process_e2e.Lock.{
  Redis, Reply, reply, raised, connected, disconnected, same_token, lock_key, is_acquired,
  lua_script, acquire, release, process_domain,
}
use domain_process_e2e.Lock.Owners.{
  RedisLaws, Refines, owners, take_lock, give_back, acquire-Refines, release-Refines,
}
use domain_process_e2e.Lock.Exclusion.{Step, Steps, acquire_excludes}
use domain_process_e2e.Lock.Bracket.{process_domain_restores}

abbrev Keys : Type 0
Keys = Text → Option Text

abbrev put_key : Keys → Text → Option Text → Keys
put_key s k v = λ l. if text_eq l k then v else s l

abbrev set_free_key : Keys → Text → Text → Option Text → Keys × Bool
set_free_key s k v none = (put_key s k (some v), true)
set_free_key s k v (some w) = (s, false)

abbrev count : Option Text → ℕ
count none = 0
count (some w) = 1

abbrev answered : {A : Type 0} → Keys × A → Keys × Reply A
answered (s, a) = (s, reply a)

abbrev server : Redis
server = record {
  Server = Keys;
  get = λ s k. s k;
  set_nx_px = λ s k v px. set_free_key s k v (s k);
  del = λ s k. (put_key s k none, count (s k));
  call = λ A f s. answered (f s);
}

other_stays : (s : Keys) (k l : Text) (v : Option Text) → l ≢ k → put_key s k v l ≡ s l
other_stays s k l v differs = elim (Bool-cases (text_eq l k)) [
  | inl e ↦ absurd (differs (text_eq→eq l k e))
  | inr e ↦ rw e refl
]

set_other_stays :
    (s : Keys) (k l v : Text) (o : Option Text) → l ≢ k → (set_free_key s k v o).0 l ≡ s l
set_other_stays s k l v none differs = other_stays s k l (some v) differs
set_other_stays s k l v (some w) differs = refl

server-RedisLaws : RedisLaws server
server-RedisLaws = record {
  set_free = λ s k v px free. rw (free, text_eq_refl k) (refl, refl);
  set_held = λ s k v w px held. rw held refl;
  set_other = λ s k l v px differs. set_other_stays s k l v (s k) differs;
  del_found = λ s k w held. rw (held, text_eq_refl k) (refl, refl);
  del_other = λ s k l differs. other_stays s k l none differs;
  call_once = λ A f s. inl (refl, refl);
}

abbrev empty : Keys
empty k = none

abbrev mine : Text
mine = text "1"

abbrev other : Text
other = text "2"

abbrev name : Text
name = text "example.com"

abbrev held : Keys
held = (acquire server mine name empty).0

acquire-Refines_example :
    Refines server
      (is_some (acquire server other name held).1.error ≡ true)
      (owners server held)
      (take_lock other name (owners server held))
      (acquire server other name held).0
      (is_acquired (acquire server other name held).1)
      (not (is_some (owners server held name)))
acquire-Refines_example = acquire-Refines server server-RedisLaws other name held

release-Refines_example :
    Refines server
      ((e : Text) × ((server.call ℕ (lua_script server (lock_key name) mine) held).1 ≡ raised e))
      (owners server held)
      (give_back mine name (owners server held))
      (release server connected mine name held).0
      (release server connected mine name held).1
      (same_token (owners server held name) mine)
release-Refines_example = release-Refines server server-RedisLaws mine name held

got : is_acquired (acquire server mine name empty).1 ≡ true
unfolding acquire is_acquired
got = refl

-- Another worker tries in between.
tried : Steps server mine name held (acquire server other name held).0
tried = Steps.then Steps.done (Step.acquires other name)

acquire_excludes_example :
    is_acquired (acquire server other name (acquire server other name held).0).1 ≡ false
acquire_excludes_example =
    acquire_excludes server server-RedisLaws mine other name empty
      (acquire server other name held).0 got tried

never_raises :
    (e : Text) → (server.call ℕ (lua_script server (lock_key name) mine) held).1 ≢ raised e
never_raises e h = cc

abbrev fetch : Keys → Keys × ℕ
fetch s = (s, 5)

process_domain_restores_example :
    owners server
      (process_domain server true mine name (λ s. (s, false)) fetch disconnected empty).1
      name
    ≡ none
process_domain_restores_example =
    process_domain_restores server server-RedisLaws true mine name (λ s. (s, false)) fetch
      disconnected empty (λ A f s e h. cc) (λ s. refl) (λ s. refl)
