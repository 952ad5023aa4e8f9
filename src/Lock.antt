-- ===== src/Lock.antt =====
-- src/domain_processing_service/domain_lock.py: the lock of a domain in Redis. The server and the
-- connection to it are parameters.
pub mod Owners
pub mod Exclusion
pub mod Bracket
use domain_process_e2e.Prelude.{
  ℕ, zero, suc, ◌*◌, Bool, true, false, ◌&&◌, List, ◌++◌, if◌then◌else◌, Option, none, some,
  is_some,
}
use domain_process_e2e.Text.{Text, text, text_eq}

-- What a command gives: its reply, or an exception with its text.
pub data Reply (A : Type 0) : Type 0 where
  reply : A → Reply A
  raised : Text → Reply A

-- `get`, `set_nx_px` and `del` are the commands on the server; `call` sends a command or a script,
-- which the server runs as one step.
pub record Redis : Type 1 where
  pub Server : Type 0
  pub get : Server → Text → Option Text
  pub set_nx_px : Server → Text → Text → ℕ → Server × Bool
  pub del : Server → Text → Server × ℕ
  pub call : (A : Type 0) → (Server → Server × A) → Server → Server × Reply A

abbrev pub lock_ttl_seconds : ℕ
lock_ttl_seconds = 60

unfoldable pub lock_key : Text → Text
lock_key domain = text "lock:domain:" ++ domain

pub record LockContext : Type 0 where
  pub domain : Text
  pub token : Option Text
  pub acquired : Bool
  pub error : Option Text

unfoldable pub is_acquired : LockContext → Bool
is_acquired context = context.acquired && is_some context.token

-- The object's `_client`: whether there is one.
pub data Client : Type 0 where
  connected disconnected : Client

-- connect, and whether it returns: `ping` says that the PING is answered. The client is kept in
-- any case.
unfoldable pub connect : Bool → Client → Client × Bool
connect ping connected = (connected, true)
connect ping disconnected = (connected, ping)

unfoldable pub close : Client → Client
close client = disconnected

-- The context of acquire, by what SET has given.
abbrev pub context_of : Text → Text → Reply Bool → LockContext
context_of domain token (raised e) = record {
  domain = domain;
  token = none;
  acquired = false;
  error = some e;
}
context_of domain token (reply true) = record {
  domain = domain;
  token = some token;
  acquired = true;
  error = none;
}
context_of domain token (reply false) = record {
  domain = domain;
  token = none;
  acquired = false;
  error = none;
}

abbrev pub is_one : ℕ → Bool
is_one zero = false
is_one (suc n) = true

-- `return True` when the script has deleted the key
abbrev pub released : Reply ℕ → Bool
released (reply n) = is_one n
released (raised e) = false

abbrev pub same_token : Option Text → Text → Bool
same_token none token = false
same_token (some holder) token = text_eq holder token

module _ (redis : Redis) where
  abbrev pub State : Type 0
  State = redis.Server

  -- the Lua script
  unfoldable pub lua_script : Text → Text → State → State × ℕ
  lua_script key token s = if same_token (redis.get s key) token then redis.del s key else (s, 0)

  -- acquire up to the yield
  unfoldable pub acquire : Text → Text → State → State × LockContext
  acquire token domain s =
      let (s', r) =
        redis.call Bool (λ s. redis.set_nx_px s (lock_key domain) token (lock_ttl_seconds * 1000))
          s in
      (s', context_of domain token r)

  unfoldable pub release : Client → Text → Text → State → State × Bool
  release disconnected token domain s = (s, false)
  release connected token domain s =
      let (s', r) = redis.call ℕ (lua_script (lock_key domain) token) s in (s', released r)

  -- the `finally` of acquire
  unfoldable pub leave : Client → Text → Text → LockContext → State → State
  unfolding release
  leave client token domain context s =
      if context.acquired then (release client token domain s).0 else s

  -- `async with lock.acquire(domain) as context: body`; `none` is an exception of connect.
  unfoldable pub with_lock {ℓ} :
      {A : Type ℓ}
      → Bool
      → Text
      → Text
      → (LockContext → State → State × A)
      → Client
      → State
      → Client × State × Option A
  unfolding connect acquire leave
  with_lock ping token domain body client s =
      let (client', up) = connect ping client in
      let (s1, context) = acquire token domain s in
      let (s2, result) = body context s1 in
      if up
      then (client', leave client' token domain context s2, some result)
      else (client', s, none)

  -- The body of process_domain: whether the lock was taken, and the result of the processing, if
  -- there was any. `is_fresh` and `process` are the callbacks.
  unfoldable pub double_checked {ℓ} :
      {A : Type ℓ}
      → (State → State × Bool)
      → (State → State × A)
      → LockContext
      → State
      → State × (Bool × Option A)
  unfolding is_acquired
  double_checked is_fresh process context s =
      let (s1, fresh) = is_fresh s in
      let (s2, result) = process s1 in
      if is_acquired context
      then if fresh then (s1, (true, none)) else (s2, (true, some result))
      else (s, (false, none))

  unfoldable pub process_domain {ℓ} :
      {A : Type ℓ}
      → Bool
      → Text
      → Text
      → (State → State × Bool)
      → (State → State × A)
      → Client
      → State
      → Client × State × Option (Bool × Option A)
  unfolding with_lock double_checked
  process_domain ping token domain is_fresh process client s =
      with_lock ping token domain (double_checked is_fresh process) client s
