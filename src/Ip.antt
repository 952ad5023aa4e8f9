-- ===== src/Ip.antt =====
-- src/domain_processing_service/ip_validator.py. An address is its version and its number;
-- `ip_address`, the parser of Python's ipaddress module, is a parameter.
pub mod Public
use domain_process_e2e.Prelude.{
  ℕ, zero, suc, ◌+◌, ◌-◌, ◌*◌, ◌/◌, ◌%◌, ◌^◌, Bool, true, false, List, [], ◌∷◌, ◌==◌, Option, none,
  some, find, if◌then◌else◌, map,
}
use domain_process_e2e.Text.{Text}

pub data Address : Type 0 where
  v4 v6 : ℕ → Address

-- The network address and the length of the prefix.
pub data Network : Type 0 where
  net4 net6 : ℕ → ℕ → Network

abbrev pub ip4 : ℕ → ℕ → ℕ → ℕ → ℕ
ip4 a b c d = ((a * 256 + b) * 256 + c) * 256 + d

-- x & netmask, of an address with k bits behind the prefix
abbrev pub masked : ℕ → ℕ → ℕ
masked x k = x / 2 ^ k * 2 ^ k

-- ip in network
unfoldable pub is_in : Address → Network → Bool
is_in (v4 x) (net4 base prefix) = masked x (32 - prefix) == base
is_in (v6 x) (net6 base prefix) = masked x (128 - prefix) == base
is_in _ _ = false

-- BLOCKED_NETWORKS, the IPv4 and the IPv6 entries in the source's order
abbrev pub blocked_networks : List Network
blocked_networks =
    net4 (ip4 127 0 0 0) 8
    ∷ net6 1 128
    ∷ net4 (ip4 10 0 0 0) 8
    ∷ net4 (ip4 172 16 0 0) 12
    ∷ net4 (ip4 192 168 0 0) 16
    ∷ net4 (ip4 169 254 0 0) 16
    ∷ net6 (0xfe80 * 2 ^ 112) 10
    ∷ net6 (0xfc00 * 2 ^ 112) 7
    ∷ net4 (ip4 224 0 0 0) 4
    ∷ net6 (0xff00 * 2 ^ 112) 8
    ∷ net4 (ip4 0 0 0 0) 32
    ∷ net6 0 128
    ∷ net4 (ip4 240 0 0 0) 4
    ∷ net4 (ip4 198 18 0 0) 15
    ∷ net4 (ip4 198 19 0 0) 16
    ∷ net4 (ip4 100 64 0 0) 10
    ∷ net4 (ip4 192 0 2 0) 24
    ∷ net4 (ip4 198 51 100 0) 24
    ∷ net4 (ip4 203 0 113 0) 24
    ∷ net6 (0x20010db8 * 2 ^ 96) 32
    ∷ []

-- ip.ipv4_mapped
unfoldable pub ipv4_mapped : Address → Option ℕ
ipv4_mapped (v4 x) = none
ipv4_mapped (v6 x) = if x / 2 ^ 32 == 0xffff then some (x % 2 ^ 32) else none

pub data Reason : Type 0 where
  invalid_format : Reason
  restricted mapped_restricted : Network → Reason
  no_addresses all_blocked : Reason

pub record IpValidationResult : Type 0 where
  pub is_allowed : Bool
  pub ip : Text
  pub reason : Option Reason

abbrev pub rejected : Text → Reason → IpValidationResult
rejected ip reason = record { is_allowed = false; ip = ip; reason = some reason }

abbrev pub allowed : Text → IpValidationResult
allowed ip = record { is_allowed = true; ip = ip; reason = none }

-- a loop over the networks, and what is returned if none matches
unfoldable pub verdict :
    Text → (Network → Reason) → IpValidationResult → Option Network → IpValidationResult
verdict ip_str why next none = next
verdict ip_str why next (some network) = rejected ip_str (why network)

-- The IPv4-mapped check. `is_in` is false of an IPv4 address and an IPv6 network, as the code's
-- test of the version is.
unfoldable pub check_mapped : Text → Option ℕ → IpValidationResult
unfolding is_in verdict
check_mapped ip_str none = allowed ip_str
check_mapped ip_str (some mapped) =
    verdict ip_str mapped_restricted (allowed ip_str) (find (is_in (v4 mapped)) blocked_networks)

unfoldable pub check_address : Text → Address → IpValidationResult
unfolding is_in verdict check_mapped ipv4_mapped
check_address ip_str ip =
    verdict ip_str restricted (check_mapped ip_str (ipv4_mapped ip))
      (find (is_in ip) blocked_networks)

unfoldable pub validate : (Text → Option Address) → Text → IpValidationResult
unfolding check_address
validate ip_address ip_str = elim (ip_address ip_str) [
  | none ↦ rejected ip_str invalid_format
  | some ip ↦ check_address ip_str ip
]

unfoldable pub validate_all : (Text → Option Address) → List Text → List IpValidationResult
validate_all ip_address ips = map (validate ip_address) ips

unfoldable pub get_first_allowed : (Text → Option Address) → List Text → Option Text
get_first_allowed ip_address [] = none
get_first_allowed ip_address (ip ∷ ips) =
    let rest = get_first_allowed ip_address ips in
    if (validate ip_address ip).is_allowed then some ip else rest
