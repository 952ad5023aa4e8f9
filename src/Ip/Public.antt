-- ===== src/Ip/Public.antt =====
-- The validator lets an address through exactly if it is public, by the numbers of the ranges.
use domain_process_e2e.Prelude.{
  ℕ, ◌*◌, ◌/◌, ◌%◌, ◌^◌, ◌≤◌, ◌<◌, true, List, [], ◌∷◌, ◌==◌, Option, none, some, find, ◌≡◌, ◌≢◌,
  ◌⊎◌, inl, inr, refl, arith, Bool-cases, Option-cases, sym, ==→eq, subst,
}
use mathlib.Core.Option.{some-injective}
use mathlib.Core.List.{Memᴰ}
use domain_process_e2e.Text.{Text}
use domain_process_e2e.Ip.{
  Address, v4, v6, Network, ip4, is_in, blocked_networks, ipv4_mapped, IpValidationResult, Reason,
  restricted, mapped_restricted, allowed, verdict, check_mapped, check_address, validate,
  get_first_allowed,
}

-- From `low` up to and without `high`.
abbrev pub Outside : ℕ → ℕ → ℕ → Type 0
Outside low high x = (x < low) ⊎ (high ≤ x)

-- The IPv4 addresses that may be probed.
pub record IsPublic4 (x : ℕ) : Type 0 where
  pub specified : x ≢ 0
  pub not_private_10 : Outside (ip4 10 0 0 0) (ip4 11 0 0 0) x
  pub not_carrier_nat : Outside (ip4 100 64 0 0) (ip4 100 128 0 0) x
  pub not_loopback : Outside (ip4 127 0 0 0) (ip4 128 0 0 0) x
  pub not_link_local : Outside (ip4 169 254 0 0) (ip4 169 255 0 0) x
  pub not_private_172 : Outside (ip4 172 16 0 0) (ip4 172 32 0 0) x
  pub not_test_1 : Outside (ip4 192 0 2 0) (ip4 192 0 3 0) x
  pub not_private_192 : Outside (ip4 192 168 0 0) (ip4 192 169 0 0) x
  pub not_benchmark : Outside (ip4 198 18 0 0) (ip4 198 20 0 0) x
  pub not_test_2 : Outside (ip4 198 51 100 0) (ip4 198 51 101 0) x
  pub not_test_3 : Outside (ip4 203 0 113 0) (ip4 203 0 114 0) x
  pub not_multicast : x < ip4 224 0 0 0

pub record IsPublic6 (x : ℕ) : Type 0 where
  pub specified : x ≢ 0
  pub not_loopback : x ≢ 1
  pub not_documentation : Outside (0x20010db8 * 2 ^ 96) (0x20010db9 * 2 ^ 96) x
  pub not_unique_local : Outside (0xfc00 * 2 ^ 112) (0xfe00 * 2 ^ 112) x
  pub not_link_local : Outside (0xfe80 * 2 ^ 112) (0xfec0 * 2 ^ 112) x
  pub not_multicast : x < 0xff00 * 2 ^ 112
  pub mapped_public : x / 2 ^ 32 ≡ 0xffff → IsPublic4 (x % 2 ^ 32)

abbrev pub IsPublic : Address → Type 0
IsPublic (v4 x) = IsPublic4 x
IsPublic (v6 x) = IsPublic6 x

find_none4 : (x : ℕ) → x < 2 ^ 32 → find (is_in (v4 x)) blocked_networks ≡ none → IsPublic4 x
unfolding is_in
find_none4 x fits h = ground arith

public4_find : (x : ℕ) → IsPublic4 x → find (is_in (v4 x)) blocked_networks ≡ none
unfolding is_in
public4_find x h = ground arith

-- What the list says of an IPv6 address, without the mapped ones.
abbrev Listed6 : ℕ → Type 0
Listed6 x =
    (x ≢ 0)
    × (x ≢ 1)
    × Outside (0x20010db8 * 2 ^ 96) (0x20010db9 * 2 ^ 96) x
    × Outside (0xfc00 * 2 ^ 112) (0xfe00 * 2 ^ 112) x
    × Outside (0xfe80 * 2 ^ 112) (0xfec0 * 2 ^ 112) x
    × (x < 0xff00 * 2 ^ 112)

find_none6 : (x : ℕ) → x < 2 ^ 128 → find (is_in (v6 x)) blocked_networks ≡ none → Listed6 x
unfolding is_in
find_none6 x fits h = ground arith

public6_find : (x : ℕ) → Listed6 x → find (is_in (v6 x)) blocked_networks ≡ none
unfolding is_in
public6_find x h = ground arith

-- An address in the range of its version.
abbrev pub InWidth : Address → Type 0
InWidth (v4 x) = x < 2 ^ 32
InWidth (v6 x) = x < 2 ^ 128

module _ (s : Text) where
  verdict_allowed :
      (why : Network → Reason) (next : IpValidationResult) (o : Option Network)
      → (verdict s why next o).is_allowed ≡ true
      → (o ≡ none) × (next.is_allowed ≡ true)
  unfolding verdict
  verdict_allowed why next none h = (refl, h)
  verdict_allowed why next (some n) h = absurd (cc)

  mapped-IsPublic :
      (x : ℕ)
      → (check_mapped s (ipv4_mapped (v6 x))).is_allowed ≡ true
      → x / 2 ^ 32 ≡ 0xffff
      → IsPublic4 (x % 2 ^ 32)
  unfolding ipv4_mapped check_mapped
  mapped-IsPublic x h e = find_none4 (x % 2 ^ 32) (omega arith) (check (rw mapped at h))
    where
      mapped : ((x / 2 ^ 32) == 0xffff) ≡ true
      mapped = ground arith

      check :
          (check_mapped s (some (x % 2 ^ 32))).is_allowed ≡ true
          → find (is_in (v4 (x % 2 ^ 32))) blocked_networks ≡ none
      check k =
          (verdict_allowed mapped_restricted (allowed s)
            (find (is_in (v4 (x % 2 ^ 32))) blocked_networks) k).0

  check_address-IsPublic :
      (a : Address) → InWidth a → (check_address s a).is_allowed ≡ true → IsPublic a
  unfolding check_address
  check_address-IsPublic (v4 x) fits h =
      find_none4 x fits
        (verdict_allowed restricted (allowed s) (find (is_in (v4 x)) blocked_networks) h).0
  check_address-IsPublic (v6 x) fits h =
      let (none_found, mapped_ok) =
        verdict_allowed restricted (check_mapped s (ipv4_mapped (v6 x)))
          (find (is_in (v6 x)) blocked_networks) h in
      let (specified, not_loopback, doc, local, link, multicast) = find_none6 x fits none_found in
      record {
        specified = specified;
        not_loopback = not_loopback;
        not_documentation = doc;
        not_unique_local = local;
        not_link_local = link;
        not_multicast = multicast;
        mapped_public = mapped-IsPublic x mapped_ok;
      }

  check_mapped_public : (x : ℕ) → IsPublic6 x → check_mapped s (ipv4_mapped (v6 x)) ≡ allowed s
  unfolding ipv4_mapped check_mapped
  check_mapped_public x h = elim (Bool-cases ((x / 2 ^ 32) == 0xffff)) [
    | inl e ↦ rw (e, public4_find (x % 2 ^ 32) (h.mapped_public (==→eq _ _ e)))
    | inr e ↦ rw e
  ]

  IsPublic-check_address : (a : Address) → IsPublic a → check_address s a ≡ allowed s
  unfolding check_address
  IsPublic-check_address (v4 x) h = rw (public4_find x h)
  IsPublic-check_address (v6 x) h =
      rw
        (public6_find x (
          h.specified, h.not_loopback, h.not_documentation, h.not_unique_local, h.not_link_local,
          h.not_multicast,
        ))
        (check_mapped_public x h)

  verdict-ip :
      (why : Network → Reason) (next : IpValidationResult) (o : Option Network)
      → next.ip ≡ s
      → (verdict s why next o).ip ≡ s
  unfolding verdict
  verdict-ip why next none h = h
  verdict-ip why next (some n) h = refl

  check_mapped-ip : (o : Option ℕ) → (check_mapped s o).ip ≡ s
  unfolding check_mapped
  check_mapped-ip none = refl
  check_mapped-ip (some m) =
      verdict-ip mapped_restricted (allowed s) (find (is_in (v4 m)) blocked_networks) refl

  check_address-ip : (a : Address) → (check_address s a).ip ≡ s
  unfolding check_address
  check_address-ip a =
      verdict-ip restricted (check_mapped s (ipv4_mapped a)) (find (is_in a) blocked_networks)
        (check_mapped-ip (ipv4_mapped a))

module _ (ip_address : Text → Option Address) where
  -- The result names the address that was asked about.
  pub validate-ip : (s : Text) → (validate ip_address s).ip ≡ s
  unfolding validate
  validate-ip s = elim (Option-cases (ip_address s)) [
    | inl e ↦ rw (e, validate)
    | inr (a, e) ↦ rw (e, validate) (check_address-ip s a)
  ]

  -- A text that the validator allows parses to an address outside every blocked range, also by the
  -- IPv4 address that an IPv6 one maps, provided that the parser gives numbers of the right width.
  pub validate-IsPublic :
      (s : Text)
      → ((a : Address) → ip_address s ≡ some a → InWidth a)
      → (validate ip_address s).is_allowed ≡ true
      → (a : Address) × (ip_address s ≡ some a) × IsPublic a
  unfolding validate
  validate-IsPublic s fits h = elim (Option-cases (ip_address s)) [
    | inl e ↦ absurd (cc (rw (e, validate) at h))
    | inr (a, e) ↦ (a, e, check_address-IsPublic s a (fits a e) (rw (e, validate) at h))
  ]

  -- A text that parses to an address outside every blocked range is allowed.
  pub IsPublic-validate :
      (s : Text) (a : Address)
      → ip_address s ≡ some a
      → IsPublic a
      → validate ip_address s ≡ allowed s
  unfolding validate
  IsPublic-validate s a e h = rw (e, validate) (IsPublic-check_address s a h)

  -- The address that get_first_allowed picks is in the list, and the validator allows it.
  pub get_first_allowed-some :
      (ips : List Text) (ip : Text)
      → get_first_allowed ip_address ips ≡ some ip
      → Memᴰ ip ips × ((validate ip_address ip).is_allowed ≡ true)
  unfolding get_first_allowed
  get_first_allowed-some [] ip h = absurd (cc)
  get_first_allowed-some (x ∷ ips) ip h = elim (Bool-cases (validate ip_address x).is_allowed) [
    | inl e ↦
        let q : x ≡ ip = some-injective x ip (rw e at h) in
        (Memᴰ.head (sym q), subst (λ y. (validate ip_address y).is_allowed ≡ true) q e)
    | inr e ↦ let (m, ok) = get_first_allowed-some ips ip (rw e at h) in (Memᴰ.tail m, ok)
  ]
