-- ===== src/Dns.antt =====
-- src/domain_processing_service/dns.py. `query` is what aiodns answers to a lookup.
use domain_process_e2e.Prelude.{
  ℕ, Bool, true, false, ◌&&◌, ◌||◌, List, [], ◌∷◌, ◌++◌, Option, none, some, ◌≡◌, refl,
}
use domain_process_e2e.Text.{Text}

pub data DnsClass : Type 0 where
  retryable permanent unknown : DnsClass

-- `classification` is the attribute that _resolve_dns of domain_processor.py would set.
pub record DnsResult : Type 0 where
  pub ips_v4 : List Text
  pub ips_v6 : List Text
  pub cname : Option Text
  pub error : Option Text
  pub classification : Option DnsClass

abbrev nonempty {ℓ} : {A : Type ℓ} → List A → Bool
nonempty [] = false
nonempty (x ∷ xs) = true

abbrev pub is_none {ℓ} : {A : Type ℓ} → Option A → Bool
is_none none = true
is_none (some x) = false

unfoldable pub is_success : DnsResult → Bool
is_success r = is_none r.error && (nonempty r.ips_v4 || nonempty r.ips_v6)

unfoldable pub all_ips : DnsResult → List Text
all_ips r = r.ips_v4 ++ r.ips_v6

pub data RecordType : Type 0 where
  a aaaa cname_record : RecordType

-- The codes of aiodns.error that the code names; `other_code` is any other.
pub data DnsCode : Type 0 where
  enotfound enodata etimeout eservfail econnrefused : DnsCode
  other_code : ℕ → DnsCode

-- What `self._resolver.query` does: it returns the hosts, or raises DNSError or another exception.
pub data Lookup : Type 0 where
  hosts : List Text → Lookup
  dns_failure : DnsCode → Lookup
  other_failure : Lookup

-- The result of a coroutine under gather(return_exceptions=True).
pub data Gathered {ℓ} (A : Type ℓ) : Type ℓ where
  value : A → Gathered A
  exception : Gathered A

-- _resolve_a and _resolve_aaaa
unfoldable pub resolve_addresses : Lookup → Gathered (List Text)
resolve_addresses (hosts hs) = value hs
resolve_addresses (dns_failure enotfound) = value []
resolve_addresses (dns_failure enodata) = value []
resolve_addresses (dns_failure _) = exception
resolve_addresses other_failure = exception

abbrev first_host : List Text → Option Text
first_host [] = none
first_host (h ∷ hs) = some h

unfoldable pub resolve_cname : Lookup → Gathered (Option Text)
resolve_cname (hosts hs) = value (first_host hs)
resolve_cname (dns_failure _) = value none
resolve_cname other_failure = exception

-- An exception of one lookup is logged, and leaves the default.
abbrev or_default {ℓ} : {A : Type ℓ} → A → Gathered A → A
or_default d (value x) = x
or_default d exception = d

unfoldable pub resolve : (RecordType → Text → Lookup) → Text → DnsResult
unfolding resolve_addresses resolve_cname
resolve query domain = record {
  ips_v4 = or_default [] (resolve_addresses (query a domain));
  ips_v6 = or_default [] (resolve_addresses (query aaaa domain));
  cname = or_default none (resolve_cname (query cname_record domain));
  error = none;
  classification = none;
}

-- The exceptions that `classify_dns_error` tells apart.
pub data DnsException : Type 0 where
  timeout : DnsException
  dns_exception : DnsCode → DnsException
  plain : Text → DnsException

unfoldable pub classify_dns_error : DnsException → DnsClass
classify_dns_error timeout = retryable
classify_dns_error (dns_exception etimeout) = retryable
classify_dns_error (dns_exception eservfail) = retryable
classify_dns_error (dns_exception econnrefused) = retryable
classify_dns_error (dns_exception enotfound) = permanent
classify_dns_error (dns_exception enodata) = permanent
classify_dns_error (dns_exception (other_code n)) = unknown
classify_dns_error (plain message) = unknown

-- Whatever the name servers answer, the result carries no error: a failed lookup, a name that does
-- not exist and a server that does not answer all leave an empty list.
pub error-resolve :
    (query : RecordType → Text → Lookup) (domain : Text) → (resolve query domain).error ≡ none
unfolding resolve
error-resolve query domain = refl
