-- ===== src/Examples/Names.antt =====
-- Names, addresses and responses, at concrete inputs.
use domain_process_e2e.Prelude.{true, some, ◌≡◌, refl, arith, subst}
use mathlib.Core.Option.{some-injective}
use domain_process_e2e.Text.{
  Text, text, split, strip, is_space, rstrip, rstrip_by, before, starts_with, ends_with, is_empty,
  join,
}
use domain_process_e2e.Normalization.{
  normalize_domain, normalize_host, validate_domain_syntax, strip_url, after_scheme,
  after_scheme_chars, host_of, encode_labels, judge_labels, check_labels, is_valid_domain_label,
}
use domain_process_e2e.Normalization.Idempotent.{normalize_domain_idempotent}
use domain_process_e2e.Ip.{
  Address, validate, check_address, is_in, verdict, check_mapped, ipv4_mapped,
}
use domain_process_e2e.Ip.Public.{IsPublic, InWidth, validate-IsPublic}
use domain_process_e2e.Examples.{ascii, parse}

abbrev shouted : Text
shouted = text "  HTTPS://Example.COM:8080/a "

abbrev name : Text
name = text "example.com"

shouted_is_valid : (normalize_domain ascii shouted).is_valid ≡ true
unfolding normalize_domain normalize_host strip rstrip_by is_space strip_url after_scheme
    after_scheme_chars host_of before rstrip split join encode_labels judge_labels
    validate_domain_syntax check_labels is_valid_domain_label starts_with ends_with is_empty
shouted_is_valid = refl

normalize_domain_idempotent_example :
    normalize_domain ascii (normalize_domain ascii shouted).value ≡ normalize_domain ascii shouted
normalize_domain_idempotent_example = normalize_domain_idempotent ascii shouted shouted_is_valid

eight_is_allowed : (validate parse (text "8")).is_allowed ≡ true
unfolding validate check_address is_in verdict check_mapped ipv4_mapped
eight_is_allowed = refl

parse-InWidth : (a : Address) → parse (text "8") ≡ some a → InWidth a
parse-InWidth a e = subst InWidth (some-injective _ _ e) (ground arith)

validate-IsPublic_example : (a : Address) × (parse (text "8") ≡ some a) × IsPublic a
validate-IsPublic_example = validate-IsPublic parse (text "8") parse-InWidth eight_is_allowed
