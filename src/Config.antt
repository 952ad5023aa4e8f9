-- ===== src/Config.antt =====
-- src/domain_processing_service/config.py, AppSettings: the validators, and the bounds of the
-- fields that the other modules read. Negative numbers, which every bound refuses, are not among
-- the inputs.
pub mod Accepted
use domain_process_e2e.Prelude.{
  ℕ, Bool, true, false, not, ◌&&◌, List, [], ◌∷◌, map, filter, any, leb, ltb, if◌then◌else◌, Option,
  none, some,
}
use domain_process_e2e.Text.{Text, text, text_eq, split, strip, is_empty}

-- The value of dns_nameservers: a string, a list or tuple (each item as `str` gives it), or
-- another.
pub data Nameservers : Type 0 where
  as_text : Text → Nameservers
  as_list : List Text → Nameservers
  as_other : Nameservers

-- the items that `strip` leaves something of
unfoldable pub stripped : List Text → List Text
stripped ts = filter (λ t. not (is_empty t)) (map strip ts)

unfoldable pub parse_dns_nameservers : Nameservers → List Text
unfolding stripped
parse_dns_nameservers (as_text value) = stripped (split b',' value)
parse_dns_nameservers (as_list values) = stripped values
parse_dns_nameservers as_other = text "8.8.8.8" ∷ text "1.1.1.1" ∷ text "8.8.4.4" ∷ []

-- validate_database_url, whether it accepts
unfoldable pub validate_database_url : Text → Bool
validate_database_url value = not (is_empty (strip value))

-- LogLevel
abbrev pub log_levels : List Text
log_levels = text "DEBUG" ∷ text "INFO" ∷ text "WARNING" ∷ text "ERROR" ∷ text "CRITICAL" ∷ []

-- normalize_log_level, by `str.upper`, and the check of the field's type
unfoldable pub normalize_log_level : (Text → Text) → Text → Option Text
normalize_log_level upper value =
    if any (text_eq (upper value)) log_levels then some (upper value) else none

-- validate_page_size_bounds, whether it accepts
unfoldable pub validate_page_size_bounds : ℕ → ℕ → Bool
validate_page_size_bounds default_page_size value = not (ltb value default_page_size)

pub record AppSettings : Type 0 where
  pub database_url : Text
  pub dns_nameservers : List Text
  pub max_domains_per_request : ℕ
  pub default_page_size : ℕ
  pub max_page_size : ℕ
  pub worker_concurrency : ℕ
  pub worker_queue_capacity : ℕ
  pub task_lease_seconds : ℕ
  pub max_attempts : ℕ

-- `Field(ge=1)`
abbrev pub ge_1 : ℕ → Bool
ge_1 n = leb 1 n

-- The settings that are accepted; the nameservers have been parsed.
unfoldable pub accepts : AppSettings → Bool
accepts s =
    validate_database_url s.database_url
    && ge_1 s.max_domains_per_request
    && ge_1 s.default_page_size
    && ge_1 s.max_page_size
    && validate_page_size_bounds s.default_page_size s.max_page_size
    && ge_1 s.worker_concurrency
    && ge_1 s.worker_queue_capacity
    && ge_1 s.task_lease_seconds
    && ge_1 s.max_attempts
