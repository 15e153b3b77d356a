-- ===== src/Dashboard/Config.antt =====
-- The settings form of engine/static/app.js: `fetchConfig` and `saveEngineConfig`. The four score
-- weights, which are read by `parseFloat`, are left out.
pub mod Laws
use proxy_redirector.Prelude.{ℕ, Bool, true, false, Option, none, some, or_number, if◌then◌else◌}
use proxy_redirector.Text.{Text, codes, or_text, decimal, parse_int}

-- The numbers of the configuration, 0 where a field is missing.
pub record Numbers (A : Type 0) : Type 0 where
  pub local_port : A
  pub http_proxy_port : A
  pub max_speed_ms : A
  pub max_concurrent_checks : A
  pub failover_max_retries : A
  pub dead_retry_after_seconds : A
  pub blacklist_after_failures : A
  pub rotation_interval_sec : A
  pub rotation_pool_size : A

-- What `/api/config` answers. A missing Boolean is `none`, a missing text is empty.
pub record Config : Type 0 where
  pub numbers : Numbers ℕ
  pub country_filter : Text
  pub anonymity_check : Option Bool
  pub ssl_check_enabled : Option Bool
  pub check_url : Text
  pub https_check_url : Text
  pub rotation_enabled : Option Bool
  pub rotation_ssl_only : Option Bool

-- The form's fields: texts and boxes.
pub record Form : Type 0 where
  pub numbers : Numbers Text
  pub country_filter : Text
  pub anonymity_check : Bool
  pub ssl_check_enabled : Bool
  pub check_url : Text
  pub https_check_url : Text
  pub rotation_enabled : Bool
  pub rotation_ssl_only : Bool

-- What is sent; a number that is none is `NaN`, which JSON writes as `null`.
pub record Payload : Type 0 where
  pub numbers : Numbers (Option ℕ)
  pub country_filter : Text
  pub anonymity_check : Bool
  pub ssl_check_enabled : Bool
  pub check_url : Text
  pub https_check_url : Text
  pub rotation_enabled : Bool
  pub rotation_ssl_only : Bool

-- `cfg.FIELD || default`
unfoldable pub with_defaults : Numbers ℕ → Numbers ℕ
with_defaults n = record {
  local_port = or_number n.local_port 1080;
  http_proxy_port = or_number n.http_proxy_port 8080;
  max_speed_ms = or_number n.max_speed_ms 5000;
  max_concurrent_checks = or_number n.max_concurrent_checks 50;
  failover_max_retries = or_number n.failover_max_retries 3;
  dead_retry_after_seconds = or_number n.dead_retry_after_seconds 120;
  blacklist_after_failures = or_number n.blacklist_after_failures 10;
  rotation_interval_sec = or_number n.rotation_interval_sec 60;
  rotation_pool_size = or_number n.rotation_pool_size 10;
}

abbrev pub each : {A B : Type 0} → (A → B) → Numbers A → Numbers B
each f n = record {
  local_port = f n.local_port;
  http_proxy_port = f n.http_proxy_port;
  max_speed_ms = f n.max_speed_ms;
  max_concurrent_checks = f n.max_concurrent_checks;
  failover_max_retries = f n.failover_max_retries;
  dead_retry_after_seconds = f n.dead_retry_after_seconds;
  blacklist_after_failures = f n.blacklist_after_failures;
  rotation_interval_sec = f n.rotation_interval_sec;
  rotation_pool_size = f n.rotation_pool_size;
}

-- `b !== false` and `b === true`
abbrev pub not_false : Option Bool → Bool
not_false (some false) = false
not_false _ = true

abbrev pub is_true : Option Bool → Bool
is_true (some true) = true
is_true _ = false

abbrev check_url_default : Text
check_url_default = codes "http://httpbin.org/ip"

abbrev https_check_url_default : Text
https_check_url_default = codes "https://httpbin.org/ip"

-- `fetchConfig`, for a response that is a configuration: it does not write `cfg-COUNTRY_FILTER`.
unfoldable pub load_config : Config → Form → Form
load_config cfg form = record {
  numbers = each decimal (with_defaults cfg.numbers);
  country_filter = form.country_filter;
  anonymity_check = not_false cfg.anonymity_check;
  ssl_check_enabled = not_false cfg.ssl_check_enabled;
  check_url = or_text cfg.check_url check_url_default;
  https_check_url = or_text cfg.https_check_url https_check_url_default;
  rotation_enabled = is_true cfg.rotation_enabled;
  rotation_ssl_only = is_true cfg.rotation_ssl_only;
}

-- The `payload` of `saveEngineConfig`.
unfoldable pub save_config : Form → Payload
save_config form = record {
  numbers = each parse_int form.numbers;
  country_filter = or_text form.country_filter (codes "GLOBAL");
  anonymity_check = form.anonymity_check;
  ssl_check_enabled = form.ssl_check_enabled;
  check_url = or_text form.check_url check_url_default;
  https_check_url = or_text form.https_check_url https_check_url_default;
  rotation_enabled = form.rotation_enabled;
  rotation_ssl_only = form.rotation_ssl_only;
}
