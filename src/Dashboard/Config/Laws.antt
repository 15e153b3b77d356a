-- ===== src/Dashboard/Config/Laws.antt =====
-- What a save right after a load sends to the engine.
use proxy_redirector.Prelude.{
  ℕ, ◌<◌, ◌≡◌, ◌≢◌, ◌∙◌, refl, ap, or_number, Bool, true, false, Option, some, [], ◌∷◌, arith,
}
use proxy_redirector.Text.{Text, codes, or_text, decimal, parse_int}
use proxy_redirector.Text.Numbers.{parse_int-decimal}
use proxy_redirector.Dashboard.Config.{
  Numbers, Config, Form, check_url_default, https_check_url_default, with_defaults, each, not_false,
  is_true, load_config, save_config,
}

each-parse_int-decimal : (n : Numbers ℕ) → each parse_int (each decimal n) ≡ each some n
each-parse_int-decimal n = simp parse_int-decimal

-- Loading the configuration into the form and saving the form sends every number of the
-- configuration, with its default in place of a 0.
pub save-load_numbers :
    (cfg : Config) (form : Form)
    → (save_config (load_config cfg form)).numbers ≡ each some (with_defaults cfg.numbers)
unfolding save_config load_config
save-load_numbers cfg form = each-parse_int-decimal (with_defaults cfg.numbers)

not_false_given : (o : Option Bool) (b : Bool) → o ≡ some b → not_false o ≡ b
not_false_given o true h = ground arith
not_false_given o false h = ground arith

is_true_given : (o : Option Bool) (b : Bool) → o ≡ some b → is_true o ≡ b
is_true_given o true h = ground arith
is_true_given o false h = ground arith

or_text_given : (u d : Text) → u ≢ [] → or_text (or_text u d) d ≡ u
or_text_given [] d h = absurd (h refl)
or_text_given (c ∷ u) d h = refl

or_number_given : (n d : ℕ) → 0 < n → or_number n d ≡ n
or_number_given n d h = ground arith

or_number_missing : (n d : ℕ) → n ≡ 0 → or_number n d ≡ d
or_number_missing n d h = ground arith

-- The numbers of a configuration as the engine sends it, without the two ports and the number of
-- retries.
pub record IsSent (n : Numbers ℕ) : Type 0 where
  pub local_port : n.local_port ≡ 0
  pub http_proxy_port : n.http_proxy_port ≡ 0
  pub failover_max_retries : n.failover_max_retries ≡ 0
  pub max_speed_ms : 0 < n.max_speed_ms
  pub max_concurrent_checks : 0 < n.max_concurrent_checks
  pub dead_retry_after_seconds : 0 < n.dead_retry_after_seconds
  pub blacklist_after_failures : 0 < n.blacklist_after_failures
  pub rotation_interval_sec : 0 < n.rotation_interval_sec
  pub rotation_pool_size : 0 < n.rotation_pool_size

with_defaults_sent :
    (n : Numbers ℕ)
    → IsSent n
    → with_defaults n
      ≡ record n { local_port = 1080; http_proxy_port = 8080; failover_max_retries = 3 }
unfolding with_defaults
with_defaults_sent n h = λ i. record {
  local_port = or_number_missing n.local_port 1080 h.local_port i;
  http_proxy_port = or_number_missing n.http_proxy_port 8080 h.http_proxy_port i;
  max_speed_ms = or_number_given n.max_speed_ms 5000 h.max_speed_ms i;
  max_concurrent_checks = or_number_given n.max_concurrent_checks 50 h.max_concurrent_checks i;
  failover_max_retries = or_number_missing n.failover_max_retries 3 h.failover_max_retries i;
  dead_retry_after_seconds =
      or_number_given n.dead_retry_after_seconds 120 h.dead_retry_after_seconds i;
  blacklist_after_failures =
      or_number_given n.blacklist_after_failures 10 h.blacklist_after_failures i;
  rotation_interval_sec = or_number_given n.rotation_interval_sec 60 h.rotation_interval_sec i;
  rotation_pool_size = or_number_given n.rotation_pool_size 10 h.rotation_pool_size i;
}

-- A configuration as the engine sends it, without the two ports and the number of retries, but with
-- the other numbers, which are not 0, the Booleans, and two addresses that are not empty: loading it
-- and saving the form sends it back unchanged, with 1080, 8080 and 3 for the three numbers that are
-- missing, and with the country filter of the form, or "GLOBAL" where that is empty.
pub save-load_unchanged :
    (cfg : Config) (form : Form)
    → IsSent cfg.numbers
    → (a s r o : Bool) → cfg.anonymity_check ≡ some a
    → cfg.ssl_check_enabled ≡ some s
    → cfg.rotation_enabled ≡ some r
    → cfg.rotation_ssl_only ≡ some o
    → cfg.check_url ≢ []
    → cfg.https_check_url ≢ []
    → save_config (load_config cfg form) ≡ record {
      numbers = record {
        local_port = some 1080;
        http_proxy_port = some 8080;
        max_speed_ms = some cfg.numbers.max_speed_ms;
        max_concurrent_checks = some cfg.numbers.max_concurrent_checks;
        failover_max_retries = some 3;
        dead_retry_after_seconds = some cfg.numbers.dead_retry_after_seconds;
        blacklist_after_failures = some cfg.numbers.blacklist_after_failures;
        rotation_interval_sec = some cfg.numbers.rotation_interval_sec;
        rotation_pool_size = some cfg.numbers.rotation_pool_size;
      };
      country_filter = or_text form.country_filter (codes "GLOBAL");
      anonymity_check = a;
      ssl_check_enabled = s;
      check_url = cfg.check_url;
      https_check_url = cfg.https_check_url;
      rotation_enabled = r;
      rotation_ssl_only = o;
    }
unfolding save_config load_config
save-load_unchanged cfg form n a s r o ha hs hr ho u v = λ i. record {
  numbers =
      (each-parse_int-decimal (with_defaults cfg.numbers)
          ∙ ap (each some) (with_defaults_sent cfg.numbers n))
        i;
  country_filter = or_text form.country_filter (codes "GLOBAL");
  anonymity_check = not_false_given cfg.anonymity_check a ha i;
  ssl_check_enabled = not_false_given cfg.ssl_check_enabled s hs i;
  check_url = or_text_given cfg.check_url check_url_default u i;
  https_check_url = or_text_given cfg.https_check_url https_check_url_default v i;
  rotation_enabled = is_true_given cfg.rotation_enabled r hr i;
  rotation_ssl_only = is_true_given cfg.rotation_ssl_only o ho i;
}

-- The country filter that is sent is that of the form, whatever the engine's configuration holds.
pub save-load_country :
    (cfg cfg' : Config) (form : Form)
    → (save_config (load_config cfg form)).country_filter
      ≡ (save_config (load_config cfg' form)).country_filter
unfolding save_config load_config
save-load_country cfg cfg' form = refl
