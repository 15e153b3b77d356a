-- ===== src/Examples/Settings.antt =====
-- The theorem on the settings form of engine/static/app.js.
use proxy_redirector.Prelude.{◌≡◌, refl, true, false, some, [], arith}
use proxy_redirector.Text.{codes, or_text}
use proxy_redirector.Dashboard.Config.{Config, Form, load_config, save_config, each}
use proxy_redirector.Dashboard.Config.Laws.{IsSent, save-load_unchanged}

abbrev config : Config
config = record {
  numbers = record {
    local_port = 0;
    http_proxy_port = 0;
    max_speed_ms = 4000;
    max_concurrent_checks = 20;
    failover_max_retries = 0;
    dead_retry_after_seconds = 60;
    blacklist_after_failures = 5;
    rotation_interval_sec = 30;
    rotation_pool_size = 4;
  };
  country_filter = codes "DE";
  anonymity_check = some false;
  ssl_check_enabled = some true;
  check_url = codes "http://check.example";
  https_check_url = codes "https://check.example";
  rotation_enabled = some true;
  rotation_ssl_only = some false;
}

abbrev form : Form
form = record {
  numbers = each (λ n. []) config.numbers;
  country_filter = [];
  anonymity_check = true;
  ssl_check_enabled = true;
  check_url = [];
  https_check_url = [];
  rotation_enabled = false;
  rotation_ssl_only = false;
}

config-IsSent : IsSent config.numbers
config-IsSent = record {
  local_port = refl;
  http_proxy_port = refl;
  failover_max_retries = refl;
  max_speed_ms = omega arith;
  max_concurrent_checks = omega arith;
  dead_retry_after_seconds = omega arith;
  blacklist_after_failures = omega arith;
  rotation_interval_sec = omega arith;
  rotation_pool_size = omega arith;
}

save-load_unchanged_example : save_config (load_config config form) ≡ record {
  numbers = record {
    local_port = some 1080;
    http_proxy_port = some 8080;
    max_speed_ms = some 4000;
    max_concurrent_checks = some 20;
    failover_max_retries = some 3;
    dead_retry_after_seconds = some 60;
    blacklist_after_failures = some 5;
    rotation_interval_sec = some 30;
    rotation_pool_size = some 4;
  };
  country_filter = or_text form.country_filter (codes "GLOBAL");
  anonymity_check = false;
  ssl_check_enabled = true;
  check_url = config.check_url;
  https_check_url = config.https_check_url;
  rotation_enabled = true;
  rotation_ssl_only = false;
}
save-load_unchanged_example =
    save-load_unchanged config form config-IsSent false true true false refl refl refl refl
      (λ h. ground arith) (λ h. ground arith)
