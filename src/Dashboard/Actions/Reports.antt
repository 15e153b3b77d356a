-- ===== src/Dashboard/Actions/Reports.antt =====
-- What the user learns about a command that fails or succeeds.
use proxy_redirector.Prelude.{ℕ, ◌≡◌, refl, Bool, true, false, ◌||◌, List, [], ◌∷◌, arith}
use proxy_redirector.Text.{Text}
use proxy_redirector.Dashboard.Actions.{
  success, error, Effect, post, toast, Reply, not_ok, ok, toggle_engine_state, force_switch_proxy,
  batch_recheck_selected, batch_delete_selected, select_specific_proxy, recheck_proxy, delete_proxy,
  purge_dead_proxies, submit_bulk_proxies, submit_custom_proxy, submit_bulk_adblock, submit_rule,
  remove_rule, toggle_category, save_engine_config, reset_config_defaults, import_config_file,
}

-- A command of the user with what the page holds when it is given.
pub data Command : Type 0 where
  toggle_engine : Bool → Command
  force_switch select_proxy recheck delete purge remove toggle_filter save : Command
  batch_recheck : ℕ → Command
  batch_delete : ℕ → Bool → Command
  import_proxies import_rules add_rule : Text → Command
  add_proxy : Text → Text → Command
  reset : Bool → Command
  import_config : Bool → Command

abbrev pub effects : Command → Reply → List Effect
effects (toggle_engine running) = toggle_engine_state running
effects force_switch = force_switch_proxy
effects select_proxy = select_specific_proxy
effects recheck = recheck_proxy
effects delete = delete_proxy
effects purge = purge_dead_proxies
effects remove = remove_rule
effects toggle_filter = toggle_category
effects save = save_engine_config
effects (batch_recheck n) = batch_recheck_selected n
effects (batch_delete n confirmed) = batch_delete_selected n confirmed
effects (import_proxies raw) = submit_bulk_proxies raw
effects (import_rules raw) = submit_bulk_adblock raw
effects (add_rule domain) = submit_rule domain
effects (add_proxy ip port) = submit_custom_proxy ip port
effects (reset confirmed) = reset_config_defaults confirmed
effects (import_config is_json) = import_config_file is_json

abbrev pub is_error : Effect → Bool
is_error (toast error) = true
is_error _ = false

abbrev pub is_success : Effect → Bool
is_success (toast success) = true
is_success _ = false

abbrev pub is_post : Effect → Bool
is_post (post e) = true
is_post _ = false

-- Some effect of the list passes a test.
abbrev pub some_effect : (Effect → Bool) → List Effect → Bool
some_effect test [] = false
some_effect test (e ∷ es) = test e || some_effect test es

abbrev pub reports_error : List Effect → Bool
reports_error es = some_effect is_error es

abbrev pub reports_success : List Effect → Bool
reports_success es = some_effect is_success es

abbrev pub sends : List Effect → Bool
sends es = some_effect is_post es

-- The commands whose handler has an `else` for a refused request.
abbrev pub checks_status : Command → Bool
checks_status (toggle_engine running) = false
checks_status (batch_recheck n) = false
checks_status (batch_delete n confirmed) = false
checks_status (add_rule domain) = false
checks_status remove = false
checks_status toggle_filter = false
checks_status save = false
checks_status _ = true

-- A command that looks at the status, if it is sent at all and refused, is reported as an error and
-- never as a success.
pub refused_reported :
    (c : Command)
    → checks_status c ≡ true
    → sends (effects c not_ok) ≡ true
    → (reports_error (effects c not_ok) ≡ true) × (reports_success (effects c not_ok) ≡ false)
unfolding force_switch_proxy select_specific_proxy recheck_proxy delete_proxy purge_dead_proxies
    submit_bulk_proxies submit_bulk_adblock submit_custom_proxy reset_config_defaults
    import_config_file
refused_reported (reset confirmed) h k = ground arith
refused_reported (import_config is_json) h k = ground arith
refused_reported (import_proxies raw) h k = ground arith
refused_reported (import_rules raw) h k = ground arith
refused_reported (add_proxy ip port) h k = ground arith
refused_reported c h k = ground arith

-- A save that the engine refuses has the very effects of one that it accepts, the report of success
-- included.
pub refused_save :
    (alive : Bool)
    → (effects save not_ok ≡ effects save (ok alive))
      × (reports_success (effects save not_ok) ≡ true)
unfolding save_engine_config
refused_save alive = (refl, refl)
