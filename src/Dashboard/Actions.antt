-- ===== src/Dashboard/Actions.antt =====
-- The handlers of engine/static/app.js that send a command to the engine: what they do, in order,
-- for each outcome of the request. The wording of messages is not modelled, their kind is.
pub mod Reports
use proxy_redirector.Prelude.{
  ℕ, Bool, true, false, ◌&&◌, ◌||◌, Option, none, some, List, [], ◌∷◌, ltb, leb, ◌==◌,
  if◌then◌else◌,
}
use proxy_redirector.Text.{Text, is_empty, parse_int}
use proxy_redirector.Text.Trim.{is_space}

pub data Kind : Type 0 where
  success error info : Kind

pub data Modal : Type 0 where
  bulk_import add_proxy bulk_adblock : Modal

pub data Refresh : Type 0 where
  status proxies blocklist config : Refresh

-- The engine's addresses.
pub data Endpoint : Type 0 where
  start stop proxy_select proxy_batch proxy_recheck proxy_delete purge_dead proxies_bulk : Endpoint
  proxy_add blocklist_bulk blocklist_rules blocklist_toggle config_set config_reset : Endpoint

pub data Effect : Type 0 where
  post : Endpoint → Effect
  toast : Kind → Effect
  refresh : Refresh → Effect
  close : Modal → Effect
  clear_field : Effect
  clear_selection : Effect
  flip_running : Effect
  alert_saved : Effect

-- How the request ends: no connection, a status that is not ok, or ok with the `alive` of the body.
pub data Reply : Type 0 where
  no_connection not_ok : Reply
  ok : Bool → Reply

-- The three outcomes as the handlers with `if (res.ok) … else …` inside `try` treat them.
abbrev pub by_reply {ℓ} : {A : Type ℓ} → Reply → A → A → A → A
by_reply no_connection on_ok on_refusal on_error = on_error
by_reply not_ok on_ok on_refusal on_error = on_refusal
by_reply (ok b) on_ok on_refusal on_error = on_ok

-- A refused request is not reported here: `if (res.ok)` has no `else`.
unfoldable pub toggle_engine_state : Bool → Reply → List Effect
toggle_engine_state is_running reply =
    post (if is_running then stop else start)
    ∷ by_reply reply (flip_running ∷ toast info ∷ refresh status ∷ []) [] (toast error ∷ [])

unfoldable pub force_switch_proxy : Reply → List Effect
force_switch_proxy reply =
    post proxy_select
    ∷ by_reply reply (toast success ∷ refresh status ∷ []) (toast error ∷ []) (toast error ∷ [])

-- On success the two refreshes follow after 2.5 seconds.
unfoldable pub batch_recheck_selected : ℕ → Reply → List Effect
batch_recheck_selected selected reply =
    if ltb 0 selected
    then toast info
      ∷ post proxy_batch
      ∷ by_reply reply (toast success ∷ refresh proxies ∷ refresh status ∷ []) [] (toast error ∷ [])
    else []

unfoldable pub batch_delete_selected : ℕ → Bool → Reply → List Effect
batch_delete_selected selected confirmed reply =
    if ltb 0 selected && confirmed
    then post proxy_batch
      ∷ by_reply reply (toast success ∷ clear_selection ∷ refresh proxies ∷ refresh status ∷ []) []
          (toast error ∷ [])
    else []

unfoldable pub select_specific_proxy : Reply → List Effect
select_specific_proxy reply =
    post proxy_select
    ∷ by_reply reply (toast success ∷ refresh status ∷ []) (toast error ∷ []) (toast error ∷ [])

-- The answer of a check of one proxy says whether the proxy is alive.
abbrev pub checked_toast : Reply → Kind
checked_toast (ok true) = success
checked_toast _ = error

unfoldable pub recheck_proxy : Reply → List Effect
recheck_proxy reply =
    toast info
    ∷ post proxy_recheck
    ∷ by_reply reply (toast (checked_toast reply) ∷ refresh proxies ∷ refresh status ∷ [])
        (toast error ∷ []) (toast error ∷ [])

unfoldable pub delete_proxy : Reply → List Effect
delete_proxy reply =
    post proxy_delete
    ∷ by_reply reply (toast success ∷ refresh proxies ∷ refresh status ∷ []) (toast error ∷ [])
        (toast error ∷ [])

unfoldable pub purge_dead_proxies : Reply → List Effect
purge_dead_proxies reply =
    post purge_dead
    ∷ by_reply reply (toast success ∷ refresh proxies ∷ refresh status ∷ []) (toast error ∷ [])
        (toast error ∷ [])

-- `!rawText || !rawText.trim()`: no character but spaces.
abbrev pub is_blank : Text → Bool
is_blank [] = true
is_blank (c ∷ s) = is_space c && is_blank s

-- `isNaN(port)`
abbrev pub is_nan : Option ℕ → Bool
is_nan none = true
is_nan (some n) = false

unfoldable pub submit_bulk_proxies : Text → Reply → List Effect
submit_bulk_proxies raw_text reply =
    if is_blank raw_text
    then toast error ∷ []
    else post proxies_bulk
      ∷ by_reply reply
          (close bulk_import ∷ clear_field ∷ toast success ∷ refresh proxies ∷ refresh status ∷ [])
          (toast error ∷ []) (toast error ∷ [])

-- `ip` is the trimmed field; the port is read by `parseInt`.
unfoldable pub submit_custom_proxy : Text → Text → Reply → List Effect
submit_custom_proxy ip port reply =
    if is_empty ip || is_nan (parse_int port)
    then toast error ∷ []
    else post proxy_add
      ∷ by_reply reply (close add_proxy ∷ toast success ∷ refresh proxies ∷ refresh status ∷ [])
          (toast error ∷ []) (toast error ∷ [])

unfoldable pub submit_bulk_adblock : Text → Reply → List Effect
submit_bulk_adblock raw_text reply =
    if is_blank raw_text
    then toast error ∷ []
    else post blocklist_bulk
      ∷ by_reply reply
          (close bulk_adblock
            ∷ clear_field
            ∷ toast success
            ∷ refresh blocklist
            ∷ refresh status
            ∷ [])
          (toast error ∷ []) (toast error ∷ [])

-- Adding and removing a rule or an exception: the status is not looked at, and without a
-- connection the handler raises behind its request.
unfoldable pub submit_rule : Text → Reply → List Effect
submit_rule domain reply =
    if is_empty domain
    then []
    else post blocklist_rules
      ∷ by_reply reply (clear_field ∷ refresh blocklist ∷ []) (clear_field ∷ refresh blocklist ∷ [])
          []

unfoldable pub remove_rule : Reply → List Effect
remove_rule reply =
    post blocklist_rules ∷ by_reply reply (refresh blocklist ∷ []) (refresh blocklist ∷ []) []

-- The error is only logged.
unfoldable pub toggle_category : Reply → List Effect
toggle_category reply =
    post blocklist_toggle ∷ by_reply reply (refresh blocklist ∷ []) (refresh blocklist ∷ []) []

-- The status is not looked at.
unfoldable pub save_engine_config : Reply → List Effect
save_engine_config reply =
    post config_set
    ∷ by_reply reply (alert_saved ∷ toast success ∷ []) (alert_saved ∷ toast success ∷ [])
        (toast error ∷ [])

unfoldable pub reset_config_defaults : Bool → Reply → List Effect
reset_config_defaults confirmed reply =
    if confirmed
    then post config_reset
      ∷ by_reply reply (toast success ∷ refresh config ∷ []) (toast error ∷ []) (toast error ∷ [])
    else []

-- The handler of a file that was read; `is_json` says whether `JSON.parse` accepts it.
unfoldable pub import_config_file : Bool → Reply → List Effect
import_config_file is_json reply =
    if is_json
    then post config_set
      ∷ by_reply reply (toast success ∷ refresh config ∷ []) (toast error ∷ []) (toast error ∷ [])
    else toast error ∷ []
