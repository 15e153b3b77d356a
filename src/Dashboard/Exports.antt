-- ===== src/Dashboard/Exports.antt =====
-- The files that engine/static/app.js writes and reads: `exportProxiesJson`, `exportTrafficLog`,
-- `exportAdBlockRules`, `exportConfigJson` and `importConfigFile`, and `copyToClipboard`. JSON, the
-- encoding of addresses and the browser's download are parameters.
pub mod Laws
use proxy_redirector.Prelude.{
  ◌≡◌, Bool, true, false, ◌&&◌, Option, none, some, List, [], ◌∷◌, ◌++◌, take, if◌then◌else◌,
}
use proxy_redirector.Text.{Text, codes}
use proxy_redirector.Dashboard.Actions.{Kind, success, error, info, Reply, by_reply}

abbrev pub data_prefix : Text
data_prefix = codes "data:text/json;charset=utf-8,"

-- `stringify` is `JSON.stringify(v)` and `indented` `JSON.stringify(v, null, 2)`; `parse` throws by
-- `none`; `encode` is `encodeURIComponent`, and `content` is what a browser saves for an address.
pub record Files : Type 1 where
  pub Json : Type 0
  pub array : List Json → Json
  pub rules_file : Json → Json → Text → Json
  pub stringify : Json → Text
  pub indented : Json → Text
  pub parse : Text → Option Json
  pub encode : Text → Text
  pub content : Text → Option Text
  pub parse_indented : (v : Json) → parse (indented v) ≡ some v
  pub content_encode : (s : Text) → content (data_prefix ++ encode s) ≡ some s

-- A click on a made-up link, with its address and the file's name; a toast, the sending of a configuration, and its loading.
pub data Effect : Type 0 where
  download : Text → Text → Effect
  toast : Kind → Effect
  post_config : Text → Effect
  fetch_config : Effect

module _ (f : Files) where
  open f use {Json, array, rules_file, stringify, indented, parse, encode}

  abbrev pub data_url : Json → Text
  data_url v = data_prefix ++ encode (indented v)

  -- `name_2026-01-31.json`; `now` is what `toISOString` gives.
  abbrev pub file_name : Text → Text → Text
  file_name name now = name ++ (codes "_" ++ (take 10 now ++ codes ".json"))

  -- An empty cache is not exported.
  unfoldable pub export_list : Text → Text → List Json → List Effect
  export_list name now [] = toast info ∷ []
  export_list name now (v ∷ vs) =
      download (data_url (array (v ∷ vs))) (file_name name now) ∷ toast success ∷ []

  unfoldable pub export_proxies_json : Text → List Json → List Effect
  unfolding export_list
  export_proxies_json = export_list (codes "proxy_pool_export")

  unfoldable pub export_traffic_log : Text → List Json → List Effect
  unfolding export_list
  export_traffic_log = export_list (codes "traffic_stream_export")

  unfoldable pub export_adblock_rules : Text → Json → Json → List Effect
  export_adblock_rules now rules whitelist =
      download (data_url (rules_file rules whitelist now))
        (file_name (codes "adblock_rules_export") now)
      ∷ toast success
      ∷ []

  -- The answer's body, whatever its status; `none` where there is no connection or no JSON.
  unfoldable pub export_config_json : Text → Option Json → List Effect
  export_config_json now none = toast error ∷ []
  export_config_json now (some cfg) =
      download (data_url cfg) (file_name (codes "engine_config_backup") now) ∷ toast success ∷ []

  -- The `onload` of the reader, with the outcome of the request that it sends.
  unfoldable pub import_config : Reply → Option Json → List Effect
  import_config reply none = toast error ∷ []
  import_config reply (some cfg) =
      post_config (stringify cfg)
      ∷ by_reply reply (toast success ∷ fetch_config ∷ []) (toast error ∷ []) (toast error ∷ [])

  unfoldable pub import_config_file : Reply → Text → List Effect
  unfolding import_config
  import_config_file reply file = import_config reply (parse file)

-- How `copyToClipboard` ends: in a secure context it waits for the clipboard, which may refuse, and
-- then says nothing; elsewhere the copy is made by a field that is there for a moment.
unfoldable pub copy_to_clipboard : Bool → Bool → Text → Option Text → Option Text × List Effect
copy_to_clipboard is_secure allowed text held =
    if is_secure
    then (if allowed then (some text, toast success ∷ []) else (held, []))
    else ((if allowed then some text else held), toast success ∷ [])
