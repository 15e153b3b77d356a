-- ===== src/Dashboard/Exports/Laws.antt =====
-- What was written to a file is read back from it.
use proxy_redirector.Prelude.{◌≡◌, refl, Option, none, some, List, [], ◌∷◌}
use proxy_redirector.Text.{Text}
use proxy_redirector.Dashboard.Actions.{success, error, Reply, by_reply}
use proxy_redirector.Dashboard.Exports.{
  Files, Effect, download, toast, post_config, fetch_config, data_url, export_list,
  export_proxies_json, export_traffic_log, export_adblock_rules, export_config_json, import_config,
  import_config_file,
}

module _ (f : Files) where
  open f use {
    Json, array, rules_file, stringify, indented, parse, content, parse_indented, content_encode,
  }

  -- The text of the file that is saved, if any.
  abbrev pub saved : List Effect → Option Text
  saved [] = none
  saved (download href name ∷ es) = content href
  saved (e ∷ es) = saved es

  -- What a saved file is read as.
  abbrev pub read : Option Text → Option Json
  read none = none
  read (some s) = parse s

  read-data_url : (v : Json) → read (content (data_url f v)) ≡ some v
  read-data_url v = rw (content_encode (indented v)) (parse_indented v)

  -- The file of a configuration that was exported, read in again, sends that configuration: whatever
  -- the engine then answers, the dashboard says so, and loads its form again if it was accepted.
  pub import-export_config :
      (now : Text) (cfg : Json) (reply : Reply)
      → (saved (export_config_json f now (some cfg)) ≡ some (indented cfg))
        × (import_config_file f reply (indented cfg)
            ≡ post_config (stringify cfg)
              ∷ by_reply reply
                  (toast success ∷ fetch_config ∷ [])
                  (toast error ∷ [])
                  (toast error ∷ []))
  unfolding export_config_json import_config_file import_config
  import-export_config now cfg reply = (content_encode (indented cfg), rw (parse_indented cfg) refl)

  -- The other files hold the list of the proxies, that of the traffic, and the rules with the
  -- exceptions and the time.
  pub read-exports :
      (now : Text) (v : Json) (vs : List Json) (rules whitelist : Json)
      → (read (saved (export_proxies_json f now (v ∷ vs))) ≡ some (array (v ∷ vs)))
        × (read (saved (export_traffic_log f now (v ∷ vs))) ≡ some (array (v ∷ vs)))
        × (read (saved (export_adblock_rules f now rules whitelist))
            ≡ some (rules_file rules whitelist now))
  unfolding export_proxies_json export_traffic_log export_list export_adblock_rules
  read-exports now v vs rules whitelist = (
    read-data_url (array (v ∷ vs)),
    read-data_url (array (v ∷ vs)),
    read-data_url (rules_file rules whitelist now),
  )
