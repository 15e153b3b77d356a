-- ===== src/Client/Settings.antt =====
-- `SettingsScreen` in client/frontend/src/screens/SettingsScreen.tsx. A handler is run to its end,
-- with the answers of the client's calls as arguments; the form is not changed meanwhile.
pub mod Laws
use proxy_redirector.Prelude.{
  ℕ, ◌+◌, ◌-◌, Bool, true, false, Option, none, some, List, [], ◌∷◌, ◌++◌, or_number, ◌==◌,
  if◌then◌else◌,
}
use proxy_redirector.Text.{Text, codes, or_text, is_empty, decimal}

-- The arguments of `SaveConfig`, and the fields of `GetSettings` that are read, with the falsy value
-- of its type for a missing one.
pub record Config : Type 0 where
  pub engine_address : Text
  pub api_key : Text
  pub socks_port : ℕ
  pub http_port : ℕ

pub record TestResult : Type 0 where
  pub success : Bool
  pub message : Text

-- `saved` are the calls of `SaveConfig`, the newest first; `success_timers` the timers of 2 seconds
-- that end the sign of success.
pub record Settings : Type 0 where
  pub form : Config
  pub is_saving : Bool
  pub save_success : Bool
  pub success_timers : ℕ
  pub is_testing : Bool
  pub test_result : Option TestResult
  pub saved : List Config

pub record EngineStatus : Type 0 where
  pub connected : Bool
  pub mode : Text
  pub alive : ℕ

-- How a call of the client ends: it rejects, with a message that may be empty, or gives a result.
pub data Answer (A : Type 0) : Type 0 where
  rejects : Text → Answer A
  gives : A → Answer A

-- The first state of the screen.
abbrev pub fresh : Settings
fresh = record {
  form = record {
    engine_address = codes "127.0.0.1:50051";
    api_key = [];
    socks_port = 1080;
    http_port = 8080;
  };
  is_saving = false;
  save_success = false;
  success_timers = 0;
  is_testing = false;
  test_result = none;
  saved = [];
}

-- The setters of `loadSettings`: a falsy field leaves that of the form.
unfoldable pub load_form : Config → Config → Config
load_form c form = record {
  engine_address = or_text c.engine_address form.engine_address;
  api_key = or_text c.api_key form.api_key;
  socks_port = or_number c.socks_port form.socks_port;
  http_port = or_number c.http_port form.http_port;
}

-- `loadSettings`: settings that are missing raise as a call that rejects does.
unfoldable pub load_settings : Answer (Option Config) → Settings → Settings
unfolding load_form
load_settings (rejects m) s = s
load_settings (gives none) s = s
load_settings (gives (some c)) s = record s { form = load_form c s.form }

-- `setSaveSuccess(true)` with its timer
abbrev pub show_success : Settings → Settings
show_success s = record s { save_success = true; success_timers = s.success_timers + 1 }

unfoldable pub end_success : Settings → Settings
end_success s = record s { save_success = false; success_timers = s.success_timers - 1 }

-- `handleSave`
unfoldable pub save_settings : Answer (Unit {0}) → Settings → Settings
save_settings (rejects m) s = record s { is_saving = false; saved = s.form ∷ s.saved }
save_settings (gives u) s = show_success (record s { is_saving = false; saved = s.form ∷ s.saved })

abbrev pub connected_message : EngineStatus → Text
connected_message st =
    codes "Connected & Saved! Mode: "
    ++ or_text st.mode (codes "self-hosted")
    ++ codes ", Alive Proxies: "
    ++ decimal st.alive

abbrev pub failed : Text → TestResult
failed m = record { success = false; message = m }

-- The `catch` block of `handleTestConnection`
unfoldable pub catch_test : Text → Settings → Settings
catch_test m s = record s {
  test_result = some (failed (or_text m (codes "Connection failed: Unable to reach engine")));
}

-- The save that follows a test that connects
unfoldable pub save_after_test : Answer (Unit {0}) → Settings → Settings
unfolding catch_test
save_after_test (rejects m) s = catch_test m (record s { saved = s.form ∷ s.saved })
save_after_test (gives u) s = show_success (record s { saved = s.form ∷ s.saved })

unfoldable pub end_probe : Answer (Option EngineStatus) → Answer (Unit {0}) → Settings → Settings
unfolding catch_test save_after_test
end_probe (rejects m) save s = catch_test m s
end_probe (gives none) save s = record s {
  test_result = some (failed (codes "Connection failed: Server responded with error"));
}
end_probe (gives (some st)) save s =
    if st.connected
    then save_after_test save (record s {
      test_result = some (record { success = true; message = connected_message st });
    })
    else record s {
      test_result = some (failed (codes "Connection failed: Server responded with error"));
    }

-- `handleTestConnection`: what `TestConnection` answers, and `SaveConfig` if it is called.
unfoldable pub test_connection :
    Answer (Option EngineStatus) → Answer (Unit {0}) → Settings → Settings
unfolding end_probe
test_connection probe save s =
    record (end_probe probe save (record s { is_testing = true; test_result = none })) {
      is_testing = false;
    }
