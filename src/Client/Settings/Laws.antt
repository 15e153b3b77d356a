-- ===== src/Client/Settings/Laws.antt =====
-- What a test of the connection reports, and what saved settings are loaded as.
use proxy_redirector.Prelude.{
  ◌≡◌, ◌≢◌, ◌<◌, refl, Bool, true, false, ◌&&◌, Option, none, some, [], ◌∷◌, arith, if◌then◌else◌,
}
use proxy_redirector.Text.{Text, codes, or_text}
use proxy_redirector.Client.Settings.{
  Config, Settings, TestResult, EngineStatus, Answer, rejects, gives, fresh, load_form,
  load_settings, save_after_test, catch_test, end_probe, test_connection,
}

abbrev pub connects : Answer (Option EngineStatus) → Bool
connects (rejects m) = false
connects (gives none) = false
connects (gives (some st)) = st.connected

abbrev pub saves : Answer (Unit {0}) → Bool
saves (rejects m) = false
saves (gives u) = true

abbrev pub succeeded : Option TestResult → Bool
succeeded none = false
succeeded (some r) = r.success

-- Whatever the calls answer, a test of the connection ends, reports a success if and only if the
-- engine says that it is connected and the settings are then saved, and calls for the settings to be
-- saved if and only if the engine says that it is connected; the form stays as it is.
pub test_connection_reports :
    (probe : Answer (Option EngineStatus)) (save : Answer (Unit {0})) (s : Settings)
    → let s' = test_connection probe save s in
      (s'.is_testing ≡ false)
      × (succeeded s'.test_result ≡ (connects probe && saves save))
      × (s'.saved ≡ (if connects probe then s.form ∷ s.saved else s.saved))
      × (s'.form ≡ s.form)
unfolding test_connection end_probe save_after_test catch_test
test_connection_reports (rejects m) save s = ground arith
test_connection_reports (gives none) save s = ground arith
test_connection_reports (gives (some st)) (rejects m) s = ground arith
test_connection_reports (gives (some st)) (gives u) s = ground arith

or_text-nonempty : (a b : Text) → a ≢ [] → or_text a b ≡ a
or_text-nonempty [] b h = absurd (h refl)
or_text-nonempty (c ∷ a) b h = refl

or_text-nil : (a : Text) → or_text a [] ≡ a
or_text-nil [] = refl
or_text-nil (c ∷ a) = refl

-- A new screen loads saved settings as they were saved, an empty key included, if the address is not
-- empty and no port is 0.
pub load_settings-fresh :
    (c : Config)
    → c.engine_address ≢ []
    → 0 < c.socks_port
    → 0 < c.http_port
    → (load_settings (gives (some c)) fresh).form ≡ c
unfolding load_settings load_form
load_settings-fresh c address socks http = ground (
  arith,
  or_text-nonempty c.engine_address (codes "127.0.0.1:50051") address,
  or_text-nil c.api_key,
)

-- Saved settings with an empty address or a port of 0 are loaded with the values of a new screen in
-- their place.
pub load_settings-defaults :
    (c : Config)
    → let form = (load_settings (gives (some c)) fresh).form in
      (form.engine_address ≢ []) × (0 < form.socks_port) × (0 < form.http_port)
unfolding load_settings load_form
load_settings-defaults c = (address c.engine_address, ground arith, ground arith)
  where
    address : (a : Text) → or_text a (codes "127.0.0.1:50051") ≢ []
    address [] = λ e. cc
    address (x ∷ a) = λ e. cc
