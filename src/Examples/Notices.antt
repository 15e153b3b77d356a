-- ===== src/Examples/Notices.antt =====
-- The theorems on what appears and goes by itself: the notifications of engine/static/app.js and the
-- flag of the desktop client.
use proxy_redirector.Prelude.{ℕ, ◌+◌, ◌*◌, ◌≤◌, ◌≡◌, refl, true, List, [], ◌∷◌, arith, ltb, length}
use proxy_redirector.Text.{Text, codes, to_lower}
use proxy_redirector.Dashboard.Actions.{success, error}
use proxy_redirector.Dashboard.Toasts
use proxy_redirector.Dashboard.Toasts.{no_container}
use proxy_redirector.Dashboard.Toasts.Laws.{has, elapsed, toast_leaves}
use proxy_redirector.Client.Flag.{
  Load, Flag, has_no_flag, url_of, show_country, mount, on_load, Event, country_is, loaded,
  fade_ends, step, run,
}
use proxy_redirector.Client.Flag.Laws.{wanted, IsVisible}
use proxy_redirector.Client.Flag.Settles.{AreLoads, loads_stop, finish, finish_shows_country}

abbrev shown_before : List Toasts.Event
shown_before = Toasts.Event.show (codes "saved") success 3500 ∷ Toasts.Event.wait 1000 ∷ []

abbrev shown_after : List Toasts.Event
shown_after =
    Toasts.Event.wait 2000
    ∷ Toasts.Event.show (codes "late") success 2000
    ∷ Toasts.Event.wait 1900
    ∷ []

toast_leaves_example :
    let c = Toasts.run shown_before no_container in
    has c.next_id
      (Toasts.run (Toasts.Event.show (codes "<failed>") error 3500 ∷ shown_after) c).toasts
    ≡ ltb (elapsed shown_after) (3500 + 300)
toast_leaves_example = toast_leaves shown_before shown_after (codes "<failed>") error 3500

abbrev load_of : Text → Load
load_of url = record { url = url; kept = [] }

abbrev german : Flag
german = record {
  country = codes "DE";
  current = codes "y";
  previous = [];
  show_current = true;
  loading = load_of (codes "x") ∷ load_of (codes "y") ∷ [];
  fades = 0;
}

abbrev order : List ℕ
order = 0 ∷ 1 ∷ []

two_loads : AreLoads order german
unfolding step on_load show_country has_no_flag url_of to_lower
two_loads = (omega arith, (omega arith, tt))

loads_stop_example : length order ≤ 2 * length german.loading
loads_stop_example = loads_stop order german two_loads

abbrev changes : List Event
changes = country_is (codes "US") ∷ loaded 1 ∷ fade_ends ∷ country_is (codes "Unknown") ∷ []

finish_shows_country_example :
    let f = run changes (mount (codes "DE")) in
    let g = finish (2 * length f.loading) length f in
    (g.loading ≡ []) × (g.current ≡ wanted g) × IsVisible g
finish_shows_country_example =
    finish_shows_country (codes "DE") changes length (refl, (refl, (refl, (refl, tt))))
