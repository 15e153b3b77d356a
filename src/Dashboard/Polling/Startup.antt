-- ===== src/Dashboard/Polling/Startup.antt =====
-- The page as it is loaded: the script declares none of the variables that polling reads.
use proxy_redirector.Prelude.{◌≡◌, refl, Bool, false, none, List, [], ◌∷◌, arith}
use proxy_redirector.Dashboard.Polling.{
  Page, start_polling, on_load, Event, switch, hide, show, fire, end, step, run, after_success,
  after_failure, settle, tick, change_visibility,
}

-- The page before its handlers run: no variable of polling exists, no interval runs, and nothing is
-- listened to. It may be hidden.
abbrev pub fresh : Bool → Page
fresh is_hidden = record {
  active_tab = none;
  poll_timer = none;
  poll_interval_ms = none;
  consecutive_poll_errors = none;
  timers = [];
  next_timer = 1;
  is_hidden = is_hidden;
  watches_visibility = false;
  watches_keys = false;
}

-- The variable `pollTimer` does not exist, no interval runs and no listener is installed.
record IsDead (p : Page) : Type 0 where
  undeclared : p.poll_timer ≡ none
  no_timers : p.timers ≡ []
  no_visibility : p.watches_visibility ≡ false
  no_keys : p.watches_keys ≡ false

on_load-IsDead : (h : Bool) → IsDead (on_load (fresh h)).1
unfolding on_load start_polling
on_load-IsDead h = record {
  undeclared = refl;
  no_timers = refl;
  no_visibility = refl;
  no_keys = refl;
}

step-IsDead : (e : Event) (p : Page) → IsDead p → IsDead (step e p)
unfolding step settle tick change_visibility after_success after_failure start_polling
step-IsDead (switch tab) p h = ground arith
step-IsDead hide p h = ground arith
step-IsDead show p h = ground arith
step-IsDead (fire reply) p h = ground arith
step-IsDead (end tab reply) p h = ground arith

run-IsDead : (es : List Event) (p : Page) → IsDead p → IsDead (run es p)
unfolding run
run-IsDead [] p h = h
run-IsDead (e ∷ es) p h = run-IsDead es (step e p) (step-IsDead e p h)

-- The dashboard never polls: after the page is loaded, and after any events behind that, even calls
-- of its callbacks, no interval runs, and neither the changes of the visibility nor the keys are
-- listened to.
pub never_polls :
    (is_hidden : Bool) (es : List Event)
    → let p = run es (on_load (fresh is_hidden)).1 in
      (p.timers ≡ []) × (p.watches_visibility ≡ false) × (p.watches_keys ≡ false)
never_polls is_hidden es =
    let dead = run-IsDead es (on_load (fresh is_hidden)).1 (on_load-IsDead is_hidden) in
    (dead.no_timers, dead.no_visibility, dead.no_keys)
