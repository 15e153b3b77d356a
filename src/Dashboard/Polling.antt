-- ===== src/Dashboard/Polling.antt =====
-- Polling in engine/static/app.js: `startPolling`, the callback of its interval,
-- `setupVisibilityListener` and the handler of `DOMContentLoaded`. The script is not in strict mode:
-- reading a variable that was never declared raises a `ReferenceError`, assigning to it creates it.
pub mod Startup
use proxy_redirector.Prelude.{
  ℕ, suc, ◌+◌, Bool, true, false, ◌&&◌, Option, none, some, List, [], ◌∷◌, ltb, ◌==◌, if◌then◌else◌,
  filter, not,
}

pub data Tab : Type 0 where
  dashboard proxies adblock traffic analytics devices settings : Tab

-- How a call ends.
pub data Outcome : Type 0 where
  done raised : Outcome

pub record Timer : Type 0 where
  pub id : ℕ
  pub interval_ms : ℕ

-- The four variables that polling reads, `none` where the variable does not exist; a `poll_timer`
-- of `some none` exists and holds no timer. Then the browser's intervals that run, the next timer's
-- id, whether the page is hidden, and which listeners are installed.
pub record Page : Type 0 where
  pub active_tab : Option Tab
  pub poll_timer : Option (Option ℕ)
  pub poll_interval_ms : Option ℕ
  pub consecutive_poll_errors : Option ℕ
  pub timers : List Timer
  pub next_timer : ℕ
  pub is_hidden : Bool
  pub watches_visibility : Bool
  pub watches_keys : Bool

abbrev pub Exec : Type 0
Exec = Page → Outcome × Page

-- Reading a variable.
abbrev pub read : {A : Type 0} → Option A → (A → Exec) → Exec
read none k p = (raised, p)
read (some a) k p = k a p

-- The next statement, if the one before has not raised.
abbrev pub then_run : Outcome × Page → Exec → Outcome × Page
then_run (done, p) k = k p
then_run (raised, p) k = (raised, p)

-- `try { … } catch { … }`
abbrev pub catch_run : Outcome × Page → Exec → Outcome × Page
catch_run (done, p) k = (done, p)
catch_run (raised, p) k = k p

-- `clearInterval(id)`
abbrev pub without : ℕ → List Timer → List Timer
without id timers = filter (λ t. not (t.id == id)) timers

-- `if (pollTimer) clearInterval(pollTimer)`; ids are positive, so a timer is truthy.
unfoldable pub clear_timer : Option ℕ → Page → Page
clear_timer none p = p
clear_timer (some id) p = record p { timers = without id p.timers }

-- `pollTimer = setInterval(…, ms)`
unfoldable pub set_timer : ℕ → Page → Page
set_timer ms p = record p {
  poll_timer = some (some p.next_timer);
  timers = record { id = p.next_timer; interval_ms = ms } ∷ p.timers;
  next_timer = suc p.next_timer;
}

unfoldable pub start_polling : Exec
unfolding clear_timer set_timer
start_polling p =
    read p.poll_timer
      (λ timer q.
        let cleared = clear_timer timer q in
        read cleared.poll_interval_ms (λ ms r. (done, set_timer ms r)) cleared)
      p

-- What a response of the server is to a request's function.
pub data Reply : Type 0 where
  no_connection not_ok no_json json : Reply

-- The `try` blocks of `fetchStatus`, `fetchProxies` and `fetchDevices` throw on a status that is not
-- ok; those of `fetchBlocklist` and `fetchTraffic` return.
abbrev throwing_body : Reply → Outcome
throwing_body json = done
throwing_body _ = raised

abbrev returning_body : Reply → Outcome
returning_body json = done
returning_body not_ok = done
returning_body _ = raised

-- The five functions catch what their `try` block throws and only log it.
abbrev caught : Outcome → Outcome
caught done = done
caught raised = done

-- What the interval's callback awaits on each tab. On `settings` it awaits nothing. `fetchTraffic`
-- returns at once while the stream is paused, with the same outcome.
unfoldable pub request : Tab → Reply → Outcome
request dashboard reply = caught (throwing_body reply)
request proxies reply = caught (throwing_body reply)
request adblock reply = caught (returning_body reply)
request analytics reply = caught (throwing_body reply)
request devices reply = caught (throwing_body reply)
request traffic reply = caught (returning_body reply)
request settings reply = done

-- `if (consecutivePollErrors > 0) { … }`, behind the awaited request
unfoldable pub after_success : Exec
after_success p =
    read p.consecutive_poll_errors
      (λ errors q.
        if ltb 0 errors
        then start_polling
            (record q { consecutive_poll_errors = some 0; poll_interval_ms = some 2500 })
        else (done, q))
      p

slow_down : ℕ → Exec
slow_down errors p =
    if ltb 3 errors
    then read p.poll_interval_ms
        (λ ms q.
          if ltb ms 10000
          then start_polling (record q { poll_interval_ms = some 10000 })
          else (done, q))
        p
    else (done, p)

-- The `catch` block of the callback.
unfoldable pub after_failure : Exec
unfolding slow_down
after_failure p =
    read p.consecutive_poll_errors
      (λ errors q.
        slow_down (errors + 1) (record q { consecutive_poll_errors = some (errors + 1) }))
      p

-- The rest of the callback once the awaited request has ended.
unfoldable pub settle : Outcome → Exec
settle done p = catch_run (after_success p) after_failure
settle raised p = after_failure p

-- One call of the interval's callback whose request is answered by `reply`.
unfoldable pub tick : Reply → Exec
tick reply p =
    if p.is_hidden
    then (done, p)
    else catch_run (read p.active_tab (λ tab q. then_run (request tab reply, q) after_success) p)
        after_failure

-- The listener of `visibilitychange`; `hidden` is `document.hidden` after the change.
unfoldable pub change_visibility : Bool → Exec
change_visibility true p =
    let q = record p { is_hidden = true } in
    read q.poll_timer (λ timer r. (done, clear_timer timer r)) q
change_visibility false p =
    start_polling (record p {
      is_hidden = false;
      consecutive_poll_errors = some 0;
      poll_interval_ms = some 2500;
    })

-- The handler of `DOMContentLoaded` behind `initDashboard`, which only starts requests.
unfoldable pub on_load : Exec
on_load p =
    then_run (start_polling p)
      λ q. (done, record q { watches_visibility = true; watches_keys = true })

-- What may happen to polling: a switch of the tab, a change of visibility, a call of the callback,
-- or the end of a request that an earlier call awaits.
pub data Event : Type 0 where
  switch : Tab → Event
  hide show : Event
  fire : Reply → Event
  end : Tab → Reply → Event

unfoldable pub step : Event → Page → Page
step (switch tab) p = record p { active_tab = some tab }
step hide p = (change_visibility true p).1
step show p = (change_visibility false p).1
step (fire reply) p = (tick reply p).1
step (end tab reply) p = (settle (request tab reply) p).1

unfoldable pub run : List Event → Page → Page
run [] p = p
run (e ∷ es) p = run es (step e p)
