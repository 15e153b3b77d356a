-- ===== src/Web/Console.antt =====
-- `ApiView` in saas/frontend/src/components/views/ApiView.tsx: the keys of the API and the console
-- that tries a request. The clock and the random texts are arguments; the time stamp of a made-up
-- answer is left out.
pub mod Laws
use proxy_redirector.Prelude.{
  ℕ, Bool, true, false, not, Option, none, some, List, [], ◌∷◌, ◌++◌, filter, take, if◌then◌else◌,
}
use proxy_redirector.Text.{Text, codes, text_eq, is_empty, or_text, includes, decimal}
use proxy_redirector.Text.Trim.{trim}
use proxy_redirector.Web.Session.Machine.{take_at}

pub record ApiKey : Type 0 where
  pub id : Text
  pub name : Text
  pub prefix : Text
  pub key : Text
  pub created_at : Text

pub data Method : Type 0 where
  get post : Method

-- A request of the console, with the values of the render that started it.
pub record TestCall : Type 0 where
  pub endpoint : Text
  pub method : Method
  pub bearer : Text

-- What stands in the box of the answer.
pub data Body : Type 0 where
  json : Text → Body
  mock_pool mock_session : Body

-- `requests` are the requests under way, the newest first, and `timers` the timers of 400 ms of those
-- that could not be answered.
pub record Console : Type 0 where
  pub api_keys : List ApiKey
  pub new_key_name : Text
  pub generated_key : Option Text
  pub endpoint : Text
  pub method : Method
  pub executing : Bool
  pub response : Option Body
  pub status : Option ℕ
  pub requests : List TestCall
  pub timers : List TestCall

-- `newKeyObj` of `handleCreateKey`, for the random part of the key, the moment and the day.
unfoldable pub new_key : Text → Text → ℕ → Text → ApiKey
new_key name random now day =
    let raw = codes "pk_live_" ++ random in
    record {
      id = codes "key_" ++ decimal now;
      name = or_text (trim name) (codes "Development SDK Key");
      prefix = take 12 raw ++ codes "...";
      key = raw;
      created_at = day;
    }

-- `handleCreateKey`
unfoldable pub create_key : Text → ℕ → Text → Console → Console
unfolding new_key
create_key random now day c =
    let k = new_key c.new_key_name random now day in
    record c { api_keys = k ∷ c.api_keys; generated_key = some k.key; new_key_name = [] }

-- `handleRevokeKey`
unfoldable pub revoke_key : Text → Console → Console
revoke_key id c = record c { api_keys = filter (λ k. not (text_eq k.id id)) c.api_keys }

abbrev pub bearer_of : Option Text → Text
bearer_of token =
    codes "Bearer "
    ++ elim token [ none ↦ codes "demo_token" | some t ↦ or_text t (codes "demo_token") ]

-- `handleExecuteApiTest` up to its request, for the token of the session
unfoldable pub execute_test : Option Text → Console → Console
execute_test token c = record c {
  executing = true;
  response = none;
  status = none;
  requests =
      record { endpoint = c.endpoint; method = c.method; bearer = bearer_of token } ∷ c.requests;
}

-- The answer of a request: its status and its JSON, or none that is JSON.
pub data Answer : Type 0 where
  unreachable : Answer
  answered : ℕ → Text → Answer

-- From the answer on. The `finally` block runs also where the `catch` block has only set its timer.
unfoldable pub end_test : TestCall → Answer → Console → Console
end_test call unreachable c = record c { timers = call ∷ c.timers; executing = false }
end_test call (answered code body) c = record c {
  status = some code;
  response = some (json body);
  executing = false;
}

-- The end of the timer: the made-up answer
unfoldable pub end_timer : TestCall → Console → Console
end_timer call c = record c {
  status = some 200;
  response = some (if includes call.endpoint (codes "pool") then mock_pool else mock_session);
  executing = false;
}

pub data Event : Type 0 where
  execute : Option Text → Event
  choose : Text → Method → Event
  test_ends : ℕ → Answer → Event
  timer_ends : ℕ → Event

-- The end of a request or a timer that is not under way changes nothing.
unfoldable pub step : Event → Console → Console
unfolding take_at
step (execute token) c = execute_test token c
step (choose endpoint method) c = record c { endpoint = endpoint; method = method }
step (test_ends i a) c = elim (take_at i c.requests) [
  | none ↦ c
  | some (call, rest) ↦ end_test call a (record c { requests = rest })
]
step (timer_ends i) c = elim (take_at i c.timers) [
  | none ↦ c
  | some (call, rest) ↦ end_timer call (record c { timers = rest })
]

unfoldable pub run : List Event → Console → Console
run [] c = c
run (e ∷ es) c = run es (step e c)
