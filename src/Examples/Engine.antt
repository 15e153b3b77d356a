-- ===== src/Examples/Engine.antt =====
-- The theorems on the status and the rules of the dashboard, engine/static/app.js.
use proxy_redirector.Prelude.{refl, true, false, none, [], All}
use proxy_redirector.Text.{codes}
use proxy_redirector.Dashboard.Escape.Laws.{IsInert}
use proxy_redirector.Dashboard.Navigation.{ar}
use proxy_redirector.Dashboard.Status.{ActiveProxy, StatusReply, Status, Gateways, card_of}
use proxy_redirector.Dashboard.Status.Laws.{card_of-raw}

abbrev gateways : Gateways
gateways = record { socks5 = []; http = []; grpc = []; rest = [] }

abbrev status : Status
status = record {
  orb_offline = false;
  words = record { online = true; language = ar };
  alive = 0;
  total = 0;
  blocked = 0;
  rules = 0;
  avg_score = codes "--";
  gateways = gateways;
  active_speed = codes "-- ms";
  active_country = codes "Country: None";
  card = none;
  bar = none;
}

abbrev answer : StatusReply
answer = record {
  pool = record {
    total = 4;
    alive = 3;
    dead = 1;
    dead_retryable = 0;
    blacklisted = 0;
    unchecked = 0;
  };
  total_blocked = 7;
  rules_count = 2;
  avg_score = 815;
  active = none;
  gateways = none;
}

abbrev odd : ActiveProxy
odd = record {
  ip = codes "192.0.2.1";
  port = 1080;
  country = codes "<b>";
  city = [];
  kind = [];
  speed_ms = 40;
  response_time_ms = 0;
  ping = 0;
  score = none;
  ssl_verified = false;
}

odd_country : ¬ All IsInert odd.country
odd_country h = h.0.0 refl

card_of-raw_example : ¬ All IsInert (card_of odd).location
card_of-raw_example = card_of-raw odd odd_country
