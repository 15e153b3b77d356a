-- ===== src/Examples/Traffic.antt =====
-- The theorems on the traffic stream and the analytics of engine/static/app.js.
use proxy_redirector.Prelude.{◌<◌, ◌≤◌, true, false, none, some, List, [], ◌∷◌, arith, sum}
use proxy_redirector.Text.{codes}
use proxy_redirector.Dashboard.Items.{Item, Proxy, Status, score_of}
use proxy_redirector.Dashboard.Traffic.{Entry, Stream}
use proxy_redirector.Prelude.Sorting.{sort}
use proxy_redirector.Dashboard.Analytics.{
  summary, add_items, add_item, add_speed, top_items, by_score, score_after,
}
use proxy_redirector.Dashboard.Charts.{latency_bars}
use proxy_redirector.Dashboard.Charts.Laws.{tenths_of, latency_bars-sum}

abbrev blocked_entry : Entry
blocked_entry = record {
  timestamp = codes "12:00:01";
  status = codes "blocked";
  client = codes "192.168.1.4";
  protocol = codes "socks5";
  destination = codes "<ads>.example:443";
  latency = 3;
}

abbrev sent_entry : Entry
sent_entry = record blocked_entry { status = codes "forwarded"; destination = codes "a.example:80" }

abbrev stream : Stream
stream = record {
  buffer = sent_entry ∷ blocked_entry ∷ [];
  is_paused = false;
  status_filter = codes "blocked";
  query = codes "ADS";
}

abbrev german : Proxy
german = record {
  id = codes "a1";
  ip = codes "10.0.0.7";
  port = 1080;
  type = codes "SOCKS5";
  country = codes "DE";
  ping = 120;
  alive = true;
}

abbrev status_timed : Status
status_timed = record {
  alive = true;
  response_time_ms = 640;
  ssl_verified = true;
  consecutive_failures = 0;
  total_checks = 4;
  total_successes = 3;
  score = 71;
  tags = [];
}

abbrev checked : Item
checked = record { proxy = some german; own = german; status = some status_timed; score = 0 }

abbrev unchecked_item : Item
unchecked_item = record {
  proxy = none;
  own = record german { country = [] };
  status = none;
  score = 90;
}

abbrev items : List Item
items = checked ∷ unchecked_item ∷ []

items_timed : 0 < (summary items).speed_count
unfolding summary add_items add_item add_speed top_items by_score sort score_after score_of
items_timed = omega arith

latency_bars-sum_example :
    let s = sum (tenths_of (latency_bars (summary items).latencies)) in (999 ≤ s) × (s ≤ 1002)
latency_bars-sum_example = latency_bars-sum items items_timed
