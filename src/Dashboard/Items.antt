-- ===== src/Dashboard/Items.antt =====
-- What `/api/proxies` returns, and the fallbacks by which engine/static/app.js reads it. A missing
-- field is read as the falsy value of its type: "", 0 or false. Times are in whole milliseconds;
-- scores are natural numbers (of a fixed fraction of a point).
use proxy_redirector.Prelude.{ℕ, Bool, false, ◌||◌, Option, none, some, List, [], ◌++◌, or_number}
use proxy_redirector.Text.{Text, codes, or_text, decimal}

pub record Proxy : Type 0 where
  pub id : Text
  pub ip : Text
  pub port : ℕ
  pub type : Text
  pub country : Text
  pub ping : ℕ
  pub alive : Bool

pub record Status : Type 0 where
  pub alive : Bool
  pub response_time_ms : ℕ
  pub ssl_verified : Bool
  pub consecutive_failures : ℕ
  pub total_checks : ℕ
  pub total_successes : ℕ
  pub score : ℕ
  pub tags : List Text

-- An item holds its proxy in a field, or is the proxy itself (`own`).
pub record Item : Type 0 where
  pub proxy : Option Proxy
  pub own : Proxy
  pub status : Option Status
  pub score : ℕ

abbrev pub empty_status : Status
empty_status = record {
  alive = false;
  response_time_ms = 0;
  ssl_verified = false;
  consecutive_failures = 0;
  total_checks = 0;
  total_successes = 0;
  score = 0;
  tags = [];
}

-- `item.proxy || item`
unfoldable pub proxy_of : Item → Proxy
proxy_of item = elim item.proxy [ none ↦ item.own | some p ↦ p ]

-- `item.status || {}`
unfoldable pub status_of : Item → Status
status_of item = elim item.status [ none ↦ empty_status | some s ↦ s ]

-- `p.id || `${p.ip}_${p.port}``
unfoldable pub select_id : Proxy → Text
select_id p = or_text p.id (p.ip ++ codes "_" ++ decimal p.port)

-- `${p.ip}:${p.port}`
unfoldable pub endpoint : Proxy → Text
endpoint p = p.ip ++ codes ":" ++ decimal p.port

-- `s.alive || p.alive`
unfoldable pub is_alive : Item → Bool
unfolding proxy_of status_of
is_alive item = (status_of item).alive || (proxy_of item).alive

-- `item.score || s.score || 0`
unfoldable pub score_of : Item → ℕ
unfolding status_of
score_of item = or_number item.score (or_number (status_of item).score 0)
