-- ===== src/Dashboard/Table/Rows.antt =====
-- One row of `renderProxiesTable` of engine/static/app.js: what the template's placeholders hold.
use proxy_redirector.Prelude.{
  ℕ, suc, ◌+◌, Bool, Option, none, some, List, [], ◌∷◌, ◌++◌, ◌==◌, or_number, if◌then◌else◌,
}
use proxy_redirector.Text.{Text, codes, or_text, to_upper}
use proxy_redirector.Dashboard.Escape.{text, number, escape_html}
use proxy_redirector.Dashboard.Items.{Item, proxy_of, status_of, select_id, is_alive, score_of}
use proxy_redirector.Dashboard.Table.Selection.{Ids, has}

-- `id` is the id as the row's handlers and its checkbox use it: escaped.
pub record Row : Type 0 where
  pub number : ℕ
  pub endpoint : Text
  pub id : Text
  pub is_checked : Bool
  pub type : Text
  pub country : Text
  pub is_alive : Bool
  pub speed : Option ℕ
  pub score : ℕ
  pub ssl_verified : Bool
  pub failures : ℕ

-- `s.response_time_ms ? … : (p.ping ? … : '--')`
abbrev speed_of : ℕ → ℕ → Option ℕ
speed_of response ping =
    if response == 0 then (if ping == 0 then none else some ping) else some response

unfoldable pub row : Ids → ℕ → Item → Row
row selected index item =
    let p = proxy_of item in
    let s = status_of item in
    let id = escape_html (text (select_id p)) in
    record {
      number = index + 1;
      endpoint = escape_html (text p.ip) ++ codes ":" ++ escape_html (number p.port);
      id = id;
      is_checked = has selected id;
      type = escape_html (text (to_upper (or_text p.type (codes "SOCKS5"))));
      country = escape_html (text (or_text p.country (codes "??")));
      is_alive = is_alive item;
      speed = speed_of s.response_time_ms p.ping;
      score = score_of item;
      ssl_verified = s.ssl_verified;
      failures = or_number s.consecutive_failures 0;
    }

-- The `forEach` over the page; `index` starts at `startIndex`.
unfoldable pub rows : Ids → ℕ → List Item → List Row
rows selected index [] = []
rows selected index (item ∷ items) = row selected index item ∷ rows selected (suc index) items
