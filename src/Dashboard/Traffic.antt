-- ===== src/Dashboard/Traffic.antt =====
-- The traffic stream of engine/static/app.js: the buffer, its pause, and `renderTrafficStream`.
pub mod Laws
use proxy_redirector.Prelude.{
  ℕ, Bool, true, false, ◌&&◌, ◌||◌, not, List, [], ◌∷◌, ltb, if◌then◌else◌, length, take, filter,
}
use proxy_redirector.Text.{Text, codes, text_eq, is_empty, includes, to_lower, to_upper, or_text}
use proxy_redirector.Dashboard.Escape.{text, escape_html}

pub record Entry : Type 0 where
  pub timestamp : Text
  pub status : Text
  pub client : Text
  pub protocol : Text
  pub destination : Text
  pub latency : ℕ

-- `status_filter` and `query` are what the two input fields hold.
pub record Stream : Type 0 where
  pub buffer : List Entry
  pub is_paused : Bool
  pub status_filter : Text
  pub query : Text

-- `if (trafficBuffer.length > 500) trafficBuffer.length = 500`
abbrev pub buffer_limit : ℕ
buffer_limit = 500

-- The code slices the rows at 100.
abbrev pub row_limit : ℕ
row_limit = 100

unfoldable pub push_traffic_entry : Entry → Stream → Stream
push_traffic_entry entry s =
    let longer = entry ∷ s.buffer in
    record s {
      buffer = if ltb buffer_limit (length longer) then take buffer_limit longer else longer;
    }

unfoldable pub clear_traffic_log : Stream → Stream
clear_traffic_log s = record s { buffer = [] }

unfoldable pub toggle_traffic_pause : Stream → Stream
toggle_traffic_pause s = record s { is_paused = not s.is_paused }

-- `fetchTraffic` for a response that is a list.
unfoldable pub fetch_traffic : List Entry → Stream → Stream
fetch_traffic items s =
    if s.is_paused then s else if ltb 0 (length items) then record s { buffer = items } else s

-- `statusFilter === 'all' || …`; an empty field reads as 'all'.
unfoldable pub matches_status : Text → Entry → Bool
matches_status field entry =
    let status_filter = or_text field (codes "all") in
    text_eq status_filter (codes "all") || text_eq entry.status status_filter

-- `entry.field && entry.field.toLowerCase().includes(q)`
abbrev pub field_includes : Text → Text → Bool
field_includes field q = not (is_empty field) && includes (to_lower field) q

unfoldable pub matches_search : Text → Entry → Bool
matches_search field entry =
    let q = to_lower field in
    is_empty q
    || field_includes entry.destination q
    || field_includes entry.client q
    || field_includes entry.protocol q

unfoldable pub matches : Stream → Entry → Bool
matches s entry = matches_status s.status_filter entry && matches_search s.query entry

pub data Badge : Type 0 where
  forwarded blocked failed : Badge

-- The row's texts; `timestamp` stays empty where the code prints the present time.
pub record Row : Type 0 where
  pub timestamp : Text
  pub badge : Badge
  pub client : Text
  pub protocol : Text
  pub destination : Text
  pub latency : ℕ

unfoldable pub badge_of : Entry → Badge
badge_of entry =
    if text_eq entry.status (codes "blocked")
    then blocked
    else if text_eq entry.status (codes "failed")
    then failed
    else forwarded

unfoldable pub row : Entry → Row
row entry = record {
  timestamp = escape_html (text entry.timestamp);
  badge = badge_of entry;
  client = escape_html (text (or_text entry.client (codes "127.0.0.1")));
  protocol = escape_html (text (to_upper (or_text entry.protocol (codes "HTTP"))));
  destination = escape_html (text (or_text entry.destination (codes "-")));
  latency = entry.latency;
}

pub data Shown : Type 0 where
  awaiting no_match : Shown
  rows : List Row → Shown

abbrev pub row_list : List Entry → List Row
row_list [] = []
row_list (e ∷ es) = row e ∷ row_list es

unfoldable pub render_traffic_stream : Stream → Shown
render_traffic_stream s =
    let filtered = filter (matches s) s.buffer in
    if ltb 0 (length s.buffer)
    then (if ltb 0 (length filtered) then rows (row_list (take row_limit filtered)) else no_match)
    else awaiting
