-- ===== src/Dashboard/Blocklist.antt =====
-- The rules of the ad blocker and the connected devices of engine/static/app.js: what is fetched,
-- the rows that are drawn, the search, and the exceptions. `Object.entries` of the rules is a list
-- of pairs in their order.
pub mod Laws
use proxy_redirector.Prelude.{
  ℕ, Bool, true, false, not, ◌&&◌, ◌||◌, Option, none, some, List, [], ◌∷◌, map, filter, length,
  or_number, ◌==◌, if◌then◌else◌,
}
use proxy_redirector.Text.{
  Text, codes, text_eq, is_empty, or_text, to_lower, to_upper, includes, decimal,
}
use proxy_redirector.Text.Trim.{trim}
use proxy_redirector.Dashboard.Escape.{escape_html, text}

-- A domain and its category.
abbrev pub Rule : Type 0
Rule = Text × Text

-- `categories` of the answer, a field for each checkbox; a missing one is true.
pub record Categories : Type 0 where
  pub ads : Bool
  pub tracking : Bool
  pub malware : Bool
  pub custom : Bool

-- The answer of /api/blocklist; `enabled` may be missing.
pub record BlocklistReply : Type 0 where
  pub rules : List Rule
  pub whitelist : List Text
  pub enabled : Option Bool
  pub categories : Categories

-- A row of the table, with its texts as they stand in the HTML; `argument` stands in the handler.
pub record RuleRow : Type 0 where
  pub domain : Text
  pub category : Text
  pub argument : Text

pub record WhitelistRow : Type 0 where
  pub domain : Text
  pub argument : Text

-- An empty list of rows is drawn as a hint.
pub record Blocklist : Type 0 where
  pub cached_rules : List Rule
  pub cached_whitelist : List Text
  pub rule_rows : List RuleRow
  pub whitelist_rows : List WhitelistRow
  pub whitelist_count : ℕ
  pub master : Bool
  pub categories : Categories

unfoldable pub rule_row : Rule → RuleRow
rule_row r = record {
  domain = escape_html (text r.0);
  category = escape_html (text r.1);
  argument = escape_html (text r.0);
}

-- `renderRulesTable`
abbrev pub rule_rows_of : List Rule → List RuleRow
rule_rows_of = map rule_row

unfoldable pub whitelist_row : Text → WhitelistRow
whitelist_row d = record { domain = escape_html (text d); argument = escape_html (text d) }

abbrev pub set_master : Option Bool → Bool → Bool
set_master none old = old
set_master (some b) old = b

-- `fetchBlocklist`; `none` is a request that fails or is refused.
unfoldable pub fetch_blocklist : Option BlocklistReply → Blocklist → Blocklist
unfolding rule_row whitelist_row
fetch_blocklist none b = b
fetch_blocklist (some r) b = record {
  cached_rules = r.rules;
  cached_whitelist = r.whitelist;
  rule_rows = rule_rows_of r.rules;
  whitelist_rows = map whitelist_row r.whitelist;
  whitelist_count = length r.whitelist;
  master = set_master r.enabled b.master;
  categories = r.categories;
}

-- The test of `filterRulesTable`, for a field of the search
unfoldable pub matches_rule : Text → Rule → Bool
matches_rule field r =
    includes (to_lower r.0) (to_lower field) || includes (to_lower r.1) (to_lower field)

-- `filterRulesTable`
unfoldable pub filter_rules : Text → Blocklist → Blocklist
unfolding rule_row
filter_rules field b = record b {
  rule_rows = rule_rows_of (filter (matches_rule field) b.cached_rules);
}

-- What the form of the exceptions sends to /api/blocklist/rules, if it sends anything:
-- `submitWhitelistRule`
unfoldable pub submit_whitelist_rule : Text → Option (Text × Text)
submit_whitelist_rule field =
    let domain = trim field in
    if is_empty domain then none else some (codes "add_whitelist", domain)

-- `removeWhitelistRule`
unfoldable pub remove_whitelist_rule : Text → Text × Text
remove_whitelist_rule domain = (codes "remove_whitelist", domain)

-- A device of /api/devices, with its latency in milliseconds.
pub record Device : Type 0 where
  pub ip : Text
  pub protocol : Text
  pub request_count : ℕ
  pub avg_latency : ℕ
  pub last_seen : Text

pub record DeviceRow : Type 0 where
  pub ip : Text
  pub is_gateway : Bool
  pub protocol : Text
  pub request_count : ℕ
  pub latency : Option ℕ
  pub last_seen : Text

-- `s.endsWith('.1')`
abbrev pub ends_dot_one : Text → Bool
ends_dot_one [] = false
ends_dot_one (c ∷ s) = text_eq (c ∷ s) (codes ".1") || ends_dot_one s

unfoldable pub device_row : Device → DeviceRow
device_row d = record {
  ip = escape_html (text d.ip);
  is_gateway = ends_dot_one d.ip || text_eq d.ip (codes "127.0.0.1");
  protocol = escape_html (text (to_upper (or_text d.protocol (codes "SOCKS5"))));
  request_count = or_number d.request_count 1;
  latency = if d.avg_latency == 0 then none else some d.avg_latency;
  last_seen = escape_html (text (or_text d.last_seen (codes "Just now")));
}

-- `cachedDevices`, the rows, and the number beside the tab
pub record Devices : Type 0 where
  pub cached : List Device
  pub rows : List DeviceRow
  pub count : ℕ

-- `fetchDevices`
unfoldable pub fetch_devices : Option (List Device) → Devices → Devices
unfolding device_row
fetch_devices none d = d
fetch_devices (some ds) d = record { cached = ds; rows = map device_row ds; count = length ds }
