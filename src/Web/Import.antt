-- ===== src/Web/Import.antt =====
-- `handleParseAndImport` in saas/frontend/src/components/modals/BulkImportModal.tsx. The time that is
-- read and the latency that is drawn for each line are arguments; latencies are in tenths of a millisecond,
-- uptimes in hundredths of a percent.
pub mod Laws
use proxy_redirector.Prelude.{
  ℕ, zero, suc, ◌+◌, Bool, true, false, not, Option, none, some, List, [], ◌∷◌, ◌++◌, map, filter,
  ◌==◌, if◌then◌else◌,
}
use proxy_redirector.Text.{Text, codes, text_eq, is_empty, includes, decimal}
use proxy_redirector.Text.Trim.{trim, split}
use proxy_redirector.Text.Integers.{ℤ, pos, negsuc, parse_integer}
use proxy_redirector.Web.Pool.{StaticProxy}

pub record ImportForm : Type 0 where
  pub raw_text : Text
  pub protocol : Text
  pub default_country : Text

-- `rawText.split('\n').map((l) => l.trim()).filter(Boolean)`
unfoldable pub lines_of : Text → List Text
lines_of raw = filter (λ l. not (is_empty l)) (map trim (split 10 raw))

-- `line.includes(':') ? line.split(':') : line.split(',')`
unfoldable pub parts_of : Text → List Text
parts_of line = if includes line (b':' ∷ []) then split b':' line else split b',' line

abbrev pub default_port : Text → ℤ
default_port protocol = if text_eq protocol (codes "socks5") then pos 1080 else pos 8080

-- `parseInt(…) || …`
abbrev pub port_or : Option ℤ → ℤ → ℤ
port_or none d = d
port_or (some (pos zero)) d = d
port_or (some (pos (suc n))) d = pos (suc n)
port_or (some (negsuc n)) d = negsuc n

-- The id of the proxy of a line.
unfoldable pub imported_id : ℕ → ℕ → Text
imported_id now i = codes "px_imported_" ++ decimal now ++ b'_' ∷ decimal i

-- What the loop pushes for the parts of line `i`.
unfoldable pub imported_proxy : ImportForm → ℕ → ℕ → ℕ → Text → Text → StaticProxy
unfolding imported_id
imported_proxy form now latency i ip port = record {
  id = imported_id now i;
  ip = trim ip;
  port = port_or (parse_integer (trim port)) (default_port form.protocol);
  protocol = form.protocol;
  country_code = form.default_country;
  city =
      if text_eq form.default_country (codes "US")
      then codes "New York"
      else if text_eq form.default_country (codes "DE")
      then codes "Frankfurt"
      else codes "London";
  isp_name = codes "Bulk Imported Enterprise ISP";
  fraud_score = 0;
  last_latency = latency;
  uptime = 9999;
  is_alive = true;
}

-- One round of the loop: a line with less than two parts gives nothing.
unfoldable pub parse_parts : ImportForm → ℕ → ℕ → ℕ → List Text → Option StaticProxy
unfolding imported_proxy
parse_parts form now latency i [] = none
parse_parts form now latency i (ip ∷ []) = none
parse_parts form now latency i (ip ∷ port ∷ more) = some (imported_proxy form now latency i ip port)

abbrev pub push_some : Option StaticProxy → List StaticProxy → List StaticProxy
push_some none pxs = pxs
push_some (some px) pxs = px ∷ pxs

-- The loop from line `i` on; `clock i` and `draws i` are the time that is read and the
-- latency that is drawn for that line.
unfoldable pub parse_lines : ImportForm → (ℕ → ℕ) → (ℕ → ℕ) → ℕ → List Text → List StaticProxy
unfolding parse_parts parts_of
parse_lines form clock draws i [] = []
parse_lines form clock draws i (l ∷ ls) =
    push_some (parse_parts form (clock i) (draws i) i (parts_of l))
      (parse_lines form clock draws (i + 1) ls)

-- The two refusals, and the list handed to `onImport`.
pub data ImportResult : Type 0 where
  no_input bad_format : ImportResult
  imported : List StaticProxy → ImportResult

abbrev pub check_parsed : List StaticProxy → ImportResult
check_parsed [] = bad_format
check_parsed (px ∷ pxs) = imported (px ∷ pxs)

abbrev pub import_lines : ImportForm → (ℕ → ℕ) → (ℕ → ℕ) → List Text → ImportResult
import_lines form clock draws [] = no_input
import_lines form clock draws (l ∷ ls) = check_parsed (parse_lines form clock draws 0 (l ∷ ls))

-- `handleParseAndImport`
unfoldable pub parse_and_import : ImportForm → (ℕ → ℕ) → (ℕ → ℕ) → ImportResult
unfolding lines_of parse_lines
parse_and_import form clock draws = import_lines form clock draws (lines_of form.raw_text)

-- The field after the form was sent: an import clears it.
unfoldable pub form_after : ImportResult → ImportForm → ImportForm
form_after no_input form = form
form_after bad_format form = form
form_after (imported pxs) form = record form { raw_text = [] }
