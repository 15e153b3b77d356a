-- ===== src/Dashboard/Escape.antt =====
-- `escapeHtml` of engine/static/app.js.
pub mod Laws
use proxy_redirector.Prelude.{ℕ, List, [], ◌∷◌, ◌==◌, if◌then◌else◌}
use proxy_redirector.Text.{Text, codes, replace_all, decimal}

-- The values that the page's templates pass to `escapeHtml`. A missing field is `undefined`.
pub data Scalar : Type 0 where
  text : Text → Scalar
  number : ℕ → Scalar
  undefined : Scalar

-- The five `replace` calls on a text, in their order.
escape_text : Text → Text
escape_text s =
    let a = replace_all b'&' (codes "&amp;") s in
    let b = replace_all b'<' (codes "&lt;") a in
    let c = replace_all b'>' (codes "&gt;") b in
    let d = replace_all b'"' (codes "&quot;") c in replace_all 39 (codes "&#039;") d

-- `String(str || '')` of what is no text: 0 and a missing value print as the empty text.
unfoldable pub escape_html : Scalar → Text
unfolding escape_text replace_all decimal
escape_html (text s) = escape_text s
escape_html (number n) = if n == 0 then [] else decimal n
escape_html undefined = []
