-- ===== src/Web/Import/Laws.antt =====
-- What an import can not bring in, and that its ids differ.
use proxy_redirector.Prelude.{
  ℕ, zero, suc, ◌+◌, ◌<◌, ◌≡◌, ◌≢◌, refl, sym, ap, subst, ◌∙◌, false, Option, none, some, List, [],
  ◌∷◌, ◌++◌, All, arith, Bool-cases, inl, inr,
}
use proxy_redirector.Text.{Text, codes, text_eq, includes, decimal, parse_int}
use proxy_redirector.Text.Laws.{text_eq→eq, append_cancel}
use proxy_redirector.Text.Numbers.{IsDigit, decimal-IsDigit, parse_int-decimal}
use proxy_redirector.Text.Trim.Laws.{Lacks, split-parts, split-All, trim-All}
use proxy_redirector.Text.Integers.{ℤ, pos, negsuc}
use proxy_redirector.Dashboard.Table.Selection.{has}
use proxy_redirector.Dashboard.Table.Selection.Laws.{IsDistinct}
use proxy_redirector.Web.Pool.{StaticProxy, ids_of}
use proxy_redirector.Web.Import.{
  ImportForm, lines_of, parts_of, default_port, port_or, imported_id, parse_parts, push_some,
  parse_lines, check_parsed, import_lines, imported, parse_and_import,
}

-- A colon that is missing from a text is found nowhere in it.
includes-Lacks : (s : Text) → includes s (b':' ∷ []) ≡ false → Lacks b':' s
includes-Lacks [] h = tt
includes-Lacks (c ∷ s) h = (ground (arith, h), includes-Lacks s (ground (arith, h)))

parts_of-Lacks : (line : Text) → All (Lacks b':') (parts_of line)
unfolding parts_of
parts_of-Lacks line = elim (Bool-cases (includes line (b':' ∷ []))) [
  | inl e ↦ rw e (split-parts b':' line)
  | inr e ↦ rw e (split-All _ b',' line (includes-Lacks line e))
]

port_or-nonzero : (p : Option ℤ) (d : ℤ) → d ≢ pos 0 → port_or p d ≢ pos 0
port_or-nonzero none d h = h
port_or-nonzero (some (pos zero)) d h = h
port_or-nonzero (some (pos (suc n))) d h = λ e. cc
port_or-nonzero (some (negsuc n)) d h = λ e. cc

default_port-nonzero : (protocol : Text) → default_port protocol ≢ pos 0
default_port-nonzero protocol = elim (Bool-cases (text_eq protocol (codes "socks5"))) [
  | inl e ↦ rw e (λ k. ground arith)
  | inr e ↦ rw e (λ k. ground arith)
]

-- What an import promises of each proxy: no colon in the address, a port, the kind that was chosen.
pub record IsImported (form : ImportForm) (px : StaticProxy) : Type 0 where
  pub ip : Lacks b':' px.ip
  pub port : px.port ≢ pos 0
  pub protocol : px.protocol ≡ form.protocol
  pub country : px.country_code ≡ form.default_country

module _ (form : ImportForm) (clock draws : ℕ → ℕ) where
  push-IsImported :
      (i : ℕ) (parts : List Text) (pxs : List StaticProxy)
      → All (Lacks b':') parts
      → All (IsImported form) pxs
      → All (IsImported form) (push_some (parse_parts form (clock i) (draws i) i parts) pxs)
  unfolding parse_parts
  push-IsImported i [] pxs h k = k
  push-IsImported i (ip ∷ []) pxs h k = k
  push-IsImported i (ip ∷ port ∷ more) pxs h k = (
    record {
      ip = trim-All _ ip h.0;
      port = port_or-nonzero _ (default_port form.protocol) (default_port-nonzero form.protocol);
      protocol = refl;
      country = refl;
    },
    k,
  )

  parse_lines-IsImported :
      (i : ℕ) (ls : List Text) → All (IsImported form) (parse_lines form clock draws i ls)
  unfolding parse_lines
  parse_lines-IsImported i [] = tt
  parse_lines-IsImported i (l ∷ ls) =
      push-IsImported i (parts_of l) _ (parts_of-Lacks l) (parse_lines-IsImported (i + 1) ls)

no_digit : {A : Type 0} → IsDigit b'_' → A
no_digit h = absurd (ground arith)

-- Behind a number, an underscore is found where the number ends.
cut_number :
    (a b x y : Text) → All IsDigit a → All IsDigit b → a ++ b'_' ∷ x ≡ b ++ b'_' ∷ y → x ≡ y
cut_number [] [] x y h k e = cc
cut_number [] (d ∷ b) x y h k e =
    let same : b'_' ≡ d = cc in no_digit (subst IsDigit (sym same) k.0)
cut_number (c ∷ a) [] x y h k e =
    let same : b'_' ≡ c = cc in no_digit (subst IsDigit (sym same) h.0)
cut_number (c ∷ a) (d ∷ b) x y h k e = cut_number a b x y h.1 k.1 cc

imported_id_inj : (m n i j : ℕ) → imported_id m i ≡ imported_id n j → i ≡ j
unfolding imported_id
imported_id_inj m n i j h =
    let e = append_cancel (codes "px_imported_") _ _ h in
    let d : decimal i ≡ decimal j =
      cut_number (decimal m) (decimal n) (decimal i) (decimal j) (decimal-IsDigit m)
        (decimal-IsDigit n) e in
    let p : some i ≡ some j = sym (parse_int-decimal i) ∙ ap parse_int d ∙ parse_int-decimal j in cc

imported_id_differs : (m n i j : ℕ) → i < j → text_eq (imported_id n j) (imported_id m i) ≡ false
imported_id_differs m n i j h = elim (Bool-cases (text_eq (imported_id n j) (imported_id m i))) [
  | inl e ↦ absurd (omega (arith, imported_id_inj n m j i (text_eq→eq _ _ e)))
  | inr e ↦ e
]

module _ (form : ImportForm) (clock draws : ℕ → ℕ) where
  has-push :
      (i j : ℕ) (parts : List Text) (pxs : List StaticProxy)
      → j < i
      → has (ids_of pxs) (imported_id (clock j) j) ≡ false
      → has
          (ids_of (push_some (parse_parts form (clock i) (draws i) i parts) pxs))
          (imported_id (clock j) j)
        ≡ false
  unfolding parse_parts
  has-push i j [] pxs lt h = h
  has-push i j (ip ∷ []) pxs lt h = h
  has-push i j (ip ∷ port ∷ more) pxs lt h = rw (imported_id_differs (clock j) (clock i) j i lt) h

  has-parse_lines :
      (i j : ℕ) (ls : List Text)
      → j < i
      → has (ids_of (parse_lines form clock draws i ls)) (imported_id (clock j) j) ≡ false
  unfolding parse_lines
  has-parse_lines i j [] lt = refl
  has-parse_lines i j (l ∷ ls) lt =
      has-push i j (parts_of l) _ lt (has-parse_lines (i + 1) j ls (omega arith))

  push-IsDistinct :
      (i : ℕ) (parts : List Text) (pxs : List StaticProxy)
      → has (ids_of pxs) (imported_id (clock i) i) ≡ false
      → IsDistinct (ids_of pxs)
      → IsDistinct (ids_of (push_some (parse_parts form (clock i) (draws i) i parts) pxs))
  unfolding parse_parts
  push-IsDistinct i [] pxs new h = h
  push-IsDistinct i (ip ∷ []) pxs new h = h
  push-IsDistinct i (ip ∷ port ∷ more) pxs new h = (new, h)

  parse_lines-IsDistinct :
      (i : ℕ) (ls : List Text) → IsDistinct (ids_of (parse_lines form clock draws i ls))
  unfolding parse_lines
  parse_lines-IsDistinct i [] = tt
  parse_lines-IsDistinct i (l ∷ ls) =
      push-IsDistinct i (parts_of l) _ (has-parse_lines (i + 1) i ls (omega arith))
        (parse_lines-IsDistinct (i + 1) ls)

  import_lines-some :
      (ls : List Text) (pxs : List StaticProxy)
      → import_lines form clock draws ls ≡ imported pxs
      → parse_lines form clock draws 0 ls ≡ pxs
  unfolding parse_lines
  import_lines-some [] pxs h = cc
  import_lines-some (l ∷ ls) pxs h = checked (parse_lines form clock draws 0 (l ∷ ls)) h
    where
      checked : (qs : List StaticProxy) → check_parsed qs ≡ imported pxs → qs ≡ pxs
      checked [] k = cc
      checked (q ∷ qs) k = cc

  -- Whatever is pasted, every proxy of an import has an address with no colon in it, a port that is
  -- not 0, and the kind and the country that were chosen; and their ids differ.
  pub parse_and_import-IsImported :
      (pxs : List StaticProxy)
      → parse_and_import form clock draws ≡ imported pxs
      → All (IsImported form) pxs × IsDistinct (ids_of pxs)
  unfolding parse_and_import
  parse_and_import-IsImported pxs h =
      let e = import_lines-some (lines_of form.raw_text) pxs h in
      (
        subst (All (IsImported form)) e
            (parse_lines-IsImported form clock draws 0 (lines_of form.raw_text)),
        subst (λ qs. IsDistinct (ids_of qs)) e (parse_lines-IsDistinct 0 (lines_of form.raw_text)),
      )
