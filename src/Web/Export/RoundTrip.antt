-- ===== src/Web/Export/RoundTrip.antt =====
-- An exported text file is imported again.
use proxy_redirector.Prelude.{
  ℕ, zero, suc, ◌+◌, ◌≡◌, ◌≢◌, refl, ap, ap₂, ◌∙◌, false, some, List, [], ◌∷◌, ◌++◌, map, filter,
  not, All, All-append, arith,
}
use proxy_redirector.Text.{Text, is_empty}
use proxy_redirector.Text.Laws.{includes-append}
use proxy_redirector.Text.Trim.{trim, split, join}
use proxy_redirector.Text.Trim.Laws.{NoSpace, Lacks, trim-NoSpace, split-append, split-join}
use proxy_redirector.Text.Integers.{
  ℤ, pos, negsuc, show_integer, parse_integer, parse_integer-show_integer, IsDigitOrMinus,
  show_integer-IsDigitOrMinus,
}
use proxy_redirector.Web.Pool.{StaticProxy}
use proxy_redirector.Web.Import.{
  ImportForm, lines_of, parts_of, default_port, port_or, imported_proxy, parse_parts, parse_lines,
  check_parsed, import_lines, imported, parse_and_import,
}
use proxy_redirector.Web.Export.{
  Encoders, Credentials, user_of, pass_of, txt, txt_line, export_proxies,
}

NoSpace-Lacks : (s : Text) → NoSpace s → Lacks 10 s
NoSpace-Lacks [] h = tt
NoSpace-Lacks (c ∷ s) h = (ground (arith, h.0), NoSpace-Lacks s h.1)

number-NoSpace : (s : Text) → All IsDigitOrMinus s → NoSpace s
number-NoSpace [] h = tt
number-NoSpace (c ∷ s) h = (ground (arith, h.0), number-NoSpace s h.1)

number-Lacks : (s : Text) → All IsDigitOrMinus s → Lacks b':' s
number-Lacks [] h = tt
number-Lacks (c ∷ s) h = (ground (arith, h.0), number-Lacks s h.1)

-- A proxy whose line can be read back: no space or colon in the address, and a port.
pub record IsPlain (p : StaticProxy) : Type 0 where
  pub no_space : NoSpace p.ip
  pub no_colon : Lacks b':' p.ip
  pub port : p.port ≢ pos 0

-- What a line of the text file says of the proxy.
abbrev pub address : StaticProxy → Text × ℤ
address p = (p.ip, p.port)

port_or-some : (z d : ℤ) → z ≢ pos 0 → port_or (some z) d ≡ z
port_or-some (pos zero) d h = absurd (h refl)
port_or-some (pos (suc n)) d h = refl
port_or-some (negsuc n) d h = refl

check_parsed-some :
    (a : Text × ℤ) (more : List (Text × ℤ)) (pxs : List StaticProxy)
    → map address pxs ≡ a ∷ more
    → check_parsed pxs ≡ imported pxs
check_parsed-some a more [] h = cc
check_parsed-some a more (px ∷ pxs) h = refl

module _ (c : Credentials) (user : NoSpace (user_of c)) (pass : NoSpace (pass_of c)) where
  txt_line-NoSpace : (p : StaticProxy) → IsPlain p → NoSpace (txt_line c p)
  unfolding txt_line
  txt_line-NoSpace p h = All-append _ p.ip _ h.no_space (
    refl,
    All-append _ (show_integer p.port) _ (number-NoSpace _ (show_integer-IsDigitOrMinus p.port))
        (refl, All-append _ (user_of c) _ user (refl, pass)),
  )

  parts_of-txt_line :
      (p : StaticProxy)
      → IsPlain p
      → parts_of (txt_line c p)
        ≡ p.ip ∷ show_integer p.port ∷ split b':' (user_of c ++ b':' ∷ pass_of c)
  unfolding parts_of txt_line
  parts_of-txt_line p h =
      rw
        (
          includes-append p.ip (b':' ∷ [])
              (show_integer p.port ++ b':' ∷ (user_of c ++ b':' ∷ pass_of c)),
          split-append b':' p.ip (show_integer p.port ++ b':' ∷ (user_of c ++ b':' ∷ pass_of c))
              h.no_colon,
          split-append b':' (show_integer p.port) (user_of c ++ b':' ∷ pass_of c)
              (number-Lacks _ (show_integer-IsDigitOrMinus p.port)),
        )
        refl

  address-imported_proxy :
      (form : ImportForm) (now latency i : ℕ) (p : StaticProxy)
      → IsPlain p
      → address (imported_proxy form now latency i p.ip (show_integer p.port)) ≡ address p
  unfolding imported_proxy
  address-imported_proxy form now latency i p h =
      let port : port_or (parse_integer (trim (show_integer p.port))) (default_port form.protocol)
          ≡ p.port =
        rw
          (
            trim-NoSpace (show_integer p.port)
                (number-NoSpace _ (show_integer-IsDigitOrMinus p.port)),
            parse_integer-show_integer p.port,
          )
          (port_or-some p.port (default_port form.protocol) h.port) in
      ap₂ (λ ip z. (ip, z)) (trim-NoSpace p.ip h.no_space) port

  parse_lines-txt_line :
      (form : ImportForm) (clock draws : ℕ → ℕ) (i : ℕ) (ps : List StaticProxy)
      → All IsPlain ps
      → map address (parse_lines form clock draws i (map (txt_line c) ps)) ≡ map address ps
  unfolding parse_lines parse_parts
  parse_lines-txt_line form clock draws i [] h = refl
  parse_lines-txt_line form clock draws i (p ∷ ps) h = rw (parts_of-txt_line p h.0) (
      ap₂ ◌∷◌ (address-imported_proxy form (clock i) (draws i) i p h.0)
        (parse_lines-txt_line form clock draws (i + 1) ps h.1))

  txt_lines-Lacks : (ps : List StaticProxy) → All IsPlain ps → All (Lacks 10) (map (txt_line c) ps)
  txt_lines-Lacks [] h = tt
  txt_lines-Lacks (p ∷ ps) h = (NoSpace-Lacks _ (txt_line-NoSpace p h.0), txt_lines-Lacks ps h.1)

  txt_line-nonempty : (p : StaticProxy) → is_empty (txt_line c p) ≡ false
  unfolding txt_line
  txt_line-nonempty p = by_ip p.ip
    where
      by_ip :
          (ip : Text)
          → is_empty (ip ++ b':' ∷ (show_integer p.port ++ b':' ∷ (user_of c ++ b':' ∷ pass_of c)))
            ≡ false
      by_ip [] = refl
      by_ip (x ∷ xs) = refl

  trim-txt_lines :
      (ps : List StaticProxy)
      → All IsPlain ps
      → filter (λ l. not (is_empty l)) (map trim (map (txt_line c) ps)) ≡ map (txt_line c) ps
  trim-txt_lines [] h = refl
  trim-txt_lines (p ∷ ps) h =
      rw (trim-NoSpace _ (txt_line-NoSpace p h.0), txt_line-nonempty p)
        (ap (txt_line c p ∷◌) (trim-txt_lines ps h.1))

  lines_of-txt_lines :
      (p : StaticProxy) (ps : List StaticProxy)
      → All IsPlain (p ∷ ps)
      → lines_of (join 10 (map (txt_line c) (p ∷ ps))) ≡ map (txt_line c) (p ∷ ps)
  unfolding lines_of
  lines_of-txt_lines p ps h =
      rw (split-join 10 (map (txt_line c) (p ∷ ps)) (λ e. cc) (txt_lines-Lacks (p ∷ ps) h))
        (trim-txt_lines (p ∷ ps) h)

  -- If the user and the password of the session have no space, and some proxies are plain, at least
  -- one, then the text file of these is imported again: whatever kind, country, times and latencies the
  -- import has, it brings in proxies of the same addresses and ports, in the same order.
  pub parse_and_import-export_proxies :
      (e : Encoders) (now : ℕ) (p : StaticProxy) (ps : List StaticProxy) (protocol country : Text)
      (clock draws : ℕ → ℕ)
      → All IsPlain (p ∷ ps)
      → let form : ImportForm = record {
        raw_text = (export_proxies e c now txt (p ∷ ps)).content;
        protocol = protocol;
        default_country = country;
      } in
        (pxs : List StaticProxy) × (parse_and_import form clock draws ≡ imported pxs)
        × (map address pxs ≡ map address (p ∷ ps))
  unfolding export_proxies parse_and_import
  parse_and_import-export_proxies e now p ps protocol country clock draws h =
      let form : ImportForm = record {
        raw_text = join 10 (map (txt_line c) (p ∷ ps));
        protocol = protocol;
        default_country = country;
      } in
      let same = parse_lines-txt_line form clock draws 0 (p ∷ ps) h in
      (
        parse_lines form clock draws 0 (map (txt_line c) (p ∷ ps)),
        ap (import_lines form clock draws) (lines_of-txt_lines p ps h)
            ∙ check_parsed-some (address p) (map address ps) _ same,
        same,
      )
