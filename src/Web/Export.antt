-- ===== src/Web/Export.antt =====
-- `handleExportProxies` in saas/frontend/src/App.tsx: the files in five formats. The encoders of the
-- platform and the moment are arguments.
pub mod RoundTrip
use proxy_redirector.Prelude.{
  ℕ, ◌+◌, ◌*◌, ◌/◌, ◌%◌, Bool, Option, none, some, List, [], ◌∷◌, ◌++◌, map, take, ◌==◌,
  if◌then◌else◌,
}
use proxy_redirector.Text.{Text, codes, is_empty, or_text, decimal}
use proxy_redirector.Text.Trim.{join}
use proxy_redirector.Text.Integers.{show_integer}
use proxy_redirector.Web.Pool.{StaticProxy}

pub data Format : Type 0 where
  txt csv json clash shadowrocket : Format

pub record Download : Type 0 where
  pub content : Text
  pub mime : Text
  pub filename : Text

-- What the files say of the session: `user?.email || 'user'` and `token ? token.slice(0, 10) : 'PASS'`.
pub record Credentials : Type 0 where
  pub email : Option Text
  pub token : Option Text

abbrev pub user_of : Credentials → Text
user_of c = elim c.email [ none ↦ codes "user" | some e ↦ or_text e (codes "user") ]

abbrev pub pass_of : Credentials → Text
pass_of c = elim c.token [
  | none ↦ codes "PASS"
  | some t ↦ if is_empty t then codes "PASS" else take 10 t
]

-- `btoa`, `encodeURIComponent` and `JSON.stringify` with two spaces.
pub record Encoders : Type 0 where
  pub btoa : Text → Text
  pub encode_component : Text → Text
  pub stringify : List StaticProxy → Text

-- The digits of a fraction: JavaScript leaves out the zeros at its end.
abbrev pub show_tenths : ℕ → Text
show_tenths n = decimal (n / 10) ++ (if n % 10 == 0 then [] else b'.' ∷ decimal (n % 10))

abbrev pub show_hundredths : ℕ → Text
show_hundredths n =
    if n % 10 == 0
    then show_tenths (n / 10)
    else decimal (n / 100) ++ b'.' ∷ decimal (n / 10 % 10) ++ decimal (n % 10)

-- `${p.ip}:${p.port}:${…}:${…}`
unfoldable pub txt_line : Credentials → StaticProxy → Text
txt_line c p = p.ip ++ b':' ∷ (show_integer p.port ++ b':' ∷ (user_of c ++ b':' ∷ pass_of c))

unfoldable pub csv_line : StaticProxy → Text
csv_line p = join b',' (
    p.ip
    ∷ show_integer p.port
    ∷ p.protocol
    ∷ p.country_code
    ∷ p.city
    ∷ (b'"' ∷ p.isp_name ++ b'"' ∷ [])
    ∷ (show_hundredths p.uptime ++ b'%' ∷ [])
    ∷ (show_tenths p.last_latency ++ codes "ms")
    ∷ [])

abbrev pub clash_name : StaticProxy → Text
clash_name p = p.country_code ++ b'-' ∷ p.city ++ b'-' ∷ p.ip

unfoldable pub clash_proxy : Credentials → StaticProxy → Text
clash_proxy c p = join 10 (
    (codes "  - name: \"" ++ clash_name p ++ codes "\"")
    ∷ (codes "    type: " ++ p.protocol)
    ∷ (codes "    server: " ++ p.ip)
    ∷ (codes "    port: " ++ show_integer p.port)
    ∷ (codes "    username: \"" ++ user_of c ++ codes "\"")
    ∷ (codes "    password: \"" ++ pass_of c ++ codes "\"")
    ∷ codes "    udp: true"
    ∷ [])

unfoldable pub clash_file : Credentials → List StaticProxy → Text
unfolding clash_proxy
clash_file c ps = join 10 (
    codes "port: 7890"
    ∷ codes "socks-port: 7891"
    ∷ codes "allow-lan: false"
    ∷ codes "mode: rule"
    ∷ codes "log-level: info"
    ∷ codes "proxies:"
    ∷ join 10 (map (clash_proxy c) ps)
    ∷ codes "proxy-groups:"
    ∷ codes "  - name: PROXY"
    ∷ codes "    type: select"
    ∷ codes "    proxies:"
    ∷ join 10 (map (λ p. codes "      - \"" ++ clash_name p ++ codes "\"") ps)
    ∷ codes "rules:"
    ∷ codes "  - MATCH,PROXY"
    ∷ [])

unfoldable pub shadowrocket_line : Encoders → Credentials → StaticProxy → Text
shadowrocket_line e c p =
    p.protocol
    ++ codes "://"
    ++ e.btoa (user_of c ++ b':' ∷ pass_of c)
    ++ b'@' ∷ p.ip
    ++ b':' ∷ show_integer p.port
    ++ b'#' ∷ e.encode_component (p.country_code ++ b'-' ∷ p.city)

abbrev pub named : ℕ → Text → Text
named now suffix = codes "proxies_export_" ++ decimal now ++ suffix

-- `handleExportProxies`: the file that the browser saves
unfoldable pub export_proxies : Encoders → Credentials → ℕ → Format → List StaticProxy → Download
unfolding txt_line csv_line clash_file shadowrocket_line
export_proxies e c now txt ps = record {
  content = join 10 (map (txt_line c) ps);
  mime = codes "text/plain";
  filename = named now (codes ".txt");
}
export_proxies e c now csv ps = record {
  content = codes "IP,Port,Protocol,Country,City,ISP,Uptime,Ping" ++ 10 ∷ join 10 (map csv_line ps);
  mime = codes "text/csv";
  filename = named now (codes ".csv");
}
export_proxies e c now json ps = record {
  content = e.stringify ps;
  mime = codes "application/json";
  filename = named now (codes ".json");
}
export_proxies e c now clash ps = record {
  content = clash_file c ps;
  mime = codes "text/yaml";
  filename = named now (codes "_clash.yaml");
}
export_proxies e c now shadowrocket ps = record {
  content = join 10 (map (shadowrocket_line e c) ps);
  mime = codes "text/plain";
  filename = named now (codes "_shadowrocket.txt");
}
