-- ===== src/Examples/Fleet.antt =====
-- The theorems on relays, saas/src, with a table of at most one relay.
use proxy_redirector.Prelude.{
  ℕ, ◌≤◌, ◌≡◌, refl, sym, ap, ◌∙◌, subst, Bool, true, false, Bool-cases, inl, inr, Option, none,
  some, arith, if◌then◌else◌,
}
use proxy_redirector.Text.{Text, codes, text_eq}
use proxy_redirector.Text.Laws.{text_eq→eq, text_eq_refl}
use proxy_redirector.Saas.Relays.{Relay, NewRelay, RelayTable, online}

abbrev at_ip : Text → Option Relay → Option Relay
at_ip ip none = none
at_ip ip (some x) = if text_eq x.public_ip ip then some x else none

abbrev first_relay : (Relay → Bool) → Option Relay → Option (Option Relay)
first_relay p none = some none
first_relay p (some x) = some (if p x then some x else none)

abbrev change_all : (Relay → Bool) → (Relay → Relay) → Option Relay → Option (ℕ × Option Relay)
change_all p f none = some (0, none)
change_all p f (some x) = some (1, some (if p x then f x else x))

abbrev created : NewRelay → ℕ → Relay
created new now = record {
  id = codes "r1";
  name = new.name;
  region = new.region;
  country = new.country;
  public_ip = new.public_ip;
  socks_port = 1080;
  http_port = 8080;
  status = new.status;
  current_load = new.current_load;
  active_sessions = new.active_sessions;
  last_heartbeat = now;
}

abbrev put_relay :
    Text → (Relay → Relay) → NewRelay → ℕ → Option Relay → Option (Relay × Option Relay)
put_relay ip f new now none = some (created new now, some (created new now))
put_relay ip f new now (some x) = if text_eq x.public_ip ip then some (f x, some (f x)) else none

at_ip-some : (ip : Text) (x y : Relay) → at_ip ip (some x) ≡ some y → (x ≡ y) × (x.public_ip ≡ ip)
at_ip-some ip x y h = elim (Bool-cases (text_eq x.public_ip ip)) [
  | inl e ↦ (cc (rw e at h), text_eq→eq _ _ e)
  | inr e ↦ cc (rw e at h)
]

passes_first :
    (p : Relay → Bool) (z x : Relay)
    → first_relay p (some z) ≡ some (some x)
    → (p z ≡ true) × (z ≡ x)
passes_first p z x h = elim (Bool-cases (p z)) [
  | inl e ↦ (e, cc (rw e at h))
  | inr e ↦ cc (rw e at h)
]

first_relay-some :
    (p : Relay → Bool) (s : Option Relay) (x : Relay)
    → first_relay p s ≡ some (some x)
    → (p x ≡ true)
      × (at_ip x.public_ip s ≡ some x)
      × ((ip : Text) (y : Relay)
          → at_ip ip s ≡ some y
          → p y ≡ true
          → x.current_load ≤ y.current_load)
first_relay-some p none x h = cc
first_relay-some p (some z) x h =
    let (passes, same) = passes_first p z x h in
    subst
      (λ w.
        (p w ≡ true)
        × (at_ip w.public_ip (some z) ≡ some w)
        × ((ip : Text) (y : Relay)
            → at_ip ip (some z) ≡ some y
            → p y ≡ true
            → w.current_load ≤ y.current_load))
      same
      (
        passes,
        rw (text_eq_refl z.public_ip) refl,
        λ ip y k l.
            subst (λ v. z.current_load ≤ v.current_load) (at_ip-some ip z y k).0 (omega arith),
      )

if_passes : {A : Type 0} {b : Bool} (x y : A) → b ≡ true → (if b then x else y) ≡ x
if_passes x y h = rw h refl

if_fails : {A : Type 0} {b : Bool} (x y : A) → b ≡ false → (if b then x else y) ≡ y
if_fails x y h = rw h refl

abbrev changed : (Relay → Bool) → (Relay → Relay) → Option Relay → Option Relay
changed p f o = elim o [ none ↦ none | some x ↦ some (if p x then f x else x) ]

-- A relay that is changed keeps its address, and so its row.
at_ip-changed :
    (p : Relay → Bool) (f : Relay → Relay) (ip : Text) (x w : Relay)
    → (if p x then f x else x) ≡ w
    → w.public_ip ≡ x.public_ip
    → at_ip ip (some w) ≡ changed p f (at_ip ip (some x))
at_ip-changed p f ip x w same keep = elim (Bool-cases (text_eq x.public_ip ip)) [
  | inl k ↦
      if_passes (some w) none (ap (λ a. text_eq a ip) keep ∙ k)
      ∙ ap some (sym same)
      ∙ sym (ap (changed p f) (if_passes (some x) none k))
  | inr k ↦
      if_fails (some w) none (ap (λ a. text_eq a ip) keep ∙ k)
      ∙ sym (ap (changed p f) (if_fails (some x) none k))
]

keeps_ip :
    (p : Relay → Bool) (f : Relay → Relay) (x : Relay)
    → ((y : Relay) → (f y).public_ip ≡ y.public_ip)
    → (if p x then f x else x).public_ip ≡ x.public_ip
keeps_ip p f x keep = elim (Bool-cases (p x)) [
  | inl e ↦ ap (λ w. w.public_ip) (if_passes (f x) x e) ∙ keep x
  | inr e ↦ ap (λ w. w.public_ip) (if_fails (f x) x e)
]

change_all-row :
    (p : Relay → Bool) (f : Relay → Relay) (s s' : Option Relay) (n : ℕ) (ip : Text)
    → ((x : Relay) → (f x).public_ip ≡ x.public_ip)
    → change_all p f s ≡ some (n, s')
    → at_ip ip s' ≡ changed p f (at_ip ip s)
change_all-row p f none none n ip keep h = refl
change_all-row p f none (some y) n ip keep h = cc
change_all-row p f (some x) none n ip keep h = cc
change_all-row p f (some x) (some y) n ip keep h =
    let same : (if p x then f x else x) ≡ y = cc in
    at_ip-changed p f ip x y same (ap (λ w. w.public_ip) (sym same) ∙ keeps_ip p f x keep)

put_relay-row :
    (ip : Text) (f : Relay → Relay) (new : NewRelay) (now : ℕ) (s s' : Option Relay) (x r : Relay)
    → ((y : Relay) → (f y).public_ip ≡ y.public_ip)
    → at_ip ip s ≡ some x
    → put_relay ip f new now s ≡ some (r, s')
    → at_ip ip s' ≡ some (f x)
put_relay-row ip f new now none s' x r keep held h = cc
put_relay-row ip f new now (some z) s' x r keep held h =
    let (same, here) = at_ip-some ip z x held in
    let eq : text_eq z.public_ip ip ≡ true = rw here (text_eq_refl ip) in
    let stored : some (f z) ≡ s' = cc (rw eq at h) in
    subst (λ w. at_ip ip w ≡ some (f x)) stored
      (if_passes (some (f z)) none (ap (λ a. text_eq a ip) (keep z) ∙ eq)
        ∙ ap (λ w. some (f w)) same)

abbrev one_relay : RelayTable
one_relay = record {
  State = Option Relay;
  row = at_ip;
  find_first = first_relay;
  update_many = change_all;
  upsert = put_relay;
  create_session = λ new s. some (codes "s1", s);
  find_first_some = first_relay-some;
  update_many_row = change_all-row;
  upsert_row = put_relay-row;
}

abbrev relay_at : ℕ → Relay
relay_at time =
    record (created
      (record {
        name = codes "relay-192-0-2-9";
        public_ip = codes "192.0.2.9";
        region = codes "US-East";
        country = codes "US";
        status = online;
        current_load = 14;
        active_sessions = 2;
      })
      time) { id = codes "r1" }
