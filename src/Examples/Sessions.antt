-- ===== src/Examples/Sessions.antt =====
-- The theorems on refresh tokens, with tokens that spell their payload and a set of revoked keys.
use proxy_redirector.Prelude.{
  ℕ, zero, suc, ◌+◌, ◌≤◌, ◌<◌, ◌≡◌, ◌≢◌, refl, ap, Bool, true, false, Option, none, some, List, [],
  ◌∷◌, ◌++◌, map, ltb, if◌then◌else◌, arith,
}
use proxy_redirector.Text.{Text, codes, text_eq}
use proxy_redirector.Text.Laws.{text_eq_iff, text_eq_refl}
use proxy_redirector.Saas.Domain.{User, support}
use proxy_redirector.Saas.Guards.{TokenPayload}
use proxy_redirector.Saas.Tokens.{Signer, Revocations, Service, refreshed, mint, refresh}
use proxy_redirector.Saas.Tokens.Refines.{
  Call, refresh_call, logout_call, Spent, Implements, run_calls, spec_calls, run_calls-refines,
}
use proxy_redirector.Saas.Tokens.Once.{sessions_of, run_calls_once}
use proxy_redirector.Saas.Tokens.Laws.{refresh_down}

-- A field, its codes moved up by one, and a 0 behind it.
abbrev write_field : Text → Text → Text
write_field a rest = map suc a ++ 0 ∷ rest

abbrev split_field : Text → Text × Text
split_field [] = ([], [])
split_field (zero ∷ s) = ([], s)
split_field (suc n ∷ s) = (n ∷ (split_field s).0, (split_field s).1)

split_field-write_field : (a rest : Text) → split_field (write_field a rest) ≡ (a, rest)
split_field-write_field [] rest = refl
split_field-write_field (c ∷ a) rest = ap (λ r. (c ∷ r.0, r.1)) (split_field-write_field a rest)

lt→ltb : (a b : ℕ) → a < b → ltb a b ≡ true
lt→ltb a b h = ground arith

abbrev write_token : ℕ → TokenPayload → Text
write_token issued p =
    issued ∷ write_field p.user_id (write_field p.email (write_field p.role (write_field p.jti [])))

abbrev payload_of_fields : Text × Text → TokenPayload
payload_of_fields user =
    let email = split_field user.1 in
    let role = split_field email.1 in
    let jti = split_field role.1 in
    record { user_id = user.0; email = email.0; role = role.0; jti = jti.0 }

abbrev read_token : ℕ → Text → Option TokenPayload
read_token now [] = none
read_token now (issued ∷ s) =
    if ltb now (issued + 3600) then some (payload_of_fields (split_field s)) else none

pub read_token-write_token :
    (issued now : ℕ) (p : TokenPayload)
    → issued ≤ now
    → now < issued + 3600
    → read_token now (write_token issued p) ≡ some p
read_token-write_token issued now p from until = rw (lt→ltb now (issued + 3600) until) (
    rw
      (
        split_field-write_field p.user_id,
        split_field-write_field p.email,
        split_field-write_field p.role,
        split_field-write_field p.jti,
      )
      refl)

abbrev hour_signer : Signer
hour_signer = record {
  ttl = 3600;
  sign = write_token;
  verify = read_token;
  verify_sign = read_token-write_token;
}

abbrev Keys : Type 0
Keys = Option (Text → Bool)

abbrev with_key : Text → (Text → Bool) → Text → Bool
with_key key f other = if text_eq key other then true else f other

abbrev key_in : Text → Keys → Bool
key_in key none = false
key_in key (some f) = f key

abbrev answers : Keys → Bool
answers none = false
answers (some f) = true

abbrev get_key : Text → Keys → Option Bool
get_key key none = none
get_key key (some f) = some (f key)

abbrev set_key : Text → ℕ → Keys → Option Keys
set_key key seconds none = none
set_key key seconds (some f) = some (some (with_key key f))

pub get_key_up : (key : Text) (s : Keys) → answers s ≡ true → get_key key s ≡ some (key_in key s)
get_key_up key none up = ground arith
get_key_up key (some f) up = refl

pub set_key_up :
    (key : Text) (seconds : ℕ) (s : Keys)
    → answers s ≡ true
    → (s' : Keys) × (set_key key seconds s ≡ some s')
      × (answers s' ≡ true)
      × (key_in key s' ≡ true)
      × ((other : Text) → other ≢ key → key_in other s' ≡ key_in other s)
set_key_up key seconds none up = ground arith
set_key_up key seconds (some f) up = (
  some (with_key key f),
  refl,
  refl,
  rw (text_eq_refl key) refl,
  λ other ne. ground (arith, text_eq_iff key other),
)

-- The server that answers holds a set of keys; `none` is the server that does not.
abbrev key_set : Revocations
key_set = record {
  State = Keys;
  is_set = key_in;
  is_up = answers;
  get_one = get_key;
  set_one = set_key;
  get_up = get_key_up;
  set_up = set_key_up;
}

abbrev helper : User
helper = record {
  id = codes "u1";
  email = codes "u1@a.example";
  password_hash = codes "h";
  role = support;
}

abbrev pub service : Service
service = record {
  access = hour_signer;
  refresher = hour_signer;
  redis = key_set;
  find_by_id = λ id. some helper;
  role_name = λ u. codes "SUPPORT";
}

abbrev helper_payload : TokenPayload
helper_payload = record {
  user_id = codes "u1";
  email = codes "u1@a.example";
  role = codes "SUPPORT";
  jti = codes "j1";
}

abbrev helper_token : Text
helper_token = write_token 100 helper_payload

abbrev no_keys : Keys
no_keys = some (λ key. false)

helper_token_valid : hour_signer.verify 200 helper_token ≡ some helper_payload
helper_token_valid = refl

helper_jti : helper_payload.jti ≢ []
helper_jti h = ground arith

refresh_down_example :
    refresh service 200 (codes "j2") helper_token none
    ≡ (refreshed (mint service 200 (codes "j2") helper), none)
refresh_down_example =
    refresh_down service 200 (codes "j2") helper_token helper_payload helper none (λ key. refl)
      (λ key seconds. refl) helper_token_valid refl

abbrev none_spent : Spent
none_spent jti = false

nothing_spent : Implements service no_keys none_spent
nothing_spent = record { up = refl; empty = refl; spent = λ jti ne. refl }

abbrev calls : List Call
calls =
    refresh_call 200 (codes "j2") helper_token
    ∷ logout_call 250 helper_token
    ∷ refresh_call 300 (codes "j3") helper_token
    ∷ []

run_calls-refines_example :
    ((run_calls service calls no_keys).0 ≡ (spec_calls service calls none_spent).0)
    × Implements service (run_calls service calls no_keys).1 (spec_calls service calls none_spent).1
run_calls-refines_example = run_calls-refines service calls no_keys none_spent nothing_spent

run_calls_once_example :
    sessions_of service (codes "j1") calls (run_calls service calls no_keys).0 ≤ 1
run_calls_once_example =
    run_calls_once service (codes "j1") calls no_keys none_spent nothing_spent helper_jti
