-- ===== src/Saas/Users/Laws.antt =====
-- A new key is found by its hash, and a user can only revoke the user's own devices.
use proxy_redirector.Prelude.{
  ℕ, ◌≡◌, ◌⊎◌, refl, ◌∙◌, ap, false, not, Option, none, some, List, [], ◌∷◌, ◌++◌, arith, take,
  filter, inl, inr,
}
use proxy_redirector.Text.{Text, codes, or_text, text_eq}
use proxy_redirector.Text.Laws.{text_eq_iff}
use proxy_redirector.Saas.Users.{
  ApiKey, KeyTable, generate_api_key, hash_key, Answer, created, revoked, passed_on, create_api_key,
  Device, DeviceTable, is_own, revoke_device,
}

-- What was made of a request for a key.
pub record IsKey (t : KeyTable) (sha256 : Text → Text) (user_id : Text) (s s' : t.State)
    (answer : Answer) : Type 0 where
  pub key : Text
  pub prefix : Text
  pub name : Text
  pub answered : answer ≡ created key prefix name
  pub shown : take 10 key ≡ prefix
  pub found :
      t.by_hash (hash_key sha256 key) s'
      ≡ some (record {
        user_id = user_id;
        key_hash = hash_key sha256 key;
        prefix = prefix;
        name = name;
      })
  pub others :
      (other : Text)
      → text_eq other (hash_key sha256 key) ≡ false
      → t.by_hash other s' ≡ t.by_hash other s

-- If a key can be created, the user is shown it: hashing it finds the user's row, with the first ten
-- characters and the name that were shown, and all other rows are as they were. If not, the error is
-- passed on and nothing has changed.
pub create_api_key-IsKey :
    (t : KeyTable) (sha256 : Text → Text) (hex user_id given_name : Text) (s : t.State)
    → let out = create_api_key t sha256 hex user_id given_name s in
      IsKey t sha256 user_id s out.1 out.0 ⊎ ((out.0 ≡ passed_on) × (out.1 ≡ s))
unfolding create_api_key generate_api_key
create_api_key-IsKey t sha256 hex user_id given_name s = by_create (t.create row s) refl
  where
    row : ApiKey
    row = record {
      user_id = user_id;
      key_hash = sha256 (codes "prk_" ++ hex);
      prefix = take 10 (codes "prk_" ++ hex);
      name = or_text given_name (codes "Default API Key");
    }

    by_create :
        (o : Option t.State)
        → t.create row s ≡ o
        → let out : Answer × t.State = elim o [
          | none ↦ (passed_on, s)
          | some s' ↦ (created (codes "prk_" ++ hex) row.prefix row.name, s')
        ] in
          IsKey t sha256 user_id s out.1 out.0 ⊎ ((out.0 ≡ passed_on) × (out.1 ≡ s))
    by_create none e = inr (refl, refl)
    by_create (some s') e =
        let (found, others) = t.create_some row s s' e in
        inl (record {
          key = codes "prk_" ++ hex;
          prefix = row.prefix;
          name = row.name;
          answered = refl;
          shown = refl;
          found = found;
          others = others;
        })

-- The devices of a user.
abbrev pub devices_of : Text → List Device → List Device
devices_of user_id = filter (λ d. text_eq d.user_id user_id)

foreign_kept :
    (device_id user_id other : Text) (ds : List Device)
    → text_eq other user_id ≡ false
    → devices_of other (filter (λ d. not (is_own device_id user_id d)) ds) ≡ devices_of other ds
unfolding is_own
foreign_kept device_id user_id other [] h = refl
foreign_kept device_id user_id other (d ∷ ds) h = ground (
  arith,
  text_eq_iff d.user_id user_id,
  text_eq_iff d.user_id other,
  text_eq_iff other user_id,
  foreign_kept device_id user_id other ds h,
)

own_gone :
    (device_id user_id : Text) (ds : List Device)
    → devices_of user_id (filter (λ d. not (is_own device_id user_id d)) ds)
      ≡ filter (λ d. not (text_eq d.id device_id)) (devices_of user_id ds)
unfolding is_own
own_gone device_id user_id [] = refl
own_gone device_id user_id (d ∷ ds) = ground (arith, own_gone device_id user_id ds)

-- Where the table can be changed, revoking a device leaves the devices of every other user as they
-- were, takes the ones with the id from the user's, and answers that it is revoked, also if there
-- was none.
pub revoke_device_own :
    (t : DeviceTable) (device_id user_id other : Text) (n : ℕ) (s s' : t.State)
    → t.delete_many (is_own device_id user_id) s ≡ some (n, s')
    → text_eq other user_id ≡ false
    → let out = revoke_device t device_id user_id s in
      (out.0 ≡ revoked)
      × (devices_of other (t.rows out.1) ≡ devices_of other (t.rows s))
      × (devices_of user_id (t.rows out.1)
          ≡ filter (λ d. not (text_eq d.id device_id)) (devices_of user_id (t.rows s)))
unfolding revoke_device
revoke_device_own t device_id user_id other n s s' e foreign =
    let left = t.delete_many_some (is_own device_id user_id) s s' n e in
    rw (e, revoke_device)
      (
        refl,
        ap (devices_of other) left ∙ foreign_kept device_id user_id other (t.rows s) foreign,
        ap (devices_of user_id) left ∙ own_gone device_id user_id (t.rows s),
      )
