-- ===== src/Examples/Accounts.antt =====
-- The theorem on registration and log-in, with users that are held under their address.
use proxy_redirector.Prelude.{◌≡◌, ◌≢◌, refl, subst, Bool, false, Option, none, some, [], ◌∷◌}
use proxy_redirector.Text.{Text, codes, text_eq}
use proxy_redirector.Text.Laws.{text_eq_refl}
use proxy_redirector.Saas.Domain.{User, user}
use proxy_redirector.Saas.Accounts.{UserTable, Hasher}
use proxy_redirector.Examples.Usage.{put, put_same, put_other, some_eq}

abbrev pub Users : Type 0
Users = Text → Option User

abbrev pub new_user : Text → Text → User
new_user email hash = record { id = email; email = email; password_hash = hash; role = user }

abbrev pub with_user : Text → Text → Users → Users
with_user email hash s = put email (some (new_user email hash)) s

abbrev pub created_user : Text → Text → Users → User × Users
created_user email hash s = (new_user email hash, with_user email hash s)

pub user_created :
    (email hash : Text) (s s' : Users) (u : User)
    → some (created_user email hash s) ≡ some (u, s')
    → (u.email ≡ email)
      × (u.password_hash ≡ hash)
      × (u.role ≡ user)
      × (s' email ≡ some u)
      × ((other : Text) → other ≢ email → s' other ≡ s other)
user_created email hash s s' u h =
    subst
      (λ (r : User × Users).
        (r.0.email ≡ email)
        × (r.0.password_hash ≡ hash)
        × (r.0.role ≡ user)
        × (r.1 email ≡ some r.0)
        × ((other : Text) → other ≢ email → r.1 other ≡ s other))
      (some_eq h)
      (
        refl,
        refl,
        refl,
        put_same email (some (new_user email hash)) s,
        put_other email (some (new_user email hash)) s,
      )

abbrev pub user_map : UserTable
user_map = record {
  State = Users;
  find_by_email = λ email s. s email;
  create = λ email hash s. some (created_user email hash s);
  upsert_device = λ id fingerprint name os s. some s;
  create_some = user_created;
}

-- A hash that keeps its salt in front.
abbrev pub compare_salted : Text → Text → Bool
compare_salted password [] = false
compare_salted password (salt ∷ rest) = text_eq password rest

abbrev pub salted : Hasher
salted = record {
  hash = λ salt password. salt ∷ password;
  compare = compare_salted;
  compare_hash = λ salt password. text_eq_refl password;
}

abbrev pub no_users : Users
no_users email = none

abbrev pub mail : Text
mail = codes "a@a.example"

abbrev pub ann : User
ann = new_user mail (7 ∷ codes "pw")
