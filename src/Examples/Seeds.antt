-- ===== src/Examples/Seeds.antt =====
-- The theorem on the seed data, with tables that are functions.
use proxy_redirector.Prelude.{ℕ, ◌+◌, ◌≡◌, refl, sym, true, Option, none, some}
use proxy_redirector.Text.{Text, codes}
use proxy_redirector.Saas.Domain.{user}
use proxy_redirector.Saas.SeedData.{Account, promote, admin_email}
use proxy_redirector.Saas.Seed.{SeedTable, Database, Tables, main, in_turn, seed_all}
use proxy_redirector.Saas.Seed.Laws.{SameTables, seed_again}
use proxy_redirector.Examples.Usage.{put, put_same, put_other, some_eq}

-- A row that an upsert leaves; the other columns of a new row are 0.
abbrev changed : {A : Type 0} → (A → A) → A → Option (A × ℕ) → A × ℕ
changed f new none = (new, 0)
changed f new (some (x, r)) = (f x, r)

-- A table with the number of its changes, which is the time of the last change of each row.
abbrev Stamped : Type 0 → Type 0
Stamped A = (Text → Option (A × ℕ)) × (Text → ℕ) × ℕ

abbrev upserted : {A : Type 0} → Text → (A → A) → A → Stamped A → Stamped A
upserted key f new s =
    (put key (some (changed f new (s.0 key))) s.0, put key (s.2 + 1) s.1, s.2 + 1)

abbrev map_table : (A : Type 0) → SeedTable A
map_table A = record {
  State = Stamped A;
  Rest = ℕ;
  row = λ key s. s.0 key;
  touched = λ key s. s.1 key;
  upsert = λ key f new s. some (upserted key f new s);
  upsert_new = λ key f new s s' h k.
      (0, rw (sym (some_eq k), put_same key (some (changed f new (s.0 key))) s.0, h) refl);
  upsert_old = λ key f new x r s s' h k.
      rw (sym (some_eq k), put_same key (some (changed f new (s.0 key))) s.0, h) refl;
  upsert_other = λ key f new s s' k other ne.
      rw (sym (some_eq k)) (put_other key (some (changed f new (s.0 key))) s.0 other ne);
}

abbrev database : Database
database = record {
  plan_table = map_table _;
  user_table = map_table _;
  proxy_table = map_table _;
  relay_table = map_table _;
}

-- Somebody has signed up by the administrator's address.
abbrev signed_up : Account
signed_up = record {
  email = admin_email;
  password_hash = codes "own";
  name = codes "Ann";
  role = user;
  email_verified = true;
}

abbrev blank : {A : Type 0} → Stamped A
blank = ((λ k. none), (λ k. 0), 0)

abbrev started : Tables database
started = (blank, (put admin_email (some (signed_up, 5)) (λ k. none), (λ k. 0), 1), blank, blank)

abbrev once : Tables database
once = (main database (codes "h1") started).1

once_done : (main database (codes "h1") started).0 ≡ true
unfolding main in_turn seed_all
once_done = refl

twice_done : (main database (codes "h2") once).0 ≡ true
unfolding main in_turn seed_all
twice_done = refl

-- The address is the administrator's now, with the password of the one who has signed up.
admin_is_taken :
    once.1.0 admin_email ≡ some (record signed_up { role = proxy_redirector.Saas.Domain.admin }, 5)
unfolding main in_turn seed_all promote
admin_is_taken = refl

seed_again_example : SameTables database once (main database (codes "h2") once).1
seed_again_example = seed_again database (codes "h1") (codes "h2") started once_done twice_done
