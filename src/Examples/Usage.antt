-- ===== src/Examples/Usage.antt =====
-- The theorems on the usage worker and on repeated requests, with stores that are functions.
use proxy_redirector.Prelude.{
  ℕ, ◌+◌, ◌≡◌, ◌≢◌, refl, sym, Bool, true, Option, none, some, List, [], ◌∷◌, if◌then◌else◌, arith,
}
use proxy_redirector.Text.{Text, codes, text_eq}
use proxy_redirector.Text.Laws.{text_eq_iff, text_eq_refl}
use proxy_redirector.Saas.Usage.{UsageStore, log_bytes, after_read, flush_user, flush_usage}
use proxy_redirector.Saas.Usage.Laws.{
  total, flush_conserves, counted_meanwhile_lost, read_twice_logged_twice,
}
use proxy_redirector.Saas.Idempotency.{
  Response, ResponseCache, redis_key, idempotency_guard, after_look,
}
use proxy_redirector.Saas.Idempotency.Race.{both_run}
use proxy_redirector.Saas.Idempotency.Laws.{repeated_request}

-- A function changed at one text.
abbrev pub put : {A : Type 0} → Text → A → (Text → A) → Text → A
put key x f other = if text_eq key other then x else f other

pub put_same : {A : Type 0} (key : Text) (x : A) (f : Text → A) → put key x f key ≡ x
put_same key x f = rw (text_eq_refl key) refl

pub put_other :
    {A : Type 0} (key : Text) (x : A) (f : Text → A) (other : Text)
    → other ≢ key
    → put key x f other ≡ f other
put_other key x f other ne = ground (arith, text_eq_iff key other)

-- What is counted, and what is logged.
abbrev Bytes : Type 0
Bytes = (Text → ℕ) × (Text → Option ℕ)

abbrev changed : (ℕ → ℕ) → ℕ → Option ℕ → Option ℕ
changed update create row = elim row [ none ↦ some create | some bytes ↦ some (update bytes) ]

abbrev change_log : Text → (ℕ → ℕ) → ℕ → Bytes → Bytes
change_log user update create s = (s.0, put user (changed update create (s.1 user)) s.1)

abbrev drop_counted : Text → Bytes → Bytes
drop_counted user s = (put user 0 s.0, s.1)

abbrev add_counted : Text → ℕ → Bytes → Bytes
add_counted user n s = (put user (s.0 user + n) s.0, s.1)

pub some_eq : {A : Type 0} {x y : A} → some x ≡ some y → x ≡ y
some_eq h = cc

abbrev byte_store : UsageStore
byte_store = record {
  State = Bytes;
  counted = λ user s. s.0 user;
  log_row = λ user s. s.1 user;
  get = λ user s. some (s.0 user);
  upsert = λ user update create s. some (change_log user update create s);
  del = λ user s. some (drop_counted user s);
  incr = add_counted;
  get_some = λ user s n h. sym (some_eq h);
  upsert_some = λ user update create s s' h.
      let row = changed update create (s.1 user) in
      rw (sym (some_eq h)) (put_same user row s.1, put_other user row s.1, λ v. refl);
  del_some =
      λ user s s' h. rw (sym (some_eq h)) (put_same user 0 s.0, put_other user 0 s.0, λ v. refl);
  incr_counted = λ user n s. (put_same user (s.0 user + n) s.0, refl);
}

abbrev some_bytes : Bytes
some_bytes = ((λ user. 7), (λ user. some 100))

abbrev users : List Text
users = codes "u1" ∷ codes "u2" ∷ []

flush_done : (flush_usage byte_store users some_bytes).0 ≡ true
unfolding flush_usage flush_user after_read log_bytes
flush_done = refl

flush_conserves_example :
    total byte_store (codes "u1") (flush_usage byte_store users some_bytes).1
    ≡ total byte_store (codes "u1") some_bytes
flush_conserves_example = flush_conserves byte_store users some_bytes (codes "u1") flush_done

abbrev late : Bool × Bytes
late =
    after_read byte_store (codes "u1") (byte_store.get (codes "u1") some_bytes)
      (add_counted (codes "u1") 5 some_bytes)

late_done : late.0 ≡ true
unfolding after_read log_bytes
late_done = refl

counted_meanwhile_lost_example :
    (total byte_store (codes "u1") late.1 ≡ total byte_store (codes "u1") some_bytes)
    × (total byte_store (codes "u1") (add_counted (codes "u1") 5 some_bytes)
        ≡ total byte_store (codes "u1") late.1 + 5)
counted_meanwhile_lost_example =
    counted_meanwhile_lost byte_store (codes "u1") 7 5 some_bytes refl (omega arith) late_done

abbrev first_round : Bool × Bytes
first_round = after_read byte_store (codes "u1") (byte_store.get (codes "u1") some_bytes) some_bytes

abbrev second_round : Bool × Bytes
second_round =
    after_read byte_store (codes "u1") (byte_store.get (codes "u1") some_bytes) first_round.1

rounds_done : (first_round.0 ≡ true) × (second_round.0 ≡ true)
unfolding after_read log_bytes
rounds_done = (refl, refl)

read_twice_logged_twice_example :
    total byte_store (codes "u1") second_round.1 ≡ total byte_store (codes "u1") some_bytes + 7
read_twice_logged_twice_example =
    read_twice_logged_twice byte_store (codes "u1") 7 some_bytes refl (omega arith) rounds_done.0
      rounds_done.1

abbrev pub response_map : ResponseCache
response_map = record {
  State = Text → Option Response;
  stored = λ key s. s key;
  is_up = λ s. true;
  get = λ key s. some (s key);
  set = λ key r seconds s. put key (some r) s;
  get_up = λ key s up. refl;
  set_up = λ key r seconds s up. (refl, put_same key (some r) s);
}

-- A handler that counts its calls.
abbrev pub counting : ℕ → Response × ℕ
counting n = (record { status = 201; body = codes "{}" }, n + 1)

abbrev pub no_responses : Text → Option Response
no_responses key = none

pub order_key : codes "order-1" ≢ []
order_key h = ground arith

repeated_request_example :
    let first =
      idempotency_guard response_map ℕ counting 86400 (codes "order-1") (3, no_responses) in
    (first.0 ≡ (counting 3).0)
    × (first.1.0 ≡ (counting 3).1)
    × (idempotency_guard response_map ℕ counting 86400 (codes "order-1") (9, first.1.1)
        ≡ (first.0, (9, first.1.1)))
repeated_request_example =
    repeated_request response_map ℕ counting 86400 (codes "order-1") 3 9 no_responses order_key refl
      refl refl

both_run_example :
    let looked = response_map.get (redis_key (codes "order-1")) no_responses in
    let first =
      after_look response_map ℕ counting 86400 (codes "order-1") looked (3, no_responses) in
    let second = after_look response_map ℕ counting 86400 (codes "order-1") looked first.1 in
    (first.0 ≡ (counting 3).0)
    × (second.0 ≡ (counting (counting 3).1).0)
    × (second.1.0 ≡ (counting (counting 3).1).1)
    × (idempotency_guard response_map ℕ counting 86400 (codes "order-1") (9, second.1.1)
        ≡ (second.0, (9, second.1.1)))
both_run_example =
    both_run response_map ℕ counting 86400 (codes "order-1") 3 9 no_responses order_key refl refl
      refl refl
