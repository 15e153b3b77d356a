-- ===== src/Saas/Usage/Laws.antt =====
-- What flushing keeps, and what is lost where traffic is counted meanwhile.
use proxy_redirector.Prelude.{
  ℕ, ◌+◌, ◌≤◌, ◌<◌, ◌≡◌, ◌≢◌, refl, ap, ◌∙◌, Bool, true, false, Option, none, some, List, [], ◌∷◌,
  ltb, arith, Bool-cases, inl, inr,
}
use proxy_redirector.Text.{Text, text_eq}
use proxy_redirector.Text.Laws.{text_eq_iff}
use proxy_redirector.Saas.Usage.{UsageStore, log_bytes, after_read, flush_user, flush_usage}

abbrev pub or_zero : Option ℕ → ℕ
or_zero none = 0
or_zero (some bytes) = bytes

module _ (t : UsageStore) where
  open t use {
    State, counted, log_row, get, upsert, del, incr, get_some, upsert_some, del_some, incr_counted,
  }

  -- The bytes of the user's row of the day, 0 where there is none.
  abbrev pub logged : Text → State → ℕ
  logged v s = or_zero (log_row v s)

  -- The bytes of a user, counted or logged.
  abbrev pub total : Text → State → ℕ
  total v s = counted v s + logged v s

  -- The upsert of the worker adds the bytes to what is logged for the user.
  upsert_logged :
      (user : Text) (n : ℕ) (s s' : State)
      → upsert user (λ old. old + n) n s ≡ some s'
      → (logged user s' ≡ logged user s + n)
        × ((other : Text) → other ≢ user → logged other s' ≡ logged other s)
        × ((v : Text) → counted v s' ≡ counted v s)
  upsert_logged user n s s' h =
      let (own, others, count) = upsert_some user (λ old. old + n) n s s' h in
      (ap or_zero own ∙ by_row (log_row user s), λ other ne. ap or_zero (others other ne), count)
    where
      by_row :
          (o : Option ℕ)
          → or_zero (elim o [ none ↦ some n | some bytes ↦ some (bytes + n) ]) ≡ or_zero o + n
      by_row none = omega arith
      by_row (some bytes) = refl

  del_logged :
      (user : Text) (s s' : State) (v : Text) → del user s ≡ some s' → logged v s' ≡ logged v s
  del_logged user s s' v h = ap or_zero ((del_some user s s' h).2 v)

  upsert_total :
      (user : Text) (n : ℕ) (s s' : State)
      → upsert user (λ old. old + n) n s ≡ some s'
      → (v : Text) → (total v s ≤ total v s') × (logged v s ≤ logged v s')
  upsert_total user n s s' h v =
      let (own, others, count) = upsert_logged user n s s' h in
      elim (Bool-cases (text_eq v user)) [
        | inl e ↦
            let at : v ≡ user = (text_eq_iff v user).0 e in
            rw (count v, at, own) (omega arith, omega arith)
        | inr e ↦
            let ne : v ≢ user = λ k. ground (arith, text_eq_iff v user) in
            rw (count v, others v ne) (omega arith, omega arith)
      ]

  log_total :
      (user : Text) (s s1 s2 : State)
      → upsert user (λ old. old + counted user s) (counted user s) s ≡ some s1
      → del user s1 ≡ some s2
      → (v : Text) → total v s2 ≡ total v s
  log_total user s s1 s2 h k v =
      let (own, others, count) = upsert_logged user (counted user s) s s1 h in
      let (gone, kept, row) = del_some user s1 s2 k in
      let log : (w : Text) → logged w s2 ≡ logged w s1 = λ w. del_logged user s1 s2 w k in
      elim (Bool-cases (text_eq v user)) [
        | inl e ↦ rw (log v, (text_eq_iff v user).0 e, gone, own) (omega arith)
        | inr e ↦
            let ne : v ≢ user = λ l. ground (arith, text_eq_iff v user) in
            rw (log v, kept v ne, others v ne, count v) refl
      ]

  -- No byte is lost, and none is counted twice where no command has thrown.
  abbrev Keeps : Text → State → Bool × State → Type 0
  Keeps v s r = (total v s ≤ total v r.1) × (r.0 ≡ true → total v r.1 ≡ total v s)

  log_bytes-Keeps :
      (user : Text) (s : State) (v : Text) → Keeps v s (log_bytes t user (counted user s) s)
  unfolding log_bytes
  log_bytes-Keeps user s v =
      by_upsert (upsert user (λ old. old + counted user s) (counted user s) s) refl
    where
      by_del :
          (s1 : State) (o : Option State)
          → upsert user (λ old. old + counted user s) (counted user s) s ≡ some s1
          → del user s1 ≡ o
          → Keeps v s (elim o [ none ↦ (false, s1) | some s2 ↦ (true, s2) ])
      by_del s1 none h k = ((upsert_total user (counted user s) s s1 h v).0, λ e. cc)
      by_del s1 (some s2) h k =
          (rw (log_total user s s1 s2 h k v) (omega arith), λ e. log_total user s s1 s2 h k v)

      by_upsert :
          (o : Option State)
          → upsert user (λ old. old + counted user s) (counted user s) s ≡ o
          → Keeps v s (elim o [
            | none ↦ (false, s)
            | some s1 ↦ elim (del user s1) [ none ↦ (false, s1) | some s2 ↦ (true, s2) ]
          ])
      by_upsert none h = (omega arith, λ e. refl)
      by_upsert (some s1) h = by_del s1 (del user s1) h refl

  flush_user-Keeps : (user : Text) (s : State) (v : Text) → Keeps v s (flush_user t user s)
  unfolding flush_user after_read
  flush_user-Keeps user s v = by_get (get user s) refl
    where
      by_get : (o : Option ℕ) → get user s ≡ o → Keeps v s (after_read t user o s)
      by_get none h = (omega arith, λ e. refl)
      by_get (some bytes) h = elim (Bool-cases (ltb 0 bytes)) [
        | inl e ↦ rw (e, get_some user s bytes h) (log_bytes-Keeps user s v)
        | inr e ↦ rw e (omega arith, λ f. refl)
      ]

  flush_usage-Keeps : (users : List Text) (s : State) (v : Text) → Keeps v s (flush_usage t users s)
  unfolding flush_usage
  flush_usage-Keeps [] s v = (omega arith, λ e. refl)
  flush_usage-Keeps (user ∷ users) s v =
      let first = flush_user-Keeps user s v in
      let rest = flush_usage-Keeps users (flush_user t user s).1 v in
      elim (Bool-cases (flush_user t user s).0) [
        | inl e ↦ rw e (omega (arith, first.0, rest.0), λ f. rest.1 f ∙ first.1 e)
        | inr e ↦ rw e (first.0, λ f. cc)
      ]

  -- Whatever command throws, flushing loses no byte of a user: the bytes that Redis has counted and
  -- those of the day's row together are afterwards at least what they were.
  pub flush_keeps :
      (users : List Text) (s : State) (v : Text) → total v s ≤ total v (flush_usage t users s).1
  flush_keeps users s v = (flush_usage-Keeps users s v).0

  -- If no command throws, flushing moves bytes: the bytes that Redis has counted for a user and
  -- those of the day's row together are afterwards what they were.
  pub flush_conserves :
      (users : List Text) (s : State) (v : Text)
      → (flush_usage t users s).0 ≡ true
      → total v (flush_usage t users s).1 ≡ total v s
  flush_conserves users s v = (flush_usage-Keeps users s v).1

  -- What the two commands do where neither throws: the bytes are logged once more, and nothing is
  -- counted.
  log_bytes_done :
      (user : Text) (n : ℕ) (s : State)
      → (log_bytes t user n s).0 ≡ true
      → (logged user (log_bytes t user n s).1 ≡ logged user s + n)
        × (counted user (log_bytes t user n s).1 ≡ 0)
  unfolding log_bytes
  log_bytes_done user n s = by_upsert (upsert user (λ old. old + n) n s) refl
    where
      Done : Bool × State → Type 0
      Done r = r.0 ≡ true → (logged user r.1 ≡ logged user s + n) × (counted user r.1 ≡ 0)

      by_del :
          (s1 : State) (o : Option State)
          → upsert user (λ old. old + n) n s ≡ some s1
          → del user s1 ≡ o
          → Done (elim o [ none ↦ (false, s1) | some s2 ↦ (true, s2) ])
      by_del s1 none h k = λ e. absurd (ground arith)
      by_del s1 (some s2) h k = λ e. (
        del_logged user s1 s2 user k ∙ (upsert_logged user n s s1 h).0,
        (del_some user s1 s2 k).0,
      )

      by_upsert :
          (o : Option State)
          → upsert user (λ old. old + n) n s ≡ o
          → Done (elim o [
            | none ↦ (false, s)
            | some s1 ↦ elim (del user s1) [ none ↦ (false, s1) | some s2 ↦ (true, s2) ]
          ])
      by_upsert none h = λ e. absurd (ground arith)
      by_upsert (some s1) h = by_del s1 (del user s1) h refl

  after_read_done :
      (user : Text) (n : ℕ) (s : State)
      → 0 < n
      → (after_read t user (some n) s).0 ≡ true
      → (logged user (after_read t user (some n) s).1 ≡ logged user s + n)
        × (counted user (after_read t user (some n) s).1 ≡ 0)
  unfolding after_read
  after_read_done user n s pos =
      let e : ltb 0 n ≡ true = ground arith in rw e (λ h. log_bytes_done user n s h)

  -- If `k` bytes of a user are counted between the reading of the counter, which is not 0, and the
  -- rest of the round, and no command throws, they are lost: the user's bytes are afterwards what they
  -- were before the `k` were counted.
  pub counted_meanwhile_lost :
      (user : Text) (n k : ℕ) (s : State)
      → get user s ≡ some n
      → 0 < n
      → (after_read t user (get user s) (incr user k s)).0 ≡ true
      → let after = (after_read t user (get user s) (incr user k s)).1 in
        (total user after ≡ total user s) × (total user (incr user k s) ≡ total user after + k)
  counted_meanwhile_lost user n k s read pos = rw read (λ h.
      let (log, none_left) = after_read_done user n (incr user k s) pos h in
      let (more, row) = incr_counted user k s in
      let same : logged user (incr user k s) ≡ logged user s = ap or_zero row in
      let r = get_some user s n read in (omega arith, omega arith))

  -- If a second round reads the counter of a user, which is not 0, before the first deletes it, and
  -- no command throws, the bytes are logged twice: the user's bytes grow by the counter.
  pub read_twice_logged_twice :
      (user : Text) (n : ℕ) (s : State)
      → get user s ≡ some n
      → 0 < n
      → let first = after_read t user (get user s) s in
        let second = after_read t user (get user s) first.1 in
        first.0 ≡ true → second.0 ≡ true → total user second.1 ≡ total user s + n
  read_twice_logged_twice user n s read pos = rw read (λ h k.
      let (log1, left1) = after_read_done user n s pos h in
      let (log2, left2) = after_read_done user n (after_read t user (some n) s).1 pos k in
      let r = get_some user s n read in omega arith)
