-- ===== src/Examples/Limits.antt =====
-- The theorem on `rateLimiter` of saas/src/middlewares, with a server that counts in a function.
use proxy_redirector.Prelude.{ℕ, ◌≡◌, ◌≢◌, refl, ◌+◌, true, some, if◌then◌else◌, arith}
use proxy_redirector.Text.{Text, text_eq}
use proxy_redirector.Text.Laws.{text_eq_iff, text_eq_refl}
use proxy_redirector.Saas.RateLimiter.{Counters}

abbrev pub increased : Text → (Text → ℕ) → Text → ℕ
increased key s other = if text_eq key other then s key + 1 else s other

pub increased_same : (key : Text) (s : Text → ℕ) → increased key s key ≡ s key + 1
increased_same key s = rw (text_eq_refl key) refl

pub increased_other :
    (key : Text) (s : Text → ℕ) (other : Text) → other ≢ key → increased key s other ≡ s other
increased_other key s other ne = ground (arith, text_eq_iff key other)

abbrev pub function_counters : Counters
function_counters = record {
  State = Text → ℕ;
  count = λ key s. s key;
  is_up = λ s. true;
  incr = λ key s. some (s key + 1, increased key s);
  expire = λ key seconds s. some s;
  incr_up = λ key s up. (increased key s, refl, refl, increased_same key s, increased_other key s);
  expire_up = λ key seconds s up. (s, refl, refl, λ other. refl);
}
