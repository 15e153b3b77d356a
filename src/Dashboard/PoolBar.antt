-- ===== src/Dashboard/PoolBar.antt =====
-- `renderPoolBar` of engine/static/app.js. A width is the fraction whose hundredfold the code writes
-- as a percentage.
pub mod Laws
use proxy_redirector.Prelude.{ℕ, ◌+◌, ◌-◌, Option, none, some, ◌==◌, if◌then◌else◌}

pub record PoolCounts : Type 0 where
  pub total : ℕ
  pub alive : ℕ
  pub dead : ℕ
  pub dead_retryable : ℕ
  pub blacklisted : ℕ
  pub unchecked : ℕ

pub record Fraction : Type 0 where
  pub part : ℕ
  pub whole : ℕ

pub record PoolBar : Type 0 where
  pub alive_width : Fraction
  pub retry_width : Fraction
  pub dead_width : Fraction
  pub unchecked_width : Fraction
  pub alive_legend : ℕ
  pub retry_legend : ℕ
  pub dead_legend : ℕ
  pub unchecked_legend : ℕ
  pub healthy : ℕ
  pub total : ℕ

-- `Math.max(0, dead - dead_retryable) + blacklisted`: the subtraction on ℕ stops at 0 too.
unfoldable pub dead_permanent : PoolCounts → ℕ
dead_permanent c = (c.dead - c.dead_retryable) + c.blacklisted

-- An empty pool leaves the bar as it is.
unfoldable pub render_pool_bar : PoolCounts → Option PoolBar
unfolding dead_permanent
render_pool_bar c =
    if c.total == 0
    then none
    else some (record {
      alive_width = record { part = c.alive; whole = c.total };
      retry_width = record { part = c.dead_retryable; whole = c.total };
      dead_width = record { part = dead_permanent c; whole = c.total };
      unchecked_width = record { part = c.unchecked; whole = c.total };
      alive_legend = c.alive;
      retry_legend = c.dead_retryable;
      dead_legend = c.dead;
      unchecked_legend = c.unchecked;
      healthy = c.alive;
      total = c.total;
    })
