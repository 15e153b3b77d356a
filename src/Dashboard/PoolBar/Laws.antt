-- ===== src/Dashboard/PoolBar/Laws.antt =====
-- The four parts of the bar fill it.
use proxy_redirector.Prelude.{◌+◌, ◌≤◌, ◌<◌, ◌≡◌, refl, some, arith}
use proxy_redirector.Dashboard.PoolBar.{PoolCounts, PoolBar, render_pool_bar, dead_permanent}

-- The counts of a pool that cut it into alive, dead, blacklisted and unchecked proxies; some of the
-- dead ones are to be tried again.
pub record IsPartition (c : PoolCounts) : Type 0 where
  pub parts : c.alive + c.dead + c.blacklisted + c.unchecked ≡ c.total
  pub retryable : c.dead_retryable ≤ c.dead

-- For counts that cut a pool that is not empty, the bar is drawn, and its four widths add up to the
-- whole.
pub widths_fill :
    (c : PoolCounts)
    → IsPartition c
    → 0 < c.total
    → (b : PoolBar) × (render_pool_bar c ≡ some b)
      × (b.alive_width.part + b.retry_width.part + b.dead_width.part + b.unchecked_width.part
          ≡ b.alive_width.whole)
      × (b.alive_width.whole ≡ c.total)
unfolding render_pool_bar
widths_fill c p h = (
  record {
    alive_width = record { part = c.alive; whole = c.total };
    retry_width = record { part = c.dead_retryable; whole = c.total };
    dead_width = record { part = dead_permanent c; whole = c.total };
    unchecked_width = record { part = c.unchecked; whole = c.total };
    alive_legend = c.alive;
    retry_legend = c.dead_retryable;
    dead_legend = c.dead;
    unchecked_legend = c.unchecked;
    healthy = c.alive;
    total = c.total;
  },
  ground arith,
  ground arith,
  refl,
)
