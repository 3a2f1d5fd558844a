-- ===== src/Learning/Rate.antt =====
-- The rate of false positives in lib/intelligence/learning.py.
use stocks_agent.Common.{ℕ, ◌+◌, ◌*◌, ◌≤◌, ◌<◌, arith}
use stocks_agent.Learning.Observation.{rate}

-- The rate is `count` of `total` in ten-thousandths, to the nearest one, and of two the higher one.
pub rate-nearest :
    (count total : ℕ)
    → 0 < total
    → count ≤ total
    → (2 * (rate count total * total) ≤ 2 * (10000 * count) + total)
      × (2 * (10000 * count) < 2 * (rate count total * total) + total)
      × (rate count total ≤ 10000)
unfolding rate
rate-nearest count total h le = grind arith
