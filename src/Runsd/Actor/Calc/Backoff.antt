-- ===== src/Runsd/Actor/Calc/Backoff.antt =====
-- The delay before another attempt: `jittered_backoff` of crates/runsd/src/actor/calc.rs.
use ensurer_v.Prelude.{ℕ, zero, suc, ◌+◌, ◌*◌, ◌^◌, ◌≤◌, ◌≡◌, arith}
use ensurer_v.Runsd.Actor.World.{Env, World, IsRange, draw_up_to}
use ensurer_v.Runsd.Actor.Calc.{backoff_cap, jittered_backoff}

backoff_cap-le-max : (attempt base_ms max_ms : ℕ) → backoff_cap attempt base_ms max_ms ≤ max_ms
unfolding backoff_cap
backoff_cap-le-max zero base_ms max_ms = ground arith
backoff_cap-le-max (suc k) base_ms max_ms = ground arith

backoff_cap-le-exp : (k base_ms max_ms : ℕ) → backoff_cap (suc k) base_ms max_ms ≤ base_ms * 2 ^ k
unfolding backoff_cap
backoff_cap-le-exp k base_ms max_ms = ground arith

pow-suc : (k : ℕ) → 2 ^ suc k ≡ 2 ^ k + 2 ^ k
pow-suc k = omega arith

double-le : (k base_ms : ℕ) → base_ms * 2 ^ k ≤ base_ms * 2 ^ suc k
double-le k base_ms = rw (pow-suc k) (grind arith)

backoff_cap-suc :
    (attempt base_ms max_ms : ℕ)
    → backoff_cap attempt base_ms max_ms ≤ backoff_cap (suc attempt) base_ms max_ms
unfolding backoff_cap
backoff_cap-suc zero base_ms max_ms = ground arith
backoff_cap-suc (suc k) base_ms max_ms = ground (arith, double-le k base_ms)

-- The bound of the delay grows with the attempts, up to the maximum.
pub backoff_cap_mono :
    (attempt more base_ms max_ms : ℕ)
    → backoff_cap attempt base_ms max_ms ≤ backoff_cap (attempt + more) base_ms max_ms
backoff_cap_mono attempt zero base_ms max_ms = grind arith
backoff_cap_mono attempt (suc more) base_ms max_ms = grind (
  arith,
  backoff_cap_mono attempt more base_ms max_ms,
  backoff_cap-suc (attempt + more) base_ms max_ms,
)

-- For a random source that stays in its range, the delay of any attempt is at most the maximum,
-- and that of an attempt counted from 1 is at most the base doubled for each attempt before it.
pub jittered_backoff-le :
    (env : Env)
    → IsRange env
    → (k base_ms max_ms : ℕ) (w : World)
    → ((jittered_backoff env (suc k) base_ms max_ms w).0 ≤ max_ms)
      × ((jittered_backoff env (suc k) base_ms max_ms w).0 ≤ base_ms * 2 ^ k)
      × ((jittered_backoff env zero base_ms max_ms w).0 ≤ max_ms)
unfolding jittered_backoff draw_up_to
jittered_backoff-le env range k base_ms max_ms w =
    let le = range.draw-le w.step (backoff_cap (suc k) base_ms max_ms) in
    let le0 = range.draw-le w.step (backoff_cap zero base_ms max_ms) in
    (
      omega (arith, le, backoff_cap-le-max (suc k) base_ms max_ms),
      omega (arith, le, backoff_cap-le-exp k base_ms max_ms),
      omega (arith, le0, backoff_cap-le-max zero base_ms max_ms),
    )

-- For a random source that stays in its range, the delay of any attempt is at most the maximum.
pub jittered_backoff-le-max :
    (env : Env)
    → IsRange env
    → (attempt base_ms max_ms : ℕ) (w : World)
    → (jittered_backoff env attempt base_ms max_ms w).0 ≤ max_ms
unfolding jittered_backoff draw_up_to
jittered_backoff-le-max env range attempt base_ms max_ms w = omega (
  arith,
  range.draw-le w.step (backoff_cap attempt base_ms max_ms),
  backoff_cap-le-max attempt base_ms max_ms,
)
