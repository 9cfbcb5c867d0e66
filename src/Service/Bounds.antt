-- ===== src/Service/Bounds.antt =====
-- Bounds on what the handlers compute of a request.
use stevy.Base.{ℕ, ◌+◌, ◌/◌, ◌≤◌, ◌<◌, ◌≡◌, refl, true, some, pos, arith}
use stevy.Service.Backoff.{clamp_priority, with_jitter, half}

-- A priority is one of 1 to 4, and a higher number of the request is at least as urgent.
clamp_priority-bounds :
    (p q : ℕ)
    → p ≤ q
    → (1 ≤ clamp_priority q) × (clamp_priority q ≤ clamp_priority p) × (clamp_priority p ≤ 4)
unfolding clamp_priority
clamp_priority-bounds p q h = ground arith

-- With jitter, a delay that is not negative becomes one from half of it up to all of it, where
-- `rand.Intn n` is below n for a positive n.
pub with_jitter-bounds :
    (intn : ℕ → ℕ) (ms : ℕ)
    → ((n : ℕ) → 1 ≤ n → intn n < n)
    → (j : ℕ) × (with_jitter intn true (pos ms) ≡ some (pos j)) × (ms / 2 ≤ j) × (j ≤ ms)
unfolding with_jitter half
with_jitter-bounds intn ms below =
    (ms / 2 + intn (ms / 2 + 1), refl, omega arith, omega (arith, below (ms / 2 + 1) (omega arith)))
