-- ===== src/Service/Delays.antt =====
-- The delay before a job is tried again, as `computeBackoffMs` of internal/service/job.go computes it.
use native.Mathlib.Nat.{pow-le-pow_right, mul-le-mul_left}
use stevy.Base.{
  ℕ, suc, ◌*◌, ◌/◌, ◌%◌, ◌^◌, ◌≤◌, ◌<◌, ◌≡◌, refl, ◌⊎◌, inl, inr, Bool, true, false, Option, some,
  pos, ℤ, arith, ltb,
}
use stevy.Base.Text.{codes, text_eq, text_discrete}
use stevy.Service.Backoff.{Meta, base_delay, backoff_ms, mul64, pow_int64, with_jitter}
use stevy.Service.Bounds.{with_jitter-bounds}

small_mod : (n : ℕ) → n < 2 ^ 63 → n % 2 ^ 64 ≡ n
small_mod n h = omega arith

-- A product of two numbers below 2 ^ 63 that stays below it does not wrap around.
mul64-fits :
    (d p : ℕ) → d < 2 ^ 63 → p < 2 ^ 63 → d * p < 2 ^ 63 → mul64 (pos d) (pos p) ≡ pos (d * p)
unfolding mul64
mul64-fits d p hd hp h =
    let left : d % 2 ^ 64 ≡ d = omega arith in
    let right : p % 2 ^ 64 ≡ p = omega arith in
    let fits : ltb (d * p) (2 ^ 63) ≡ true = ground arith in
    let whole : (d * p) % 2 ^ 64 ≡ d * p = small_mod (d * p) h in rw (left, right, whole, fits) refl

module _ (past_int64 : ℕ → ℤ) (meta : Meta) (k d : ℕ)
    (kind : meta.backoff_type ≡ codes "exponential") (base : base_delay meta.backoff_delay ≡ pos d)
    (low : k < 63) (small : d * 2 ^ k < 2 ^ 63) where
  pub exponential_delay : backoff_ms past_int64 meta (suc k) ≡ pos (d * 2 ^ k)
  unfolding backoff_ms pow_int64 text_discrete
  exponential_delay =
      let in_range : ltb k 63 ≡ true = ground arith in
      let below : k ≤ 62 = omega arith in
      let top : 2 ^ k ≤ 2 ^ 62 = pow-le-pow_right (omega arith) below in
      let least : 0 ≤ k = omega arith in
      let bottom : 2 ^ 0 ≤ 2 ^ k = pow-le-pow_right (omega arith) least in
      let grows : d * 1 ≤ d * 2 ^ k = mul-le-mul_left d bottom in
      rw (kind, base, in_range) (mul64-fits d (2 ^ k) (omega arith) (omega arith) small)

-- A delay with or without jitter of a number of ms.
abbrev pub IsDelay : ℕ → Bool → Option ℤ → Type 0
IsDelay ms jitter o =
    (j : ℕ) × (o ≡ some (pos j)) × (ms / 2 ≤ j) × (j ≤ ms) × ((jitter ≡ true) ⊎ (j ≡ ms))

by_jitter :
    (intn : ℕ → ℕ) (ms : ℕ)
    → ((n : ℕ) → 1 ≤ n → intn n < n)
    → (jitter : Bool) → IsDelay ms jitter (with_jitter intn jitter (pos ms))
unfolding with_jitter
by_jitter intn ms below true =
    let (j, e, low, high) = with_jitter-bounds intn ms below in (j, e, low, high, inl refl)
by_jitter intn ms below false = (ms, refl, omega arith, omega arith, inr refl)

-- For a job with exponential backoff and a delay of d ms that is not negative, after attempt k + 1
-- with k below 63 and d * 2 ^ k in an int64: the handler computes some number of ms, no more than
-- d * 2 ^ k and no less than half of it, and d * 2 ^ k itself without jitter. `rand.Intn n` is below n
-- for a positive n.
pub with_jitter-backoff_ms :
    (past_int64 : ℕ → ℤ) (intn : ℕ → ℕ) (meta : Meta) (k d : ℕ)
    → meta.backoff_type ≡ codes "exponential"
    → base_delay meta.backoff_delay ≡ pos d
    → k < 63
    → d * 2 ^ k < 2 ^ 63
    → ((n : ℕ) → 1 ≤ n → intn n < n)
    → IsDelay
        (d * 2 ^ k)
        meta.jitter
        (with_jitter intn meta.jitter (backoff_ms past_int64 meta (suc k)))
with_jitter-backoff_ms past_int64 intn meta k d kind base low small below =
    rw (exponential_delay past_int64 meta k d kind base low small)
      (by_jitter intn (d * 2 ^ k) below meta.jitter)
