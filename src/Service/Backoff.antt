-- ===== src/Service/Backoff.antt =====
-- `computeBackoffMs` and `clampPriority` of internal/service/job.go, in 64-bit integers.
use stevy.Base.{
  ℕ, zero, suc, ◌+◌, ◌-◌, ◌*◌, ◌/◌, ◌%◌, ◌^◌, Bool, true, false, Option, none, some, ltb, leb,
  if◌then◌else◌, ◌==◌, ℤ, pos, negsuc,
}
use stevy.Base.Text.{Text, codes, text_eq}

-- An int64 as the integer that it stands for, and its bit pattern.
abbrev pub to_word : ℤ → ℕ
to_word (pos n) = n % 2 ^ 64
to_word (negsuc k) = 2 ^ 64 - 1 - k % 2 ^ 64

abbrev pub of_word : ℕ → ℤ
of_word w = if ltb w (2 ^ 63) then pos w else negsuc (2 ^ 64 - 1 - w)

unfoldable pub mul64 : ℤ → ℤ → ℤ
mul64 a b = of_word ((to_word a * to_word b) % 2 ^ 64)

-- `/ 2` rounds to 0.
abbrev pub neg : ℕ → ℤ
neg zero = pos 0
neg (suc k) = negsuc k

unfoldable pub half : ℤ → ℤ
half (pos n) = pos (n / 2)
half (negsuc k) = neg ((k + 1) / 2)

-- What `json.Unmarshal` finds in a job's metadata: the type if it is a string, whether the jitter is
-- the Boolean true, and the delay if it is a number, as `int64` takes it.
pub record Meta : Type 0 where
  pub backoff_type : Text
  pub jitter : Bool
  pub backoff_delay : Option ℤ

abbrev pub base_delay : Option ℤ → ℤ
base_delay none = pos 1000
base_delay (some d) = d

-- `int64(math.Pow(2, float64(attempt-1)))`: a half for attempt 0, and past int64 what the platform
-- makes of it.
unfoldable pub pow_int64 : (ℕ → ℤ) → ℕ → ℤ
pow_int64 past_int64 zero = pos 0
pow_int64 past_int64 (suc k) = if ltb k 63 then pos (2 ^ k) else past_int64 k

unfoldable pub backoff_ms : (ℕ → ℤ) → Meta → ℕ → ℤ
unfolding mul64 pow_int64
backoff_ms past_int64 meta attempt =
    if meta.backoff_type == codes "exponential"
    then mul64 (base_delay meta.backoff_delay) (pow_int64 past_int64 attempt)
    else base_delay meta.backoff_delay

-- `ms/2 + rand.Intn(ms/2+1)`, where `Intn` panics on what is not positive.
abbrev pub jittered : (ℕ → ℕ) → ℤ → Option ℤ
jittered intn (pos h) = some (pos (h + intn (h + 1)))
jittered intn (negsuc k) = none

unfoldable pub with_jitter : (ℕ → ℕ) → Bool → ℤ → Option ℤ
unfolding half
with_jitter intn false ms = some ms
with_jitter intn true ms = jittered intn (half ms)

unfoldable pub clamp_priority : ℕ → ℕ
clamp_priority p = if leb 75 p then 1 else if leb 50 p then 2 else if leb 25 p then 3 else 4
