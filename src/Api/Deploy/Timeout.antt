-- ===== src/Api/Deploy/Timeout.antt =====
-- How long a synchronous `POST /deploy` waits.
use rollhook.Prelude.{
  ℕ, ◌+◌, ◌*◌, ◌<◌, ◌≤◌, ◌^◌, Option, none, some, ◌≡◌, arith, ltb, ◌⊎◌, inl, inr, Bool-cases, ℤ,
  pos, negsuc, int64, int64-small, int64-large,
}
use rollhook.Text.{Bytes}
use rollhook.Api.Deploy.{positive_env, sync_timeout, minute, millisecond}

-- The wait that the two variables ask for, as a number without a bound.
abbrev pub asked : Option ℕ → Option ℕ → ℕ
asked (some n) health = n * minute
asked none (some n) = n * millisecond + 5 * minute
asked none none = 360 * 1000 * millisecond

-- What a computed duration is: the number, or negative after the overflow.
abbrev pub IsWrapped : ℕ → ℤ → Type 0
IsWrapped t d = ((t < 2 ^ 63) × (d ≡ pos t)) ⊎ ((2 ^ 63 ≤ t) × ((k : ℕ) × (d ≡ negsuc k)))

int64-IsWrapped : (t : ℕ) → t < 2 ^ 64 → IsWrapped t (int64 t)
int64-IsWrapped t lt = elim (Bool-cases (ltb t (2 ^ 63))) [
  | inl e ↦ inl (ground (arith, e), int64-small t (ground (arith, e)))
  | inr e ↦ inr (ground (arith, e), int64-large t (ground (arith, e)) lt)
]

-- `sync_timeout` behind the parsing of the variables.
abbrev wait_of : Option ℕ → Option ℕ → ℤ
wait_of a b = elim a [
  | some n ↦ int64 (n * minute)
  | none ↦ elim b [
    | some n ↦ int64 (n * millisecond + 5 * minute)
    | none ↦ int64 (60000 * millisecond + 5 * minute)
  ]
]

wait_of-IsWrapped : (a b : Option ℕ) → asked a b < 2 ^ 64 → IsWrapped (asked a b) (wait_of a b)
wait_of-IsWrapped (some n) b lt = int64-IsWrapped (n * minute) lt
wait_of-IsWrapped none (some n) lt = int64-IsWrapped (n * millisecond + 5 * minute) lt
wait_of-IsWrapped none none lt = int64-IsWrapped (60000 * millisecond + 5 * minute) lt

-- The wait asked for is ROLLHOOK_SYNC_TIMEOUT_MIN minutes if that is a positive number, else the
-- health timeout and five minutes, which makes six minutes when that variable is no positive number
-- either. If it is below 2 ^ 63 nanoseconds it is the wait; from there to 2 ^ 64 nanoseconds the
-- product overflows, and the wait is negative.
pub sync_timeout-IsWrapped :
    (sync_min health_ms : Bytes)
    → asked (positive_env sync_min) (positive_env health_ms) < 2 ^ 64
    → IsWrapped
        (asked (positive_env sync_min) (positive_env health_ms))
        (sync_timeout sync_min health_ms)
unfolding sync_timeout
sync_timeout-IsWrapped sync_min health_ms lt =
    wait_of-IsWrapped (positive_env sync_min) (positive_env health_ms) lt
