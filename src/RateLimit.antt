-- ===== src/RateLimit.antt =====
-- core/rate_limit.py: `StrictSlidingWindowLimiter`. The readings of `time.monotonic()` are an input
-- of the model, in natural ticks, and so is the window. One pass of the `while True` loop of
-- `acquire` runs under the lock, so a step of the model is one pass by some caller.
pub mod Window
pub mod Progress
mod Tests
use bailian_free_claude_code.Base.{
  ℕ, ◌+◌, ◌-◌, Option, none, some, List, [], ◌∷◌, ◌++◌, leb, ltb, length, if◌then◌else◌,
}

pub record Limiter : Type 0 where
  pub rate_limit : ℕ
  pub rate_window : ℕ
  pub times : List ℕ

-- `__init__`: `none` stands for the `ValueError` of a limit or a window that is not positive.
unfoldable pub create : ℕ → ℕ → Option Limiter
create rate_limit rate_window =
    if leb rate_limit 0
    then none
    else if leb rate_window 0
    then none
    else some (record { rate_limit = rate_limit; rate_window = rate_window; times = [] })

-- `while self._times and self._times[0] <= cutoff: self._times.popleft()`, where the cutoff is
-- `now - rate_window`; the test is written without the subtraction, which may fall below zero.
unfoldable pub drop_expired : ℕ → ℕ → List ℕ → List ℕ
drop_expired window now [] = []
drop_expired window now (t ∷ ts) =
    let rest = drop_expired window now ts in if leb (t + window) now then rest else t ∷ ts

pub data Attempt : Type 0 where
  acquired : Attempt
  -- `max(0.0, (oldest + rate_window) - now)`
  wait : ℕ → Attempt

abbrev oldest_wait : ℕ → ℕ → List ℕ → ℕ
oldest_wait window now [] = 0
oldest_wait window now (oldest ∷ ts) = oldest + window - now

-- One pass of the loop of `acquire`.
unfoldable pub attempt : Limiter → ℕ → Limiter × Attempt
attempt l now =
    let kept = drop_expired l.rate_window now l.times in
    if ltb (length kept) l.rate_limit
    then (record l { times = kept ++ now ∷ [] }, acquired)
    else (record l { times = kept }, wait (oldest_wait l.rate_window now kept))

-- `acquire` by one caller: the list holds its clock readings, one for each pass of the loop. The
-- result is the time at which it acquired, if it did so within these passes.
unfoldable pub acquire : Limiter → List ℕ → Limiter × Option ℕ
acquire l [] = (l, none)
acquire l (now ∷ nows) =
    let (l', result) = attempt l now in
    let rest = acquire l' nows in elim result [ acquired ↦ (l', some now) | wait _ ↦ rest ]

-- The times at which somebody acquired, when callers make their passes at the given times.
pub grants : Limiter → List ℕ → List ℕ
grants l [] = []
grants l (now ∷ nows) =
    let (l', result) = attempt l now in
    let rest = grants l' nows in elim result [ acquired ↦ now ∷ rest | wait _ ↦ rest ]
