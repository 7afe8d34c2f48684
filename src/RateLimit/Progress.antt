-- ===== src/RateLimit/Progress.antt =====
-- core/rate_limit.py: a refused caller gets its slot after the wait, and is refused for a reason.
use bailian_free_claude_code.Base.{
  ℕ, ◌+◌, ◌-◌, ◌≤◌, ◌<◌, ◌≡◌, refl, some, List, [], ◌∷◌, ◌++◌, arith, leb, ltb, length,
  length-append, Bool-cases, inl, inr, ◌↔◌,
}
use bailian_free_claude_code.RateLimit.{
  Limiter, acquired, wait, drop_expired, oldest_wait, attempt, acquire,
}
use bailian_free_claude_code.RateLimit.Window.{count_in}

length-drop_expired-le :
    (window now : ℕ) (ts : List ℕ) → length (drop_expired window now ts) ≤ length ts
unfolding drop_expired
length-drop_expired-le window now [] = omega arith
length-drop_expired-le window now (t ∷ ts) = ground (arith, length-drop_expired-le window now ts)

-- A limiter between two passes: its times never decrease and none lies after `last`.
abbrev Sorted : ℕ → List ℕ → ℕ → Type 0
Sorted from [] last = from ≤ last
Sorted from (t ∷ ts) last = (from ≤ t) × Sorted t ts last

pub record IsValid (last : ℕ) (l : Limiter) : Type 0 where
  pub positive : 0 < l.rate_limit
  pub fits : length l.times ≤ l.rate_limit
  pub sorted : Sorted 0 l.times last

Sorted-lower : (a b : ℕ) (ts : List ℕ) (last : ℕ) → a ≤ b → Sorted b ts last → Sorted a ts last
Sorted-lower a b [] last h s = omega arith
Sorted-lower a b (t ∷ ts) last h s = (omega arith, s.1)

Sorted-drop_expired :
    (from window now : ℕ) (ts : List ℕ) (last : ℕ)
    → Sorted from ts last
    → Sorted from (drop_expired window now ts) last
unfolding drop_expired
Sorted-drop_expired from window now [] last s = s
Sorted-drop_expired from window now (t ∷ ts) last s = elim (Bool-cases (leb (t + window) now)) [
  | inl old ↦ rw old (
      Sorted-lower from t (drop_expired window now ts) last s.0
        (Sorted-drop_expired t window now ts last s.1))
  | inr young ↦ rw young s
]

Sorted-snoc :
    (from : ℕ) (ts : List ℕ) (last now : ℕ)
    → Sorted from ts last
    → last ≤ now
    → Sorted from (ts ++ now ∷ []) now
Sorted-snoc from [] last now s h = omega arith
Sorted-snoc from (t ∷ ts) last now s h = (s.0, Sorted-snoc t ts last now s.1 h)

Sorted-weaken :
    (from : ℕ) (ts : List ℕ) (last now : ℕ) → Sorted from ts last → last ≤ now → Sorted from ts now
Sorted-weaken from [] last now s h = omega arith
Sorted-weaken from (t ∷ ts) last now s h = (s.0, Sorted-weaken t ts last now s.1 h)

Sorted-last : (from : ℕ) (ts : List ℕ) (last : ℕ) → Sorted from ts last → from ≤ last
Sorted-last from [] last s = s
Sorted-last from (t ∷ ts) last s = omega (arith, Sorted-last t ts last s.1)

-- A pass keeps the limiter valid, whether it acquires or not.
pub attempt-IsValid :
    (l : Limiter) (last now : ℕ) → last ≤ now → IsValid last l → IsValid now (attempt l now).0
unfolding attempt
attempt-IsValid l last now h v =
    let kept = drop_expired l.rate_window now l.times in
    let kept_sorted = Sorted-drop_expired 0 l.rate_window now l.times last v.sorted in
    elim (Bool-cases (ltb (length kept) l.rate_limit)) [
      | inl room ↦ rw room (record {
        positive = v.positive;
        fits = ground (arith, length-append kept (now ∷ []));
        sorted = Sorted-snoc 0 kept last now kept_sorted h;
      })
      | inr full ↦ rw full (record {
        positive = v.positive;
        fits = omega (arith, length-drop_expired-le l.rate_window now l.times, v.fits);
        sorted = Sorted-weaken 0 kept last now kept_sorted h;
      })
    ]

pub IsValid-later : (l : Limiter) (last now : ℕ) → last ≤ now → IsValid last l → IsValid now l
IsValid-later l last now h v = record {
  positive = v.positive;
  fits = v.fits;
  sorted = Sorted-weaken 0 l.times last now v.sorted h;
}

-- A wait is for the oldest time that is kept: with a full list there is one.
wait-oldest :
    (window now later : ℕ) (ts : List ℕ)
    → 0 < length ts
    → now + oldest_wait window now ts ≤ later
    → length (drop_expired window later ts) < length ts
unfolding drop_expired
wait-oldest window now later [] h k = absurd (omega arith)
wait-oldest window now later (t ∷ ts) h k = ground (arith, length-drop_expired-le window later ts)

-- A caller that is refused and waits as long as it is told acquires on its next pass, if nobody
-- else made a pass in between: `acquire` ends with the second reading of the clock.
pub acquire_after_wait :
    (l : Limiter) (last now later w : ℕ)
    → IsValid last l
    → (attempt l now).1 ≡ wait w
    → now + w ≤ later
    → (acquire l (now ∷ later ∷ [])).1 ≡ some later
unfolding acquire attempt
acquire_after_wait l last now later w v refused waited =
    let kept = drop_expired l.rate_window now l.times in
    ground (
      arith,
      wait-oldest l.rate_window now later kept,
      length-drop_expired-le l.rate_window now l.times,
      v.fits,
      v.positive,
      refused,
    )

-- The times that are kept at `now` are those of the last `window` ticks.
count_in-kept :
    (from window now : ℕ) (ts : List ℕ)
    → Sorted from ts now
    → now < from + window
    → count_in (now + 1 - window) (now + 1) ts ≡ length ts
unfolding count_in
count_in-kept from window now [] s h = refl
count_in-kept from window now (t ∷ ts) s h =
    ground (arith, count_in-kept t window now ts s.1, Sorted-last t ts now s.1)

count_in-recent :
    (from window now : ℕ) (ts : List ℕ)
    → Sorted from ts now
    → count_in (now + 1 - window) (now + 1) ts ≡ length (drop_expired window now ts)
unfolding count_in drop_expired
count_in-recent from window now [] s = refl
count_in-recent from window now (t ∷ ts) s = ground (
  arith,
  count_in-recent t window now ts s.1,
  count_in-kept t window now (t ∷ ts) (omega arith, s.1),
)

-- A pass at `now` acquires exactly if fewer than `rate_limit` of the recorded acquisitions lie in
-- the last `rate_window` ticks, those after `now - rate_window` and up to `now`.
pub attempt_exact :
    (l : Limiter) (last now : ℕ)
    → IsValid last l
    → last ≤ now
    → ((attempt l now).1 ≡ acquired)
      ↔ (count_in (now + 1 - l.rate_window) (now + 1) l.times < l.rate_limit)
unfolding attempt
attempt_exact l last now v h = ground (
  arith,
  count_in-recent 0 l.rate_window now l.times (Sorted-weaken 0 l.times last now v.sorted h),
)
