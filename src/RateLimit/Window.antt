-- ===== src/RateLimit/Window.antt =====
-- core/rate_limit.py: how many acquisitions a window of time holds.
use bailian_free_claude_code.Base.{
  ℕ, ◌+◌, ◌≤◌, ◌<◌, ◌≡◌, refl, ◌&&◌, some, List, [], ◌∷◌, ◌++◌, arith, leb, ltb, length, All,
  Bool-cases, inl, inr, if◌then◌else◌,
}
use bailian_free_claude_code.RateLimit.{Limiter, create, drop_expired, attempt, grants}

-- The number of the times in `[from, to)`.
unfoldable pub count_in : ℕ → ℕ → List ℕ → ℕ
count_in from to [] = 0
count_in from to (t ∷ ts) = (if leb from t && ltb t to then 1 else 0) + count_in from to ts

-- Each time is at least the one before it, and `last` is the first one's bound.
abbrev IsMonotone : ℕ → List ℕ → Type 0
IsMonotone last [] = Unit
IsMonotone last (now ∷ nows) = (last ≤ now) × IsMonotone now nows

-- What `drop_expired` takes away.
expired_part : ℕ → ℕ → List ℕ → List ℕ
expired_part window now [] = []
expired_part window now (t ∷ ts) =
    let rest = expired_part window now ts in if leb (t + window) now then t ∷ rest else []

-- Every time is too old to be counted at `now`.
abbrev AllOld : ℕ → ℕ → List ℕ → Type 0
AllOld window now ts = All (λ t. t + window ≤ now) ts

expired_part-AllOld :
    (window now : ℕ) (ts : List ℕ) → AllOld window now (expired_part window now ts)
unfolding expired_part
expired_part-AllOld window now [] = tt
expired_part-AllOld window now (t ∷ ts) = ground (arith, expired_part-AllOld window now ts)

count_in-split :
    (from to window now : ℕ) (ts : List ℕ)
    → count_in from to (expired_part window now ts) + count_in from to (drop_expired window now ts)
      ≡ count_in from to ts
unfolding count_in expired_part drop_expired
count_in-split from to window now [] = refl
count_in-split from to window now (t ∷ ts) = ground (arith, count_in-split from to window now ts)

count_in-append :
    (from to : ℕ) (xs ys : List ℕ)
    → count_in from to (xs ++ ys) ≡ count_in from to xs + count_in from to ys
unfolding count_in
count_in-append from to [] ys = omega arith
count_in-append from to (x ∷ xs) ys = omega (arith, count_in-append from to xs ys)

count_in-le-length : (from to : ℕ) (xs : List ℕ) → count_in from to xs ≤ length xs
unfolding count_in
count_in-le-length from to [] = omega arith
count_in-le-length from to (x ∷ xs) = ground (arith, count_in-le-length from to xs)

AllOld-mono : (window a b : ℕ) (xs : List ℕ) → a ≤ b → AllOld window a xs → AllOld window b xs
AllOld-mono window a b [] h old = tt
AllOld-mono window a b (x ∷ xs) h old = (omega arith, AllOld-mono window a b xs h old.1)

AllOld-append :
    (window now : ℕ) (xs ys : List ℕ)
    → AllOld window now xs
    → AllOld window now ys
    → AllOld window now (xs ++ ys)
AllOld-append window now [] ys hx hy = hy
AllOld-append window now (x ∷ xs) ys hx hy = (hx.0, AllOld-append window now xs ys hx.1 hy)

-- A window that holds `now` holds none of the old times.
count_in-AllOld :
    (from window now : ℕ) (xs : List ℕ)
    → now < from + window
    → AllOld window now xs
    → count_in from (from + window) xs ≡ 0
unfolding count_in
count_in-AllOld from window now [] h old = refl
count_in-AllOld from window now (x ∷ xs) h old =
    ground (arith, count_in-AllOld from window now xs h old.1)

-- The times of past acquisitions: those dropped are old, and no window holds too many.
record IsStrict (last : ℕ) (l : Limiter) (old : List ℕ) : Type 0 where
  dropped_old : AllOld l.rate_window last old
  bounded :
      (from : ℕ)
      → count_in from (from + l.rate_window) old + count_in from (from + l.rate_window) l.times
        ≤ l.rate_limit

module _ (l : Limiter) (last now : ℕ) (old : List ℕ) (later : last ≤ now)
    (s : IsStrict last l old) where
  abbrev gone : List ℕ
  gone = old ++ expired_part l.rate_window now l.times

  gone-AllOld : AllOld l.rate_window now gone
  gone-AllOld =
      AllOld-append l.rate_window now old _
        (AllOld-mono l.rate_window last now old later s.dropped_old)
        (expired_part-AllOld l.rate_window now l.times)

  -- Dropping moves times from `times` to the past.
  kept_bounded :
      (from : ℕ)
      → count_in from (from + l.rate_window) gone
          + count_in from (from + l.rate_window) (drop_expired l.rate_window now l.times)
        ≡ count_in from (from + l.rate_window) old + count_in from (from + l.rate_window) l.times
  kept_bounded from = omega (
    arith,
    count_in-append from (from + l.rate_window) old (expired_part l.rate_window now l.times),
    count_in-split from (from + l.rate_window) l.rate_window now l.times,
  )

  acquired_bounded :
      (from : ℕ)
      → length (drop_expired l.rate_window now l.times) < l.rate_limit
      → count_in from (from + l.rate_window) gone
          + count_in from
              (from + l.rate_window)
              (drop_expired l.rate_window now l.times ++ now ∷ [])
        ≤ l.rate_limit
  unfolding count_in
  acquired_bounded from room = ground (
    arith,
    kept_bounded from,
    s.bounded from,
    count_in-append from (from + l.rate_window) (drop_expired l.rate_window now l.times) (now ∷ []),
    count_in-AllOld from l.rate_window now gone,
    gone-AllOld,
    count_in-le-length from (from + l.rate_window) (drop_expired l.rate_window now l.times),
  )

  attempt-IsStrict : IsStrict now (attempt l now).0 gone
  unfolding attempt
  attempt-IsStrict =
      elim (Bool-cases (ltb (length (drop_expired l.rate_window now l.times)) l.rate_limit)) [
        | inl room ↦ rw room (record {
          dropped_old = gone-AllOld;
          bounded = λ from. acquired_bounded from (ground arith);
        })
        | inr full ↦ rw full (record {
          dropped_old = gone-AllOld;
          bounded = λ from. omega (arith, kept_bounded from, s.bounded from);
        })
      ]

grants-bounded :
    (l : Limiter) (last : ℕ) (old nows : List ℕ) (from : ℕ)
    → IsStrict last l old
    → IsMonotone last nows
    → count_in from (from + l.rate_window) old
        + count_in from (from + l.rate_window) l.times
        + count_in from (from + l.rate_window) (grants l nows)
      ≤ l.rate_limit
unfolding grants count_in attempt
grants-bounded l last old [] from s m = omega (arith, s.bounded from)
grants-bounded l last old (now ∷ nows) from s m = ground (
  arith,
  grants-bounded (attempt l now).0 now (gone l last now old m.0 s) nows from
      (attempt-IsStrict l last now old m.0 s) m.1,
  kept_bounded l last now old m.0 s from,
  count_in-append from (from + l.rate_window) (drop_expired l.rate_window now l.times) (now ∷ []),
)

-- However many callers make passes, at times that never decrease, a window `[from, from + rate_window)`
-- holds at most `rate_limit` acquisitions.
pub strict_window :
    (rate_limit rate_window : ℕ) (l : Limiter) (nows : List ℕ) (from : ℕ)
    → create rate_limit rate_window ≡ some l
    → IsMonotone 0 nows
    → count_in from (from + rate_window) (grants l nows) ≤ rate_limit
unfolding create count_in
strict_window rate_limit rate_window l nows from made m =
    ground (arith, grants-bounded l 0 [] nows from, made)
