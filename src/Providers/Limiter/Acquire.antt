-- ===== src/Providers/Limiter/Acquire.antt =====
-- providers/rate_limit.py: a caller that is alone gets its slot.
use bailian_free_claude_code.Base.{
  ℕ, ◌+◌, ◌≤◌, ◌≡◌, refl, ◌⊎◌, inl, inr, Bool, Option, some, arith, if◌then◌else◌, nat_eq,
  string_eq,
}
use bailian_free_claude_code.RateLimit.{Limiter, attempt, Attempt, acquired, wait, acquire}
use bailian_free_claude_code.RateLimit.Progress.{
  IsValid, attempt-IsValid, acquire_after_wait, IsValid-later,
}
use bailian_free_claude_code.Providers.Limiter.{
  GlobalRateLimiter, acquire_alone, wait_if_blocked, remaining_wait, is_blocked,
}

Attempt-cases : (a : Attempt) → (a ≡ acquired) ⊎ ((w : ℕ) × (a ≡ wait w))
Attempt-cases acquired = inl refl
Attempt-cases (wait w) = inr (w, refl)

-- The slot of a caller, its time and the limiter then.
pub record Granted (l : Limiter) (from : ℕ) (r : Limiter × Option ℕ) : Type 0 where
  pub time : ℕ
  pub at : r.1 ≡ some time
  pub later : from ≤ time
  pub valid : IsValid time r.0

second_attempt :
    (l : Limiter) (now w : ℕ)
    → IsValid now l
    → (attempt l now).1 ≡ wait w
    → (attempt (attempt l now).0 (now + w)).1 ≡ acquired
unfolding acquire
second_attempt l now w v refused =
    let r = attempt (attempt l now).0 (now + w) in
    let ends = acquire_after_wait l now now (now + w) w v refused (omega arith) in
    elim (Attempt-cases r.1) [
      | inl granted ↦ granted
      | inr (w2, still) ↦ absurd (ground (arith, ends, refused, still))
    ]

acquire_alone-Granted :
    (l : Limiter) (now : ℕ) → IsValid now l → Granted l now (acquire_alone 2 l now)
unfolding acquire_alone
acquire_alone-Granted l now v = elim (Attempt-cases (attempt l now).1) [
  | inl granted ↦
      rw (acquire_alone, granted)
        (record {
          time = now;
          at = refl;
          later = omega arith;
          valid = attempt-IsValid l now now (omega arith) v;
        })
  | inr (w, refused) ↦
      let v1 = attempt-IsValid l now now (omega arith) v in
      rw (acquire_alone, refused, second_attempt l now w v refused)
        (record {
          time = now + w;
          at = refl;
          later = omega arith;
          valid = attempt-IsValid (attempt l now).0 now (now + w) (omega arith) v1;
        })
]

-- When `wait_if_blocked` returns: not before it was called, nor while the limiter is blocked.
pub record Waited (g : GlobalRateLimiter) (now : ℕ) (r : GlobalRateLimiter × (Option ℕ × Bool))
    : Type 0 where
  pub time : ℕ
  pub at : r.1.0 ≡ some time
  pub later : now ≤ time
  pub unblocked : g.blocked_until ≤ time
  pub valid : IsValid time r.0.proactive_limiter

pub wait_if_blocked-Waited :
    (g : GlobalRateLimiter) (now : ℕ)
    → IsValid now g.proactive_limiter
    → Waited g now (wait_if_blocked g now)
unfolding wait_if_blocked
wait_if_blocked-Waited g now v =
    let start = if is_blocked g now then now + remaining_wait g now else now in
    let after : (now ≤ start) × (g.blocked_until ≤ start) = (ground arith, ground arith) in
    let got =
      acquire_alone-Granted g.proactive_limiter start
        (IsValid-later g.proactive_limiter now start after.0 v) in
    record {
      time = got.time;
      at = got.at;
      later = omega (arith, got.later, after.0);
      unblocked = omega (arith, got.later, after.1);
      valid = got.valid;
    }
