-- ===== src/RateLimit/Tests.antt =====
-- core/rate_limit.py on small inputs, and the theorems applied there.
use bailian_free_claude_code.Base.{◌+◌, ◌-◌, ◌≤◌, ◌<◌, ◌≡◌, refl, ◌↔◌, some, [], ◌∷◌, arith}
use bailian_free_claude_code.RateLimit.{
  Limiter, create, drop_expired, acquired, wait, attempt, acquire, grants,
}
use bailian_free_claude_code.RateLimit.Window.{count_in, strict_window}
use bailian_free_claude_code.RateLimit.Progress.{IsValid, acquire_after_wait, attempt_exact}

abbrev two_in_ten : Limiter
two_in_ten = record { rate_limit = 2; rate_window = 10; times = [] }

abbrev full : Limiter
full = record { rate_limit = 2; rate_window = 10; times = 3 ∷ 5 ∷ [] }

grants-runs : grants two_in_ten (3 ∷ 5 ∷ 8 ∷ 12 ∷ 13 ∷ 14 ∷ 15 ∷ []) ≡ 3 ∷ 5 ∷ 13 ∷ 15 ∷ []
unfolding grants attempt drop_expired
grants-runs = refl

full-IsValid : IsValid 5 full
full-IsValid = omega arith

full-refuses : (attempt full 8).1 ≡ wait 5
unfolding attempt drop_expired
full-refuses = refl

two_in_ten-made : create 2 10 ≡ some two_in_ten
unfolding create
two_in_ten-made = refl

strict_window_example : count_in 3 13 (grants two_in_ten (3 ∷ 5 ∷ 8 ∷ 12 ∷ 13 ∷ [])) ≤ 2
strict_window_example =
    strict_window 2 10 two_in_ten (3 ∷ 5 ∷ 8 ∷ 12 ∷ 13 ∷ []) 3 two_in_ten-made (omega arith)

acquire_after_wait_example : (acquire full (8 ∷ 13 ∷ [])).1 ≡ some 13
acquire_after_wait_example =
    acquire_after_wait full 5 8 13 5 full-IsValid full-refuses (omega arith)

attempt_exact_example :
    ((attempt full 8).1 ≡ acquired) ↔ (count_in (8 + 1 - 10) (8 + 1) (3 ∷ 5 ∷ []) < 2)
attempt_exact_example = attempt_exact full 5 8 full-IsValid (omega arith)
