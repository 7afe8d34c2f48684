-- ===== src/Providers/Tests.antt =====
-- The providers' limiter and the state of the Bailian models on small inputs.
use bailian_free_claude_code.Base.{
  ℕ, zero, suc, String, ◌≡◌, refl, Bool, true, false, not, ◌&&◌, Option, none, some, List, [], ◌∷◌,
  map, arith, leb, if◌then◌else◌, nat_eq, string_eq, contains, Dict, ok,
}
use bailian_free_claude_code.RateLimit.{drop_expired}
use bailian_free_claude_code.RateLimit.Progress.{IsValid}
use bailian_free_claude_code.Sse.Json.{Json, object, Fields, pos}
use bailian_free_claude_code.Providers.Limiter.{
  GlobalRateLimiter, get_scoped_instance, Reply, returned, rate_limit_error, execute_with_retry,
  execute_from,
}
use bailian_free_claude_code.Providers.Limiter.Retry.{Decided, retry_exact}
use bailian_free_claude_code.Providers.Limiter.Scopes.{Scoped, get_scoped_instance_lem}
use bailian_free_claude_code.Providers.Bailian.{
  Call, fails, works, filters, restart, clean, mark_model_failed, remove_failed_from_available,
}
use bailian_free_claude_code.Providers.Bailian.Restart.{first_state, calls, restart_lossless}
use bailian_free_claude_code.Providers.Bailian.Failures.{
  all_calls, all_keep_failures, failed_stays_out,
}

abbrev two_in_ten : GlobalRateLimiter
two_in_ten = record {
  rate_limit = 2;
  rate_window = 10;
  max_concurrency = 5;
  proactive_limiter = record { rate_limit = 2; rate_window = 10; times = [] };
  blocked_until = 4;
}

-- A call that is refused once.
abbrev second_time : ℕ → Reply String String
second_time zero = rate_limit_error "slow down"
second_time (suc n) = returned "done"

abbrev no_jitter : ℕ → ℕ
no_jitter n = 0

abbrev one_tick : ℕ → ℕ
one_tick n = 1

-- The first call waits for the block, the second one for the backoff.
second_time_calls :
    (execute_with_retry second_time one_tick 3 2 60 no_jitter two_in_ten 1).calls ≡ 4 ∷ 7 ∷ []
unfolding execute_from drop_expired
second_time_calls = refl

two_in_ten-IsValid : IsValid 1 two_in_ten.proactive_limiter
two_in_ten-IsValid = record { positive = omega arith; fits = omega arith; sorted = omega arith }

retry_exact_example :
    Decided second_time one_tick 3 2 60 no_jitter 0
      (if leb 1 two_in_ten.blocked_until then two_in_ten.blocked_until else 1)
      (execute_with_retry second_time one_tick 3 2 60 no_jitter two_in_ten 1)
retry_exact_example =
    retry_exact second_time one_tick 3 2 60 no_jitter two_in_ten 1 two_in_ten-IsValid

get_scoped_instance_lem_example :
    (r : Dict String GlobalRateLimiter × GlobalRateLimiter) × (get_scoped_instance 10
        (("bailian", two_in_ten) ∷ [])
        "bailian"
        (some (pos 3))
        none
        (pos 5)
      ≡ ok r)
    × Scoped 10 (("bailian", two_in_ten) ∷ []) "bailian" (some (pos 3)) none (pos 5) 3 600 5 r
get_scoped_instance_lem_example =
    get_scoped_instance_lem 10 (("bailian", two_in_ten) ∷ []) "bailian" (some (pos 3)) none 3 600 5
      refl refl refl (omega arith) (omega arith) (omega arith)

-- A file that holds the dict itself.
abbrev keep : Fields → Fields
keep d = d

abbrev read : Fields → Option Json
read d = some (object d)

abbrev some_calls : List (String × Call)
some_calls =
    ("t1", works "bailian/qwen")
    ∷ ("t2", fails "qwen")
    ∷ ("t3", filters ("bailian/qwen" ∷ "bailian/glm" ∷ []))
    ∷ []

glm_left : (calls keep read some_calls first_state).state.available_models ≡ "glm" ∷ []
unfolding calls
glm_left = refl

restart_lossless_example :
    (restart keep read none ≡ ok first_state)
    × (restart keep read (calls keep read some_calls first_state).state_file
        ≡ ok (calls keep read some_calls first_state))
restart_lossless_example = restart_lossless keep read (λ d. refl) some_calls

abbrev later_calls : List (Bool × (String × Call))
later_calls = (false, ("t2", works "qwen")) ∷ []

later_calls_keep : all_keep_failures later_calls ≡ true
unfolding all_keep_failures
later_calls_keep = refl

failed_stays_out_example :
    let m1 =
      all_calls keep read later_calls
        (mark_model_failed keep read true "t1" "bailian/qwen" first_state) in
    let r = remove_failed_from_available keep read true "t3" ("qwen" ∷ "glm" ∷ []) m1 in
    (contains r.1 (clean "bailian/qwen") ≡ false)
    × (contains r.1 "glm" ≡ (
        contains (map clean ("qwen" ∷ "glm" ∷ [])) "glm"
        && not (contains m1.state.failed_models "glm")))
    × (r.0.state.available_models ≡ r.1)
failed_stays_out_example =
    failed_stays_out keep read true true "t1" "t3" "bailian/qwen" first_state later_calls
      ("qwen" ∷ "glm" ∷ []) "glm" later_calls_keep
