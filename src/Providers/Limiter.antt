-- ===== src/Providers/Limiter.antt =====
-- providers/rate_limit.py: `GlobalRateLimiter`, but for its semaphore and its log. Times are natural
-- ticks. One caller is modelled, whose sleeps end on time; the call that is tried, and the random
-- jitters, are inputs. A limit that is asked for is an integer, and so is a window, in ticks.
pub mod Acquire
pub mod Retry
pub mod Scopes
use bailian_free_claude_code.Base.{
  ℕ, zero, suc, ◌+◌, ◌-◌, ◌*◌, ◌^◌, ◌≤◌, ◌<◌, String, ◌≡◌, refl, sym, ap, ◌∙◌, ◌≢◌, ◌↔◌, ◌⊎◌, inl,
  inr, Bool, true, false, not, ◌&&◌, ◌||◌, Option, none, some, List, [], ◌∷◌, ◌++◌, map, arith,
  eq_iff, ltb, leb, if◌then◌else◌, leb→le, Bool-cases, Option-cases, Eq, ◌==◌, nat_eq, string_eq,
  beq_refl, length, All, filter_by, contains, count, contains-append, Dict, keys, values, is_some,
  get, put, remove, modify, has, get-put, get-put_self, get-remove, get-modify, keys-modify,
  get-nil, dict_laws, value_error, key_error, Outcome, ok, raised, ◌>>=◌, truthy,
}
use bailian_free_claude_code.Sse.Json.{ℤ, pos, negsuc, int_eq}
use bailian_free_claude_code.RateLimit.{Limiter, create, attempt, Attempt, acquired, wait}

pub record GlobalRateLimiter : Type 0 where
  pub rate_limit : ℕ
  pub rate_window : ℕ
  pub max_concurrency : ℕ
  pub proactive_limiter : Limiter
  pub blocked_until : ℕ

-- `__init__`: the numbers are kept once they are known to be positive.
new_limiter : ℤ → ℤ → ℤ → Outcome GlobalRateLimiter
unfolding create
new_limiter (negsuc a) rate_window max_concurrency = raised value_error
new_limiter (pos a) (negsuc b) max_concurrency = raised value_error
new_limiter (pos a) (pos b) (negsuc c) = raised value_error
new_limiter (pos a) (pos b) (pos c) =
    if leb a 0
    then raised value_error
    else if leb b 0
    then raised value_error
    else if leb c 0
    then raised value_error
    else elim (create a b) [
      | none ↦ raised value_error
      | some limiter ↦ ok (record {
        rate_limit = a;
        rate_window = b;
        max_concurrency = c;
        proactive_limiter = limiter;
        blocked_until = 0;
      })
    ]

abbrev matches_config : GlobalRateLimiter → ℤ → ℤ → ℤ → Bool
matches_config g rate_limit rate_window max_concurrency =
    pos g.rate_limit == rate_limit
    && pos g.rate_window == rate_window
    && pos g.max_concurrency == max_concurrency

-- `n or default`
abbrev or_default : Option ℤ → ℕ → ℤ
or_default none default = pos default
or_default (some n) default = if n == pos 0 then pos default else n

-- A new instance under its scope.
abbrev build_scoped :
    Dict String GlobalRateLimiter
    → String
    → ℤ
    → ℤ
    → ℤ
    → Outcome (Dict String GlobalRateLimiter × GlobalRateLimiter)
build_scoped scoped scope rate_limit rate_window max_concurrency =
    new_limiter rate_limit rate_window max_concurrency >>= λ g. ok (put scoped scope g, g)

-- `get_scoped_instance`: the instances afterwards, and the one that is returned. A second of the
-- window is `second` ticks.
pub get_scoped_instance :
    ℕ
    → Dict String GlobalRateLimiter
    → String
    → Option ℤ
    → Option ℤ
    → ℤ
    → Outcome (Dict String GlobalRateLimiter × GlobalRateLimiter)
unfolding new_limiter
get_scoped_instance second scoped scope rate_limit rate_window max_concurrency =
    let limit = or_default rate_limit 40 in
    let window = or_default rate_window (60 * second) in
    if scope == "" then raised value_error else elim (get scoped scope) [
      | some existing ↦
          if matches_config existing limit window max_concurrency
          then ok (scoped, existing)
          else build_scoped scoped scope limit window max_concurrency
      | none ↦ build_scoped scoped scope limit window max_concurrency
    ]

-- `StrictSlidingWindowLimiter.acquire` by a caller that is alone: it sleeps as long as it is told and
-- tries again. `none` stands for a caller that still waits after this many passes.
acquire_alone : ℕ → Limiter → ℕ → Limiter × Option ℕ
unfolding attempt
acquire_alone zero l now = (l, none)
acquire_alone (suc passes) l now =
    let (l1, result) = attempt l now in
    elim result [ acquired ↦ (l1, some now) | wait w ↦ acquire_alone passes l1 (now + w) ]

abbrev is_blocked : GlobalRateLimiter → ℕ → Bool
is_blocked g now = ltb now g.blocked_until

-- `remaining_wait`
abbrev remaining_wait : GlobalRateLimiter → ℕ → ℕ
remaining_wait g now = g.blocked_until - now

abbrev set_blocked : GlobalRateLimiter → ℕ → ℕ → GlobalRateLimiter
set_blocked g now seconds = record g { blocked_until = now + seconds }

-- `wait_if_blocked`: the time at which it returns, and whether it waited for a block.
pub wait_if_blocked : GlobalRateLimiter → ℕ → GlobalRateLimiter × (Option ℕ × Bool)
unfolding acquire_alone
wait_if_blocked g now =
    let blocked = is_blocked g now in
    let start = if blocked then now + remaining_wait g now else now in
    let (l1, got) = acquire_alone 2 g.proactive_limiter start in
    (record g { proactive_limiter = l1 }, (got, blocked))

-- What the call that is tried does: it returns, or raises one of the exceptions that are told apart.
pub data Reply (A E : Type 0) : Type 0 where
  returned : A → Reply A E
  rate_limit_error : E → Reply A E
  http_status_error : ℕ → E → Reply A E
  other_error : E → Reply A E

-- `still_waiting` is no end of the code: the caller's passes for a slot are used up.
pub data Ended (A E : Type 0) : Type 0 where
  returns : A → Ended A E
  raises : E → Ended A E
  asserts : Ended A E
  still_waiting : Ended A E

-- What comes of a reply: the end, or the exception of a 429.
abbrev judge : {A E : Type 0} → Reply A E → Ended A E ⊎ E
judge (returned a) = inl (returns a)
judge (rate_limit_error e) = inr e
judge (http_status_error code e) = if code == 429 then inr e else inl (raises e)
judge (other_error e) = inl (raises e)

-- A run: its end, the limiter, and the times at which the call was tried.
pub record Run (A E : Type 0) : Type 0 where
  pub ended : Ended A E
  pub limiter : GlobalRateLimiter
  pub calls : List ℕ

abbrev min : ℕ → ℕ → ℕ
min a b = if leb a b then a else b

abbrev backoff : ℕ → ℕ → (ℕ → ℕ) → ℕ → ℕ
backoff base_delay max_delay jitters n = min (base_delay * 2 ^ n) max_delay + jitters n

-- The reply of the call at each attempt and the time it takes, the retries, the base delay and the
-- cap, and the jitter of each attempt.
module _ {A E : Type 0} (fn : ℕ → Reply A E) (took : ℕ → ℕ) (max_retries base_delay max_delay : ℕ)
    (jitters : ℕ → ℕ) where
  abbrev raise_last : Option E → Ended A E
  raise_last none = asserts
  raise_last (some e) = raises e

  -- The rounds of the loop that are left, from this attempt on.
  unfoldable pub execute_from : ℕ → ℕ → Option E → GlobalRateLimiter → ℕ → Run A E
  unfolding wait_if_blocked
  execute_from zero n last_exc g now = record {
    ended = raise_last last_exc;
    limiter = g;
    calls = [];
  }
  execute_from (suc left) n last_exc g now =
      let (g1, (got, waited)) = wait_if_blocked g now in
      elim got [
        | none ↦ record { ended = still_waiting; limiter = g1; calls = [] }
        | some start ↦ elim (judge (fn n)) [
          | inl end ↦ record { ended = end; limiter = g1; calls = start ∷ [] }
          | inr e ↦
              let failed = start + took n in
              let delay = backoff base_delay max_delay jitters n in
              let rest =
                execute_from left (suc n) (some e) (set_blocked g1 failed delay) (failed + delay) in
              if leb max_retries n
              then record { ended = raises e; limiter = g1; calls = start ∷ [] }
              else record rest { calls = start ∷ rest.calls }
        ]
      ]

  -- `execute_with_retry`
  abbrev pub execute_with_retry : GlobalRateLimiter → ℕ → Run A E
  execute_with_retry g now = execute_from (suc max_retries) 0 none g now
