-- ===== src/Providers/Limiter/Retry.antt =====
-- providers/rate_limit.py: how `execute_with_retry` ends, and when it tries.
use bailian_free_claude_code.Base.{
  ℕ, zero, suc, ◌+◌, ◌≤◌, ◌<◌, ◌≡◌, refl, sym, ap, ◌∙◌, ◌⊎◌, inl, inr, Bool, true, false, Option,
  none, some, List, [], ◌∷◌, arith, leb, if◌then◌else◌, Bool-cases, ◌==◌, nat_eq, string_eq, length,
}
use mathlib.Core.Path.{subst}
use bailian_free_claude_code.Base.{nat_beq_iff}
use bailian_free_claude_code.RateLimit.Progress.{IsValid, IsValid-later}
use bailian_free_claude_code.Providers.Limiter.{
  GlobalRateLimiter, wait_if_blocked, Reply, Ended, raises, judge, Run, backoff, execute_from,
  execute_with_retry,
}
use bailian_free_claude_code.Providers.Limiter.Acquire.{Waited, wait_if_blocked-Waited}

abbrev is_429 : {A E : Type 0} → Reply A E → Bool
is_429 r = elim (judge r) [ inl _ ↦ false | inr _ ↦ true ]

-- The end, where this is the last reply.
abbrev pub settle : {A E : Type 0} → Reply A E → Ended A E
settle r = elim (judge r) [ inl end ↦ end | inr e ↦ raises e ]

-- Each call from this attempt on is not before a time: of the first call it is given, and of each
-- other one the call before it has ended then, and its backoff is over.
pub Spaced : (ℕ → ℕ) → (ℕ → ℕ) → ℕ → ℕ → List ℕ → Type 0
Spaced took delays n from [] = Unit {0}
Spaced took delays n from (t ∷ ts) =
    (from ≤ t) × Spaced took delays (suc n) (t + took n + delays n) ts

module _ {A E : Type 0} (fn : ℕ → Reply A E) (took : ℕ → ℕ) (max_retries base_delay max_delay : ℕ)
    (jitters : ℕ → ℕ) where
  -- A run from this attempt on ends with the reply of attempt `decisive`.
  pub record Decided (n from : ℕ) (r : Run A E) : Type 0 where
    pub decisive : ℕ
    pub within : (n ≤ decisive) × (decisive ≤ max_retries)
    pub before : (j : ℕ) → n ≤ j → j < decisive → is_429 (fn j) ≡ true
    pub last : (decisive ≡ max_retries) ⊎ (is_429 (fn decisive) ≡ false)
    pub ended_so : r.ended ≡ settle (fn decisive)
    pub counted : n + length r.calls ≡ 1 + decisive
    pub spaced : Spaced took (backoff base_delay max_delay jitters) n from r.calls

  module _ (left n : ℕ) (last_exc : Option E) (g : GlobalRateLimiter) (now : ℕ)
      (w : Waited g now (wait_if_blocked g now)) where
    abbrev run : Run A E
    run = execute_from fn took max_retries base_delay max_delay jitters (suc left) n last_exc g now

    step-ends :
        (end : Ended A E)
        → judge (fn n) ≡ inl end
        → run ≡ record { ended = end; limiter = (wait_if_blocked g now).0; calls = w.time ∷ [] }
    unfolding execute_from
    step-ends end e = rw (execute_from, w.at, e) refl

    step-last :
        (exc : E)
        → judge (fn n) ≡ inr exc
        → leb max_retries n ≡ true
        → run
          ≡ record { ended = raises exc; limiter = (wait_if_blocked g now).0; calls = w.time ∷ [] }
    unfolding execute_from
    step-last exc e full = rw (execute_from, w.at, e, full) refl

    abbrev over : ℕ
    over = w.time + took n + backoff base_delay max_delay jitters n

    abbrev again : E → Run A E
    again exc =
        execute_from fn took max_retries base_delay max_delay jitters left (suc n) (some exc)
          (record (wait_if_blocked g now).0 { blocked_until = over }) over

    step-again :
        (exc : E)
        → judge (fn n) ≡ inr exc
        → leb max_retries n ≡ false
        → run ≡ record (again exc) { calls = w.time ∷ (again exc).calls }
    unfolding execute_from
    step-again exc e room = rw (execute_from, w.at, e, room) refl

  judge-cases :
      (r : Reply A E)
      → ((end : Ended A E) × (judge r ≡ inl end)) ⊎ ((exc : E) × (judge r ≡ inr exc))
  judge-cases r =
      elim (judge r) as (λ x. ((end : Ended A E) × (x ≡ inl end)) ⊎ ((exc : E) × (x ≡ inr exc))) [
        | inl end ↦ inl (end, refl)
        | inr exc ↦ inr (exc, refl)
      ]

  -- The last attempt of a run.
  module _ (n from : ℕ) (g : GlobalRateLimiter) (now : ℕ) (w : Waited g now (wait_if_blocked g now))
      (start : (t : ℕ) → now ≤ t → g.blocked_until ≤ t → from ≤ t) where
    one-Decided :
        n ≤ max_retries
        → (n ≡ max_retries) ⊎ (is_429 (fn n) ≡ false)
        → Decided n from (record {
          ended = settle (fn n);
          limiter = (wait_if_blocked g now).0;
          calls = w.time ∷ [];
        })
    unfolding Spaced
    one-Decided within last = record {
      decisive = n;
      within = (omega arith, within);
      before = λ j above below. absurd (omega arith);
      last = last;
      ended_so = refl;
      counted = omega arith;
      spaced = (start w.time w.later w.unblocked, tt);
    }

    more-Decided :
        (rest : Run A E)
        → is_429 (fn n) ≡ true
        → Decided (suc n) (over 0 n none g now w) rest
        → Decided n from (record rest { calls = w.time ∷ rest.calls })
    unfolding Spaced
    more-Decided rest refused d = record {
      decisive = d.decisive;
      within = (omega (arith, d.within.0), d.within.1);
      before = λ j above below. elim (Bool-cases (j == n)) [
        | inl here ↦ ap (λ x. is_429 (fn x)) ((nat_beq_iff j n).0 here) ∙ refused
        | inr there ↦ d.before j (ground (arith, above, there, nat_beq_iff j n)) below
      ];
      last = d.last;
      ended_so = d.ended_so;
      counted = omega (arith, d.counted);
      spaced = (start w.time w.later w.unblocked, d.spaced);
    }

  abbrev run_from : ℕ → ℕ → Option E → GlobalRateLimiter → ℕ → Run A E
  run_from left n last_exc g now =
      execute_from fn took max_retries base_delay max_delay jitters left n last_exc g now

  -- The branch in which the reply is no 429.
  ended-Decided :
      (left n : ℕ) (last_exc : Option E) (g : GlobalRateLimiter) (now from : ℕ) (end : Ended A E)
      → n ≤ max_retries
      → ((t : ℕ) → now ≤ t → g.blocked_until ≤ t → from ≤ t)
      → IsValid now g.proactive_limiter
      → judge (fn n) ≡ inl end
      → Decided n from (run_from (suc left) n last_exc g now)
  ended-Decided left n last_exc g now from end within start v judged =
      let w = wait_if_blocked-Waited g now v in
      let settled : settle (fn n) ≡ end = rw (settle, judged) refl in
      subst (λ r. Decided n from r)
        (rw settled (sym (step-ends left n last_exc g now w end judged)))
        (one-Decided n from g now w start within (inr (rw (is_429, judged) refl)))

  execute_from-Decided :
      (left n : ℕ) (last_exc : Option E) (g : GlobalRateLimiter) (now from : ℕ)
      → n + left ≡ max_retries
      → ((t : ℕ) → now ≤ t → g.blocked_until ≤ t → from ≤ t)
      → IsValid now g.proactive_limiter
      → Decided n from (run_from (suc left) n last_exc g now)
  execute_from-Decided zero n last_exc g now from e start v =
      let w = wait_if_blocked-Waited g now v in
      elim (judge-cases (fn n)) [
        | inl (end, judged) ↦
            ended-Decided 0 n last_exc g now from end (omega (arith, e)) start v judged
        | inr (exc, judged) ↦
            let settled : settle (fn n) ≡ raises exc = rw (settle, judged) refl in
            subst (λ r. Decided n from r)
              (rw settled (sym (step-last 0 n last_exc g now w exc judged (ground (arith, e)))))
              (one-Decided n from g now w start (omega (arith, e)) (inl (omega (arith, e))))
      ]
  execute_from-Decided (suc m) n last_exc g now from e start v =
      let w = wait_if_blocked-Waited g now v in
      elim (judge-cases (fn n)) [
        | inl (end, judged) ↦
            ended-Decided (suc m) n last_exc g now from end (omega (arith, e)) start v judged
        | inr (exc, judged) ↦
            let g1 = (wait_if_blocked g now).0 in
            let next = over (suc m) n last_exc g now w in
            subst (λ r. Decided n from r)
              (sym (step-again (suc m) n last_exc g now w exc judged (ground (arith, e))))
              (more-Decided n from g now w start
                (run_from (suc m) (suc n) (some exc) (record g1 { blocked_until = next }) next)
                (rw (is_429, judged) refl)
                (execute_from-Decided m (suc n) (some exc) (record g1 { blocked_until = next }) next
                  next (omega (arith, e)) (λ t later unblocked. later)
                  (IsValid-later g1.proactive_limiter w.time next (omega arith) w.valid)))
      ]

  -- Whatever the call replies, a run ends: there is an attempt k, at most `max_retries`, such that the
  -- replies before it are all 429s, it is the last one allowed or its own reply is no 429, the run ends
  -- with its reply, and k + 1 calls were made. No call is made while the limiter is blocked, and each
  -- one after the first is at least the backoff of the failed attempt after that attempt's end.
  pub retry_exact :
      (g : GlobalRateLimiter) (now : ℕ)
      → IsValid now g.proactive_limiter
      → Decided 0
          (if leb now g.blocked_until then g.blocked_until else now)
          (execute_with_retry fn took max_retries base_delay max_delay jitters g now)
  retry_exact g now v =
      execute_from-Decided max_retries 0 none g now
        (if leb now g.blocked_until then g.blocked_until else now) (omega arith)
        (λ t later unblocked. ground (arith, later, unblocked)) v
