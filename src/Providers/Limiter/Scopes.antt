-- ===== src/Providers/Limiter/Scopes.antt =====
-- providers/rate_limit.py: the instances under their scopes.
use bailian_free_claude_code.Base.{
  ℕ, ◌*◌, ◌<◌, String, ◌≡◌, refl, ◌↔◌, ◌⊎◌, inl, inr, true, false, Option, none, some, [], arith,
  leb, Bool-cases, Option-cases, ◌==◌, nat_eq, string_eq, Dict, get, put, get-put, get-put_self, ok,
}
use bailian_free_claude_code.Base.{nat_beq_iff}
use bailian_free_claude_code.Sse.Json.{ℤ, pos, int_eq}
use bailian_free_claude_code.RateLimit.{create}
use bailian_free_claude_code.Providers.Limiter.{
  GlobalRateLimiter, new_limiter, matches_config, or_default, get_scoped_instance,
}

-- An instance with these numbers.
abbrev IsConfigured : GlobalRateLimiter → ℕ → ℕ → ℕ → Type 0
IsConfigured g limit window concurrency =
    (g.rate_limit ≡ limit) × (g.rate_window ≡ window) × (g.max_concurrency ≡ concurrency)

-- A limiter can be made of positive numbers, and has them.
new_limiter_ok :
    (limit window concurrency : ℕ)
    → 0 < limit
    → 0 < window
    → 0 < concurrency
    → (g : GlobalRateLimiter) × (new_limiter (pos limit) (pos window) (pos concurrency) ≡ ok g)
      × IsConfigured g limit window concurrency
unfolding new_limiter create
new_limiter_ok a b c pa pb pc =
    let some_a : leb a 0 ≡ false = ground (arith, pa) in
    let some_b : leb b 0 ≡ false = ground (arith, pb) in
    let some_c : leb c 0 ≡ false = ground (arith, pc) in
    (
      record {
        rate_limit = a;
        rate_window = b;
        max_concurrency = c;
        proactive_limiter = record { rate_limit = a; rate_window = b; times = [] };
        blocked_until = 0;
      },
      rw (some_a, some_b, some_c) refl,
      (refl, refl, refl),
    )

-- The code's comparison, and the numbers.
matches_config-IsConfigured :
    (g : GlobalRateLimiter) (limit window concurrency : ℕ)
    → (matches_config g (pos limit) (pos window) (pos concurrency) ≡ true)
      ↔ IsConfigured g limit window concurrency
matches_config-IsConfigured g a b c = (
  λ e. (
    ground (arith, e, nat_beq_iff g.rate_limit a),
    ground (arith, e, nat_beq_iff g.rate_window b),
    ground (arith, e, nat_beq_iff g.max_concurrency c),
  ),
  λ (ea, eb, ec). ground (
    arith,
    nat_beq_iff g.rate_limit a,
    nat_beq_iff g.rate_window b,
    nat_beq_iff g.max_concurrency c,
    ea,
    eb,
    ec,
  ),
)

-- What a call leaves: the instance it returns stands under its scope and has the numbers, other
-- scopes are as before, and the same call again changes nothing and returns the same instance.
pub record Scoped (second : ℕ) (scoped : Dict String GlobalRateLimiter) (scope : String)
    (rate_limit rate_window : Option ℤ) (max_concurrency : ℤ) (limit window concurrency : ℕ)
    (r : Dict String GlobalRateLimiter × GlobalRateLimiter) : Type 0 where
  pub configured : IsConfigured r.1 limit window concurrency
  pub found : get r.0 scope ≡ some r.1
  pub others : (other : String) → (scope == other) ≡ false → get r.0 other ≡ get scoped other
  pub again : get_scoped_instance second r.0 scope rate_limit rate_window max_concurrency ≡ ok r

module _ (second : ℕ) (scope : String) (rate_limit rate_window : Option ℤ)
    (limit window concurrency : ℕ) (named : (scope == "") ≡ false)
    (asks_limit : or_default rate_limit 40 ≡ pos limit)
    (asks_window : or_default rate_window (60 * second) ≡ pos window) where
  -- The instance in place has the numbers.
  reused :
      (scoped : Dict String GlobalRateLimiter) (g : GlobalRateLimiter)
      → get scoped scope ≡ some g
      → IsConfigured g limit window concurrency
      → get_scoped_instance second scoped scope rate_limit rate_window (pos concurrency)
        ≡ ok (scoped, g)
  unfolding get_scoped_instance
  reused scoped g e same =
      rw
        (
          named,
          e,
          asks_limit,
          asks_window,
          (matches_config-IsConfigured g limit window concurrency).1 same,
        )
        refl

  -- No instance with the numbers: a new one is stored.
  rebuilt :
      (scoped : Dict String GlobalRateLimiter) (g : GlobalRateLimiter)
      → (get scoped scope ≡ none)
        ⊎ ((old : GlobalRateLimiter) × (get scoped scope ≡ some old)
            × (matches_config old (pos limit) (pos window) (pos concurrency) ≡ false))
      → new_limiter (pos limit) (pos window) (pos concurrency) ≡ ok g
      → get_scoped_instance second scoped scope rate_limit rate_window (pos concurrency)
        ≡ ok (put scoped scope g, g)
  unfolding get_scoped_instance
  rebuilt scoped g (inl no_one) made = rw (named, no_one, asks_limit, asks_window, made) refl
  rebuilt scoped g (inr (old, e, differs)) made =
      rw (named, e, asks_limit, asks_window, differs, made) refl

  module _ (scoped : Dict String GlobalRateLimiter) (g : GlobalRateLimiter)
      (same : IsConfigured g limit window concurrency) where
    stored :
        Scoped second scoped scope rate_limit rate_window
          (pos concurrency)
          limit
          window
          concurrency
          (put scoped scope g, g)
    stored = record {
      configured = same;
      found = get-put_self scoped scope g;
      others = λ other differs. ground (arith, get-put scoped scope g other, differs);
      again = reused (put scoped scope g) g (get-put_self scoped scope g) same;
    }

    kept :
        get scoped scope ≡ some g
        → Scoped second scoped scope rate_limit rate_window
            (pos concurrency)
            limit
            window
            concurrency
            (scoped, g)
    kept e = record {
      configured = same;
      found = e;
      others = λ other differs. refl;
      again = reused scoped g e same;
    }

-- For a scope with a name, and a limit, a window and a concurrency that are positive, where 40 calls
-- and 60 seconds stand for a number that is left open or 0, `get_scoped_instance` returns an instance
-- whose limit, window and concurrency are these; the instance stands under its scope, every other
-- scope is as before, and the same call again returns the same instance and changes nothing.
pub get_scoped_instance_lem :
    (second : ℕ) (scoped : Dict String GlobalRateLimiter) (scope : String)
    (rate_limit rate_window : Option ℤ) (limit window concurrency : ℕ)
    → (scope == "") ≡ false
    → or_default rate_limit 40 ≡ pos limit
    → or_default rate_window (60 * second) ≡ pos window
    → 0 < limit
    → 0 < window
    → 0 < concurrency
    → (r : Dict String GlobalRateLimiter × GlobalRateLimiter) × (get_scoped_instance second scoped
          scope rate_limit rate_window
          (pos concurrency)
        ≡ ok r)
      × Scoped second scoped scope rate_limit rate_window
          (pos concurrency)
          limit
          window
          concurrency
          r
get_scoped_instance_lem second scoped scope rate_limit rate_window limit window concurrency named
      asks_limit asks_window pos_l pos_w pos_c =
    let (g, made, same) = new_limiter_ok limit window concurrency pos_l pos_w pos_c in
    let new =
      rebuilt second scope rate_limit rate_window limit window concurrency named asks_limit
        asks_window scoped g in
    let left =
      stored second scope rate_limit rate_window limit window concurrency named asks_limit
        asks_window scoped g same in
    elim (Option-cases (get scoped scope)) [
      | inl no_one ↦ ((put scoped scope g, g), new (inl no_one) made, left)
      | inr (old, e) ↦
          elim (Bool-cases (matches_config old (pos limit) (pos window) (pos concurrency))) [
            | inl fits ↦
                let configured =
                  (matches_config-IsConfigured old limit window concurrency).0 fits in
                (
                  (scoped, old),
                  reused second scope rate_limit rate_window limit window concurrency named
                      asks_limit asks_window scoped old e configured,
                  kept second scope rate_limit rate_window limit window concurrency named asks_limit
                      asks_window scoped old configured e,
                )
            | inr differs ↦ ((put scoped scope g, g), new (inr (old, e, differs)) made, left)
          ]
    ]
