-- ===== src/Messaging/Limiter/Tests.antt =====
-- The messaging limiter's queue on small inputs.
use bailian_free_claude_code.Base.{
  ◌≡◌, refl, inr, true, some, List, [], ◌∷◌, nat_eq, string_eq, get, put, remove, ok,
}
use bailian_free_claude_code.Messaging.Limiter.{MessagingLimiter, new_limiter, enqueue, work}
use bailian_free_claude_code.Messaging.Limiter.Compaction.{
  Reached, starts, enqueues, IsSound, Reached-IsSound,
}
use bailian_free_claude_code.Messaging.Limiter.Latest.{
  Step, enqueued, round, run, spares, Served, latest_wins,
}

-- Two keys, the first of which was enqueued twice.
abbrev two_keys : MessagingLimiter
two_keys = (enqueue (enqueue (enqueue new_limiter 10 "edit").0 11 "send").0 12 "edit").0

two_keys-Reached : Reached two_keys
two_keys-Reached =
    enqueues (enqueue (enqueue new_limiter 10 "edit").0 11 "send").0 12 "edit"
      (enqueues (enqueue new_limiter 10 "edit").0 11 "send" (enqueues new_limiter 10 "edit" starts))

edit_resolved :
    work two_keys
    ≡ ok (
      record {
        queue_list = "send" ∷ [];
        queue_map = ("send", (11, 1 ∷ [])) ∷ [];
        created = 3;
        resolved = (2, 12) ∷ (0, 12) ∷ [];
      },
      some 12,
    )
unfolding enqueue work get put remove
edit_resolved = refl

Reached-IsSound_example : IsSound two_keys
Reached-IsSound_example = Reached-IsSound two_keys two_keys-Reached

abbrev next_steps : List Step
next_steps = round ∷ enqueued 13 "send" ∷ []

next_steps_spare : spares "edit" next_steps ≡ true
unfolding spares
next_steps_spare = refl

first_created : 0 ≡ new_limiter.created
first_created = refl

latest_wins_example :
    (m1 : MessagingLimiter) × (run next_steps (enqueue new_limiter 10 "edit").0 ≡ ok m1)
    × Served m1 "edit" 10 0
latest_wins_example =
    latest_wins new_limiter 10 "edit" next_steps 0 0 starts next_steps_spare (inr first_created)
