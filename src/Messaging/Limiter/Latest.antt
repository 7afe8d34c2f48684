-- ===== src/Messaging/Limiter/Latest.antt =====
-- messaging/limiter.py: a key that is enqueued again gets the later task for all its futures.
use bailian_free_claude_code.Base.{
  ℕ, String, ◌≡◌, refl, sym, ap, ◌∙◌, ◌⊎◌, inl, inr, Bool, true, false, not, ◌&&◌, Option, none,
  some, List, [], ◌∷◌, ◌++◌, arith, eq_iff, Bool-cases, Option-cases, ◌==◌, nat_eq, string_eq,
  contains, contains-append, get, has, get-put, get-put_self, get-remove, Outcome, ok, ◌>>=◌,
}
use bailian_free_claude_code.Base.{nat_beq_iff}
use bailian_free_claude_code.Messaging.Limiter.{
  MessagingLimiter, enqueue_internal_multi, enqueue, work,
}
use bailian_free_claude_code.Messaging.Limiter.Waiting.{get-resolve, waiting-remove, contains-count}
use bailian_free_claude_code.Messaging.Limiter.Compaction.{
  Reached, IsSound, Reached-IsSound, enqueue-IsSound, worked, work-takes, worked-IsSound, idles,
  takes, Round-cases, work-idles,
}

-- What happens next: somebody enqueues, or the worker makes a round.
pub data Step : Type 0 where
  enqueued : ℕ → String → Step
  round : Step

unfoldable pub run : List Step → MessagingLimiter → Outcome MessagingLimiter
unfolding enqueue work
run [] m = ok m
run (enqueued func dedup_key ∷ steps) m = run steps (enqueue m func dedup_key).0
run (round ∷ steps) m = work m >>= λ r. run steps r.0

-- Nobody enqueues under this key.
unfoldable pub spares : String → List Step → Bool
spares key [] = true
spares key (enqueued func dedup_key ∷ steps) = not (dedup_key == key) && spares key steps
spares key (round ∷ steps) = spares key steps

-- A future waits under a key.
abbrev Waits : MessagingLimiter → String → ℕ → ℕ → Type 0
Waits m key func f =
    (futures : List ℕ) × (get m.queue_map key ≡ some (func, futures)) × (contains futures f ≡ true)

-- It waits for the task, or was resolved by it.
abbrev pub Served : MessagingLimiter → String → ℕ → ℕ → Type 0
Served m key func f = Waits m key func f ⊎ (get m.resolved f ≡ some func)

enqueue-Served :
    (m : MessagingLimiter) (func1 : ℕ) (dedup_key key : String) (func f : ℕ)
    → (dedup_key == key) ≡ false
    → Served m key func f
    → Served (enqueue m func1 dedup_key).0 key func f
unfolding enqueue enqueue_internal_multi
enqueue-Served m func1 dedup_key key func f other s =
    elim (Option-cases (get m.queue_map dedup_key)) [
      | inl new ↦
          rw (enqueue_internal_multi, new)
            (elim s [
              | inl (futures, found, among) ↦ inl (
                futures,
                get-put m.queue_map dedup_key (func1, m.created ∷ []) key ∙ rw other found,
                among,
              )
              | inr done ↦ inr done
            ])
      | inr ((g, gs), there) ↦
          rw (enqueue_internal_multi, there)
            (elim s [
              | inl (futures, found, among) ↦ inl (
                futures,
                get-put m.queue_map dedup_key (func1, gs ++ m.created ∷ []) key ∙ rw other found,
                among,
              )
              | inr done ↦ inr done
            ])
    ]

-- The worker's round on a future that is served.
worked-Served :
    (m : MessagingLimiter) (dedup_key : String) (rest : List String) (g : ℕ) (gs : List ℕ)
    (first : m.queue_list ≡ dedup_key ∷ rest) (found : get m.queue_map dedup_key ≡ some (g, gs))
    (key : String) (func f : ℕ)
    → (Waits m key func f → has m.resolved f ≡ false)
    → Served m key func f
    → Served (worked m dedup_key rest g gs first found) key func f
worked-Served m dedup_key rest g gs first found key func f fresh (inr done) =
    inr (get-resolve m.resolved g gs f ∙ ground (arith, done))
worked-Served m dedup_key rest g gs first found key func f fresh (inl (futures, at, among)) =
    elim (Bool-cases (dedup_key == key)) [
      | inl same ↦
          let found_here : get m.queue_map key ≡ some (g, gs) =
            ap (λ x. get m.queue_map x) (sym ((eq_iff dedup_key key).0 same)) ∙ found in
          let open_still = fresh (futures, at, among) in
          inr (get-resolve m.resolved g gs f ∙ ground (arith, found_here, at, among, open_still))
      | inr other ↦ inl (futures, get-remove m.queue_map dedup_key key ∙ rw other at, among)
    ]

-- A future that waits is not resolved.
Waits-fresh :
    (m : MessagingLimiter) (key : String) (func f : ℕ)
    → IsSound m
    → Waits m key func f
    → has m.resolved f ≡ false
Waits-fresh m key func f s (futures, at, among) = ground (
  arith,
  s.placed f,
  waiting-remove m.queue_map key f s.unique,
  at,
  among,
  contains-count futures f,
)

work-Served :
    (m : MessagingLimiter) (key : String) (func f : ℕ)
    → IsSound m
    → Served m key func f
    → (m1 : MessagingLimiter) × (taken : Option ℕ) × (work m ≡ ok (m1, taken))
      × IsSound m1
      × Served m1 key func f
work-Served m key func f s served = elim (Round-cases m s) [
  | idles empty ↦ (m, none, work-idles m empty, s, served)
  | takes dedup_key rest g gs first found ↦ (
    worked m dedup_key rest g gs first found,
    some g,
    work-takes m dedup_key rest g gs first found,
    worked-IsSound m dedup_key rest g gs first found s,
    worked-Served m dedup_key rest g gs first found key func f (Waits-fresh m key func f s) served,
  )
]

run-Served :
    (steps : List Step) (m : MessagingLimiter) (key : String) (func f : ℕ)
    → IsSound m
    → spares key steps ≡ true
    → Served m key func f
    → (m1 : MessagingLimiter) × (run steps m ≡ ok m1) × Served m1 key func f
unfolding run spares
run-Served [] m key func f s spared served = (m, refl, served)
run-Served (enqueued func1 dedup_key ∷ steps) m key func f s spared served =
    run-Served steps (enqueue m func1 dedup_key).0 key func f (enqueue-IsSound m func1 dedup_key s)
      (ground (arith, spared))
      (enqueue-Served m func1 dedup_key key func f (ground (arith, spared)) served)
run-Served (round ∷ steps) m key func f s spared served =
    let (m1, taken, took, s1, served1) = work-Served m key func f s served in
    let (m2, ran, served2) = run-Served steps m1 key func f s1 spared served1 in
    (m2, ap (λ x. x >>= λ r. run steps r.0) took ∙ ran, served2)

-- The futures of the key, old and new, wait for the later task.
enqueue-latest :
    (m : MessagingLimiter) (func : ℕ) (key : String) (old_func f : ℕ)
    → Waits m key old_func f ⊎ (f ≡ m.created)
    → Waits (enqueue m func key).0 key func f
unfolding enqueue enqueue_internal_multi
enqueue-latest m func key old_func f asked = elim (Option-cases (get m.queue_map key)) [
  | inl new ↦
      rw (enqueue_internal_multi, new)
        (elim asked [
          | inl (futures, found, among) ↦ absurd (ground (arith, new, found))
          | inr made ↦ (
            m.created ∷ [],
            get-put_self m.queue_map key (func, m.created ∷ []),
            ground (arith, made, nat_beq_iff m.created f),
          )
        ])
  | inr ((g, gs), there) ↦
      rw (enqueue_internal_multi, there)
        (
          gs ++ m.created ∷ [],
          get-put_self m.queue_map key (func, gs ++ m.created ∷ []),
          contains-append gs (m.created ∷ []) f ∙ elim asked [
            | inl (futures, found, among) ↦ ground (arith, there, found, among)
            | inr made ↦ ground (arith, made, nat_beq_iff m.created f)
          ],
        )
]

-- After a task is enqueued under a key, and while nobody else enqueues under this key, whatever else is
-- enqueued and however often the worker works, no round ends with a `KeyError`, and each future of the
-- key, the new one and those that waited for older tasks, waits for the new task or was resolved by it.
pub latest_wins :
    (m : MessagingLimiter) (func : ℕ) (key : String) (steps : List Step) (old_func f : ℕ)
    → Reached m
    → spares key steps ≡ true
    → Waits m key old_func f ⊎ (f ≡ m.created)
    → (m1 : MessagingLimiter) × (run steps (enqueue m func key).0 ≡ ok m1) × Served m1 key func f
latest_wins m func key steps old_func f before spared asked =
    run-Served steps (enqueue m func key).0 key func f
      (enqueue-IsSound m func key (Reached-IsSound m before)) spared
      (inl (enqueue-latest m func key old_func f asked))
