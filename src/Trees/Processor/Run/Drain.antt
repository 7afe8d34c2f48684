-- ===== src/Trees/Processor/Run/Drain.antt =====
-- messaging/trees/queue_manager.py: the queue drains when the only task keeps being resumed.
use bailian_free_claude_code.Base.{
  ℕ, ◌+◌, ◌*◌, ◌≤◌, ◌<◌, String, ◌≡◌, refl, sym, ap, ◌∙◌, inl, inr, true, false, List, [], ◌∷◌,
  arith, if◌then◌else◌, Bool-cases, nat_eq, string_eq, length, All,
}
use mathlib.Core.Path.{subst}
use mathlib.Core.List.{append-nil}
use bailian_free_claude_code.Trees.Processor.Run.History.{
  IsSound, enqueued, asked-run, run-IsConsistent,
}
use bailian_free_claude_code.Trees.Processor.Run.Order.{
  IsConsistent, settle_frame, resume-IsConsistent,
}
use bailian_free_claude_code.Trees.Tree.{MessageTree, clear_current_node}
use bailian_free_claude_code.Trees.Processor.{Ending, returned}
use bailian_free_claude_code.Trees.Processor.Starts.{IsKnown, process_next-nil, process_next-cons}
use bailian_free_claude_code.Trees.Processor.Run.{
  Phase, created, processing, cleaning, advancing, Task, System, Event, resume, drop_task, task_at,
  advanced, resume_task, resume_found, step, run,
}

-- How many steps the live task still takes, and four for each id that waits.
steps_left : Phase → ℕ
steps_left created = 4
steps_left processing = 3
steps_left cleaning = 2
steps_left advancing = 1

task_steps : List Task → ℕ
unfolding steps_left
task_steps [] = 0
task_steps (task ∷ tasks) = steps_left task.phase

work_left : System → ℕ
unfolding task_steps
work_left s =
    task_steps s.tasks + (if s.tree.is_processing then 4 * length s.tree.queue.deque else 0)

-- The first task is resumed again and again, with the given endings of processors.
pub resumes : List (Ending × ℕ) → List Event
resumes [] = []
resumes ((how, now) ∷ more) = resume 0 how now ∷ resumes more

steps_left-le : (phase : Phase) → steps_left phase ≤ 4
unfolding steps_left
steps_left-le phase = ground arith

advance-works :
    (s : System)
    → IsConsistent s
    → drop_task s.tasks 0 ≡ []
    → 1 ≤ task_steps s.tasks
    → s.tree.is_processing ≡ true
    → (ids : List String) → s.tree.queue.deque ≡ ids
    → work_left (advanced s 0) < work_left s
unfolding advanced work_left
advance-works s c none_left alive_steps working [] e =
    rw (process_next-nil s.tree s.next_task e) (ground (arith, none_left))
advance-works s c none_left alive_steps working (node_id ∷ rest) e =
    let k : All (IsKnown s.tree) (node_id ∷ rest) = rw e at c.known in
    let (q, shape, next) = process_next-cons s.tree s.next_task node_id rest e k.0 in
    rw next (ground (arith, none_left, e, shape))

only_task-works :
    (s : System) (node_id : String) (phase : Phase) (how : Ending) (now task_id : ℕ)
    → s.tasks ≡ record { task_id = task_id; node_id = node_id; phase = phase } ∷ []
    → s.tree.is_processing ≡ true
    → IsConsistent s
    → work_left (resume_task s 0 node_id phase how now) < work_left s
unfolding resume_task work_left
only_task-works s node_id created how now task_id e working c = ground (arith, e)
only_task-works s node_id processing how now task_id e working c =
    ground (arith, e, settle_frame s.tree node_id how now)
only_task-works s node_id cleaning how now task_id e working c =
    unfold clear_current_node in ground (arith, e)
only_task-works s node_id advancing how now task_id e working c =
    advance-works s c (rw e) (ground (arith, e)) working s.tree.queue.deque refl

step-works :
    (s : System) (how : Ending) (now : ℕ)
    → s.tree.is_processing ≡ true
    → IsConsistent s
    → (tasks : List Task) → s.tasks ≡ tasks
    → work_left (step s (resume 0 how now)) < work_left s
unfolding step task_at
step-works s how now working c [] e = absurd (ground (arith, c.busy working, e))
step-works s how now working c (task ∷ []) e =
    subst (λ s'. work_left s' < work_left s)
      (sym (ap (λ l. resume_found s 0 how now (task_at l 0)) e))
      (only_task-works s task.node_id task.phase how now task.task_id e working c)
step-works s how now working c (a ∷ b ∷ more) e = absurd (ground (arith, c.busy working, e))

free-step :
    (s : System) (how : Ending) (now : ℕ)
    → s.tree.is_processing ≡ false
    → IsConsistent s
    → step s (resume 0 how now) ≡ s
unfolding step
free-step s how now free c = ap (λ l. resume_found s 0 how now (task_at l 0)) (c.free free).0

stays_free :
    (hows : List (Ending × ℕ)) (s : System)
    → IsConsistent s
    → s.tree.is_processing ≡ false
    → run s (resumes hows) ≡ s
unfolding run resumes
stays_free [] s c free = refl
stays_free ((how, now) ∷ more) s c free =
    ap (λ s'. run s' (resumes more)) (free-step s how now free c) ∙ stays_free more s c free

drains :
    (hows : List (Ending × ℕ)) (s : System)
    → IsConsistent s
    → work_left s ≤ length hows
    → (run s (resumes hows)).tree.is_processing ≡ false
unfolding resumes run
drains [] s c h = elim (Bool-cases s.tree.is_processing) [
  | inl working ↦ absurd (omega (arith, step-works s returned 0 working c s.tasks refl))
  | inr free ↦ free
]
drains ((how, now) ∷ more) s c h = elim (Bool-cases s.tree.is_processing) [
  | inl working ↦
      drains more (step s (resume 0 how now)) (resume-IsConsistent s 0 how now c)
        (omega (arith, step-works s how now working c s.tasks refl))
  | inr free ↦
      subst (λ s'. s'.tree.is_processing ≡ false) (sym (stays_free ((how, now) ∷ more) s c free))
        free
]

work_left-le :
    (s : System)
    → IsConsistent s
    → (tasks : List Task) → s.tasks ≡ tasks
    → work_left s ≤ 4 * (length s.tree.queue.deque + 1)
unfolding work_left
work_left-le s c [] e = ground (arith, e)
work_left-le s c (task ∷ []) e = ground (arith, e, steps_left-le task.phase)
work_left-le s c (a ∷ b ∷ more) e =
    absurd (ground (arith, c.busy, c.free, e, Bool-cases s.tree.is_processing))

resumes-IsSound : (t : MessageTree) (hows : List (Ending × ℕ)) → All (IsSound t) (resumes hows)
unfolding resumes
resumes-IsSound t [] = tt
resumes-IsSound t ((how, now) ∷ more) = (tt, resumes-IsSound t more)

enqueued-resumes : (hows : List (Ending × ℕ)) → enqueued (resumes hows) ≡ []
unfolding enqueued resumes
enqueued-resumes [] = refl
enqueued-resumes ((how, now) ∷ more) = enqueued-resumes more

-- Liveness: from any consistent state, once the live task has been resumed often enough, whatever
-- way each processor ends, the tree is free and every node enqueued was begun. Four steps for each
-- id that waits and for the live task are enough.
pub queue_drains :
    (s : System) (hows : List (Ending × ℕ))
    → IsConsistent s
    → 4 * (length s.tree.queue.deque + 1) ≤ length hows
    → ((run s (resumes hows)).tree.is_processing ≡ false) × ((run s (resumes hows)).begun ≡ s.asked)
queue_drains s hows c h =
    let free = drains hows s c (omega (arith, work_left-le s c s.tasks refl)) in
    let c' = run-IsConsistent s (resumes hows) (resumes-IsSound s.tree hows) c in
    (
      free,
      ground (
        arith,
        c'.in_order,
        c'.free free,
        append-nil (run s (resumes hows)).begun,
        asked-run s (resumes hows),
        enqueued-resumes hows,
        append-nil s.asked,
      ),
    )
