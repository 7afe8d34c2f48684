-- ===== src/Trees/Processor/Run/History.antt =====
-- messaging/trees/queue_manager.py: what a whole run of the system has done.
use bailian_free_claude_code.Base.{
  ℕ, ◌≤◌, String, ◌≡◌, refl, ap, ◌∙◌, inl, inr, true, false, Option, none, some, List, [], ◌∷◌,
  ◌++◌, arith, Bool-cases, Option-cases, nat_eq, string_eq, length, All, has,
}
use mathlib.Core.List.{append-nil, append_assoc}
use bailian_free_claude_code.Trees.Processor.Run.Order.{
  IsConsistent, settle_frame, enqueue-IsConsistent, resume-IsConsistent,
}
use bailian_free_claude_code.Trees.Tree.{dequeue, MessageTree, clear_current_node}
use bailian_free_claude_code.Trees.Processor.{enqueue_and_start, process_next, Ending}
use bailian_free_claude_code.Trees.Processor.Starts.{IsKnown}
use bailian_free_claude_code.Trees.Processor.Run.{
  Phase, created, processing, cleaning, advancing, Task, System, Event, enqueue, resume, notified,
  task_at, advanced, resume_task, resume_found, step, run, idle,
}

-- No step takes a node out of the tree.
resume-keeps :
    (s : System) (i : ℕ) (node_id : String) (phase : Phase) (how : Ending) (now : ℕ) (k : String)
    → has s.tree.nodes k ≡ true
    → has (resume_task s i node_id phase how now).tree.nodes k ≡ true
unfolding resume_task advanced process_next dequeue
resume-keeps s i node_id created how now k h = h
resume-keeps s i node_id processing how now k h = (settle_frame s.tree node_id how now).2 k h
resume-keeps s i node_id cleaning how now k h = unfold clear_current_node in h
resume-keeps s i node_id advancing how now k h = ground arith

step-keeps :
    (s : System) (event : Event) (k : String)
    → has s.tree.nodes k ≡ true
    → has (step s event).tree.nodes k ≡ true
unfolding step enqueue_and_start
step-keeps s (enqueue node_id) k h = ground arith
step-keeps s (resume i how now) k h = elim (Option-cases (task_at s.tasks i)) [
  | inl e ↦ rw e h
  | inr (task, e) ↦ rw e (resume-keeps s i task.node_id task.phase how now k h)
]
step-keeps s (notified i) k h = h

-- A caller enqueues ids of nodes that the tree has.
abbrev pub IsSound : MessageTree → Event → Type 0
IsSound t (enqueue node_id) = IsKnown t node_id
IsSound t (resume i how now) = Unit
IsSound t (notified i) = Unit

IsSound-step :
    (s : System) (event : Event) (events : List Event)
    → All (IsSound s.tree) events
    → All (IsSound (step s event).tree) events
IsSound-step s event [] a = tt
IsSound-step s event (enqueue node_id ∷ events) a =
    ((a.0.0, step-keeps s event node_id a.0.1), IsSound-step s event events a.1)
IsSound-step s event (resume i how now ∷ events) a = (tt, IsSound-step s event events a.1)
IsSound-step s event (notified i ∷ events) a = (tt, IsSound-step s event events a.1)

-- The end of the callbacks concerns no other task.
notified-IsConsistent : (s : System) (i : ℕ) → IsConsistent s → IsConsistent (step s (notified i))
unfolding step
notified-IsConsistent s i c = record {
  busy = c.busy;
  free = c.free;
  in_order = c.in_order;
  known = c.known;
}

step-IsConsistent :
    (s : System) (event : Event)
    → IsSound s.tree event
    → IsConsistent s
    → IsConsistent (step s event)
step-IsConsistent s (enqueue node_id) k c = enqueue-IsConsistent s node_id k c
step-IsConsistent s (resume i how now) k c = resume-IsConsistent s i how now c
step-IsConsistent s (notified i) k c = notified-IsConsistent s i c

pub run-IsConsistent :
    (s : System) (events : List Event)
    → All (IsSound s.tree) events
    → IsConsistent s
    → IsConsistent (run s events)
unfolding run
run-IsConsistent s [] a c = c
run-IsConsistent s (event ∷ events) a c =
    run-IsConsistent (step s event) events (IsSound-step s event events a.1)
      (step-IsConsistent s event a.0 c)

-- The ids of the calls of `enqueue`, in order.
unfoldable pub enqueued : List Event → List String
enqueued [] = []
enqueued (enqueue node_id ∷ events) = node_id ∷ enqueued events
enqueued (resume i how now ∷ events) = enqueued events
enqueued (notified i ∷ events) = enqueued events

resume-asked :
    (s : System) (i : ℕ) (how : Ending) (now : ℕ) (found : Option Task)
    → (resume_found s i how now found).asked ≡ s.asked
unfolding resume_found
resume-asked s i how now none = refl
resume-asked s i how now (some task) = go task.phase
  where
    go : (phase : Phase) → (resume_task s i task.node_id phase how now).asked ≡ s.asked
    go created = refl
    go processing = refl
    go cleaning = refl
    go advancing = refl

pub asked-run :
    (s : System) (events : List Event) → (run s events).asked ≡ s.asked ++ enqueued events
unfolding run enqueued step
asked-run s [] = ground (arith, append-nil s.asked)
asked-run s (enqueue node_id ∷ events) =
    asked-run (step s (enqueue node_id)) events
    ∙ append_assoc s.asked (node_id ∷ []) (enqueued events)
asked-run s (resume i how now ∷ events) =
    asked-run (step s (resume i how now)) events
    ∙ ap (λ l. l ++ enqueued events) (resume-asked s i how now (task_at s.tasks i))
asked-run s (notified i ∷ events) = asked-run (step s (notified i)) events

pub idle-IsConsistent :
    (t : MessageTree) → t.is_processing ≡ false → t.queue.deque ≡ [] → IsConsistent (idle t)
idle-IsConsistent t free empty = record {
  busy = λ e. absurd (ground (arith, e, free));
  free = λ _. (refl, empty);
  in_order = empty;
  known = rw empty tt;
}

-- However the callers of `enqueue` and the tasks of a tree interleave, with no cancellation: at most
-- one task has not passed the locked block of its `_process_next`, so that every other live task only
-- awaits the callbacks of a node that it has started, the nodes begun so far and those that wait are together the nodes enqueued, in
-- that order, and when the tree is marked free every node enqueued was begun.
pub process_in_order :
    (t : MessageTree) (events : List Event)
    → t.is_processing ≡ false
    → t.queue.deque ≡ []
    → All (IsSound t) events
    → (length (run (idle t) events).tasks ≤ 1)
      × ((run (idle t) events).begun ++ (run (idle t) events).tree.queue.deque ≡ enqueued events)
      × ((run (idle t) events).tree.is_processing ≡ false
          → (run (idle t) events).begun ≡ enqueued events)
process_in_order t events free empty sound =
    let c = run-IsConsistent (idle t) events sound (idle-IsConsistent t free empty) in
    let asked = asked-run (idle t) events in
    (
      ground (arith, c.busy, c.free, Bool-cases (run (idle t) events).tree.is_processing),
      c.in_order ∙ asked,
      λ done.
          ground (arith, c.in_order, c.free done, asked, append-nil (run (idle t) events).begun),
    )
