-- ===== src/Trees/Processor/Run/Order.antt =====
-- messaging/trees/queue_manager.py: one task at a time, in the order of the calls of `enqueue`.
use bailian_free_claude_code.Base.{
  ℕ, zero, suc, String, ◌≡◌, refl, sym, ap, inl, inr, true, false, none, some, List, [], ◌∷◌, ◌++◌,
  arith, Bool-cases, Option-cases, nat_eq, string_eq, length, All, get, has, get-modify,
}
use mathlib.Core.Path.{subst}
use mathlib.Core.List.{append-nil, append_assoc}
use bailian_free_claude_code.Trees.Queue
use bailian_free_claude_code.Trees.Queue.{SnapshotQueue}
use bailian_free_claude_code.Trees.Node.{error}
use bailian_free_claude_code.Trees.Tree.{
  updated_node, MessageTree, clear_current_node, update_state,
}
use bailian_free_claude_code.Trees.Processor.{
  enqueue_and_start, Ending, returned, cancelled, failed, settle,
}
use bailian_free_claude_code.Trees.Processor.Starts.{
  IsKnown, enqueue_and_start-free, process_next-nil, process_next-cons,
}
use bailian_free_claude_code.Trees.Processor.Run.{
  Phase, created, processing, cleaning, advancing, Task, System, enqueue, resume, drop_task,
  task_at, advanced, resume_task, resume_found, step,
}

-- One task has not passed `_process_next` while the tree is processing, none while it is not, and
-- then nothing waits. The ids that were begun, followed by those that wait, are the ids asked for.
pub record IsConsistent (s : System) : Type 0 where
  pub busy : s.tree.is_processing ≡ true → length s.tasks ≡ 1
  pub free : s.tree.is_processing ≡ false → (s.tasks ≡ []) × (s.tree.queue.deque ≡ [])
  pub in_order : s.begun ++ s.tree.queue.deque ≡ s.asked
  pub known : All (IsKnown s.tree) s.tree.queue.deque

All-snoc :
    (t : MessageTree) (xs : List String) (x : String)
    → All (IsKnown t) xs
    → IsKnown t x
    → All (IsKnown t) (xs ++ x ∷ [])
All-snoc t [] x a k = (k, tt)
All-snoc t (y ∷ ys) x a k = (a.0, All-snoc t ys x a.1 k)

pub enqueue-IsConsistent :
    (s : System) (node_id : String)
    → IsKnown s.tree node_id
    → IsConsistent s
    → IsConsistent (step s (enqueue node_id))
unfolding step enqueue_and_start Queue.put
enqueue-IsConsistent s node_id k c = elim (Bool-cases s.tree.is_processing) [
  | inl working ↦ simp working (record {
    busy = λ _. ground (arith, c.busy working, append-nil s.tasks);
    free = λ e. absurd (ground (arith, e));
    in_order = ground (arith, c.in_order, append_assoc s.begun s.tree.queue.deque (node_id ∷ []));
    known = All-snoc s.tree s.tree.queue.deque node_id c.known k;
  })
  | inr resting ↦
      let (no_tasks, no_ids) = c.free resting in
      rw (enqueue_and_start-free s.tree node_id s.next_task resting k.1) (record {
        busy = λ _. ground (arith, no_tasks);
        free = λ e'. absurd (ground (arith, e'));
        in_order =
            ground
              (arith, c.in_order, no_ids, append-nil s.begun, append-nil (s.begun ++ node_id ∷ []));
        known = c.known;
      })
]

-- What `settle` leaves alone.
pub settle_frame :
    (t : MessageTree) (node_id : String) (how : Ending) (now : ℕ)
    → ((settle t node_id how now).is_processing ≡ t.is_processing)
      × ((settle t node_id how now).queue ≡ t.queue)
      × ((k : String) → has t.nodes k ≡ true → has (settle t node_id how now).nodes k ≡ true)
unfolding settle update_state
settle_frame t node_id returned now = (refl, refl, λ k h. h)
settle_frame t node_id cancelled now = (refl, refl, λ k h. h)
settle_frame t node_id (failed message) now = (
  refl,
  refl,
  λ k h. ground (
    arith,
    get-modify t.nodes node_id (updated_node error none (some message) now) k,
    Option-cases (get t.nodes k),
  ),
)

All-IsKnown :
    (t t' : MessageTree) (xs : List String)
    → ((k : String) → has t.nodes k ≡ true → has t'.nodes k ≡ true)
    → All (IsKnown t) xs
    → All (IsKnown t') xs
All-IsKnown t t' [] keep a = tt
All-IsKnown t t' (x ∷ xs) keep a = ((a.0.0, keep x a.0.1), All-IsKnown t t' xs keep a.1)

-- `_process_next` by the only task: the queue is empty, or its first id is begun.
advance :
    (s : System)
    → IsConsistent s
    → drop_task s.tasks 0 ≡ []
    → (ids : List String) → s.tree.queue.deque ≡ ids
    → IsConsistent (advanced s 0)
unfolding advanced
advance s c none_left [] e = rw (process_next-nil s.tree s.next_task e) (record {
  busy = λ e'. absurd (ground (arith, e'));
  free = λ _. (ground (arith, none_left), e);
  in_order = ground (arith, c.in_order, append-nil s.begun);
  known = c.known;
})
advance s c none_left (node_id ∷ rest) e =
    let k : All (IsKnown s.tree) (node_id ∷ rest) = rw e at c.known in
    let (q, shape, next) = process_next-cons s.tree s.next_task node_id rest e k.0 in
    rw next (record {
      busy = λ _. ground (arith, none_left);
      free = λ e'. absurd (ground (arith, e'));
      in_order = ground (arith, c.in_order, e, shape, append_assoc s.begun (node_id ∷ []) rest);
      known = rw shape k.1;
    })

-- The only task takes its step.
only_task :
    (s : System) (node_id : String) (phase : Phase) (how : Ending) (now task_id : ℕ)
    → s.tasks ≡ record { task_id = task_id; node_id = node_id; phase = phase } ∷ []
    → s.tree.is_processing ≡ true
    → IsConsistent s
    → IsConsistent (resume_task s 0 node_id phase how now)
unfolding resume_task
only_task s node_id created how now task_id e working c = record {
  busy = λ _. ground (arith, e);
  free = λ e'. absurd (ground (arith, e'));
  in_order = c.in_order;
  known = c.known;
}
only_task s node_id processing how now task_id e working c =
    let (flag, queue, keep) = settle_frame s.tree node_id how now in
    record {
      busy = λ _. ground (arith, e);
      free = λ e'. absurd (ground (arith, e', flag));
      in_order = ground (arith, c.in_order, queue);
      known =
          rw queue
            (All-IsKnown s.tree (settle s.tree node_id how now) s.tree.queue.deque keep c.known);
    }
only_task s node_id cleaning how now task_id e working c =
    unfold clear_current_node in
    record {
      busy = λ _. ground (arith, e);
      free = λ e'. absurd (ground (arith, e'));
      in_order = c.in_order;
      known = c.known;
    }
only_task s node_id advancing how now task_id e working c =
    unfold drop_task in advance s c (rw e) s.tree.queue.deque refl

alive :
    (s : System) (task : Task) → s.tasks ≡ task ∷ [] → IsConsistent s → s.tree.is_processing ≡ true
alive s task e c = elim (Bool-cases s.tree.is_processing) [
  | inl working ↦ working
  | inr resting ↦ absurd (ground (arith, c.free resting, e))
]

resume_at :
    (s : System) (i : ℕ) (how : Ending) (now : ℕ)
    → IsConsistent s
    → (tasks : List Task) → s.tasks ≡ tasks
    → IsConsistent (step s (resume i how now))
unfolding step task_at
resume_at s i how now c [] e =
    subst IsConsistent (sym (ap (λ l. resume_found s i how now (task_at l i)) e)) c
resume_at s zero how now c (task ∷ []) e =
    subst IsConsistent (sym (ap (λ l. resume_found s 0 how now (task_at l 0)) e))
      (only_task s task.node_id task.phase how now task.task_id e (alive s task e c) c)
resume_at s (suc i) how now c (task ∷ []) e =
    subst IsConsistent (sym (ap (λ l. resume_found s (suc i) how now (task_at l (suc i))) e)) c
resume_at s i how now c (a ∷ b ∷ more) e =
    absurd (ground (arith, c.busy, c.free, e, Bool-cases s.tree.is_processing))

pub resume-IsConsistent :
    (s : System) (i : ℕ) (how : Ending) (now : ℕ)
    → IsConsistent s
    → IsConsistent (step s (resume i how now))
unfolding step
resume-IsConsistent s i how now c = resume_at s i how now c s.tasks refl
