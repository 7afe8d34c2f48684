-- ===== src/Trees/Processor/Run.antt =====
-- messaging/trees/queue_manager.py: interleavings of the tasks of one tree, and of the callers that
-- enqueue nodes. Cancellation is left out here.
pub mod Order
pub mod History
pub mod Drain
use bailian_free_claude_code.Base.{
  ℕ, zero, suc, ◌+◌, ◌-◌, ◌*◌, ◌^◌, ◌≤◌, ◌<◌, String, ◌≡◌, refl, sym, ap, ◌∙◌, ◌≢◌, ◌↔◌, ◌⊎◌, inl,
  inr, Bool, true, false, not, ◌&&◌, ◌||◌, Option, none, some, List, [], ◌∷◌, ◌++◌, map, arith,
  eq_iff, ltb, leb, if◌then◌else◌, leb→le, Bool-cases, Option-cases, Eq, ◌==◌, nat_eq, string_eq,
  beq_refl, length, All, filter_by, contains, contains-append, Dict, keys, values, is_some, get,
  put, remove, modify, has, get-put, get-put_self, get-remove, get-modify, keys-modify, get-nil,
  dict_laws, value_error, key_error, Outcome, ok, raised, ◌>>=◌, truthy,
}
use bailian_free_claude_code.Trees.Node.{MessageState, error, is_error}
use bailian_free_claude_code.Trees.Queue.{SnapshotQueue}
use bailian_free_claude_code.Trees.Tree.{MessageTree, clear_current_node}
use bailian_free_claude_code.Trees.Processor.{
  Started, enqueue_and_start, process_next, Ending, settle, is_skipped,
}

-- Where `process_node` stands: before its first test, in the processor, before the locked block of
-- `finally`, and before `_process_next`.
pub data Phase : Type 0 where
  created processing cleaning advancing : Phase

pub record Task : Type 0 where
  pub task_id : ℕ
  pub node_id : String
  pub phase : Phase

-- The tree, its tasks that have not passed the locked block of their `_process_next`, those that have
-- passed it with a next node and await the callbacks before they end, the next number of a task, and
-- two histories: the ids given to `enqueue_and_start`, and those whose processing was started.
pub record System : Type 0 where
  pub tree : MessageTree
  pub tasks : List Task
  pub notifying : List ℕ
  pub next_task : ℕ
  pub asked : List String
  pub begun : List String

pub data Event : Type 0 where
  -- a caller enqueues a node
  enqueue : String → Event
  -- the i-th task takes its next step; the ending is read where the processor ends
  resume : ℕ → Ending → ℕ → Event
  -- the i-th task that awaits the callbacks ends
  notified : ℕ → Event

abbrev new_tasks : Option (ℕ × String) → List Task
new_tasks none = []
new_tasks (some (task, node_id)) =
    record { task_id = task; node_id = node_id; phase = created } ∷ []

-- The i-th task moves to a phase.
set_phase : List Task → ℕ → Phase → List Task
set_phase [] i phase = []
set_phase (x ∷ xs) zero phase = record x { phase = phase } ∷ xs
set_phase (x ∷ xs) (suc i) phase = x ∷ set_phase xs i phase

drop_task : {A : Type 0} → List A → ℕ → List A
drop_task [] i = []
drop_task (x ∷ xs) zero = xs
drop_task (x ∷ xs) (suc i) = x ∷ drop_task xs i

task_at : List Task → ℕ → Option Task
task_at [] i = none
task_at (x ∷ xs) zero = some x
task_at (x ∷ xs) (suc i) = task_at xs i

abbrev listed : Option String → List String
listed none = []
listed (some node_id) = node_id ∷ []

-- The task that goes on to the callbacks: `_process_next` returns before them if there is no node.
calling_back : Option Task → Option String → List ℕ
calling_back (some task) (some node_id) = task.task_id ∷ []
calling_back _ _ = []

-- The locked block of `_process_next` in the i-th task.
advanced : System → ℕ → System
unfolding drop_task task_at calling_back
advanced s i =
    let next = process_next s.tree s.next_task in
    record s {
      tree = next.tree;
      tasks = drop_task s.tasks i ++ new_tasks next.created;
      notifying = s.notifying ++ calling_back (task_at s.tasks i) next.tree.current_node_id;
      next_task = s.next_task + 1;
      begun = s.begun ++ listed next.tree.current_node_id;
    }

-- The i-th task takes the step that follows its phase.
resume_task : System → ℕ → String → Phase → Ending → ℕ → System
unfolding set_phase advanced
resume_task s i node_id created how now = record s {
  tasks = set_phase s.tasks i (if is_skipped s.tree node_id then advancing else processing);
}
resume_task s i node_id processing how now = record s {
  tree = settle s.tree node_id how now;
  tasks = set_phase s.tasks i cleaning;
}
resume_task s i node_id cleaning how now = record s {
  tree = clear_current_node s.tree;
  tasks = set_phase s.tasks i advancing;
}
resume_task s i node_id advancing how now = advanced s i

resume_found : System → ℕ → Ending → ℕ → Option Task → System
unfolding resume_task
resume_found s i how now none = s
resume_found s i how now (some task) = resume_task s i task.node_id task.phase how now

unfoldable pub step : System → Event → System
unfolding resume_found task_at drop_task
step s (enqueue node_id) =
    let (started, queued) = enqueue_and_start s.tree node_id s.next_task in
    record s {
      tree = started.tree;
      tasks = s.tasks ++ new_tasks started.created;
      next_task = s.next_task + 1;
      asked = s.asked ++ node_id ∷ [];
      begun = if queued then s.begun else s.begun ++ node_id ∷ [];
    }
step s (resume i how now) = resume_found s i how now (task_at s.tasks i)
step s (notified i) = record s { notifying = drop_task s.notifying i }

unfoldable pub run : System → List Event → System
run s [] = s
run s (event ∷ events) = run (step s event) events

-- A tree that nobody works on.
abbrev pub idle : MessageTree → System
idle t = record { tree = t; tasks = []; notifying = []; next_task = 0; asked = []; begun = [] }
