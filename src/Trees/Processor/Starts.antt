-- ===== src/Trees/Processor/Starts.antt =====
-- messaging/trees/queue_manager.py: the two ways in which `_process_next` and `enqueue_and_start` go.
use bailian_free_claude_code.Base.{
  ℕ, String, ◌≡◌, ap, ◌∙◌, inl, inr, true, false, none, some, List, [], ◌∷◌, arith, Option-cases,
  ◌==◌, nat_eq, string_eq, get, has,
}
use bailian_free_claude_code.Trees.Queue.{SnapshotQueue, get_nowait}
use bailian_free_claude_code.Trees.Queue.Laws.{get_nowait-nil, get_nowait-cons}
use bailian_free_claude_code.Trees.Tree.{MessageTree, dequeue}
use bailian_free_claude_code.Trees.Processor.{
  Started, start_node, after_dequeue, enqueue_and_start, process_next,
}

-- An id that can be processed: it is not empty and the tree has its node.
abbrev pub IsKnown : MessageTree → String → Type 0
IsKnown t node_id = ((node_id == "") ≡ false) × (has t.nodes node_id ≡ true)

abbrev working_on : MessageTree → String → ℕ → Started
working_on t node_id task = record {
  tree = record t {
    is_processing = true;
    current_node_id = some node_id;
    current_task = some task;
  };
  created = some (task, node_id);
}

start_node-known :
    (t : MessageTree) (node_id : String) (task : ℕ)
    → has t.nodes node_id ≡ true
    → start_node t node_id task ≡ working_on t node_id task
unfolding start_node
start_node-known t node_id task there = elim (Option-cases (get t.nodes node_id)) [
  | inl e ↦ absurd (ground (arith, e, there))
  | inr (n, e) ↦ rw (e, start_node)
]

pub enqueue_and_start-free :
    (t : MessageTree) (node_id : String) (task : ℕ)
    → t.is_processing ≡ false
    → has t.nodes node_id ≡ true
    → enqueue_and_start t node_id task ≡ (working_on t node_id task, false)
unfolding enqueue_and_start
enqueue_and_start-free t node_id task free there =
    ground (arith, start_node-known t node_id task there)

dequeue-nil : (t : MessageTree) → t.queue.deque ≡ [] → dequeue t ≡ (t, none)
unfolding dequeue
dequeue-nil t e = rw (get_nowait-nil t.queue e, dequeue)

dequeue-some :
    (t : MessageTree) (node_id : String) (q : SnapshotQueue)
    → get_nowait t.queue ≡ some (node_id, q)
    → dequeue t ≡ (record t { queue = q }, some node_id)
unfolding dequeue
dequeue-some t node_id q e = rw (e, dequeue)

pub process_next-nil :
    (t : MessageTree) (task : ℕ)
    → t.queue.deque ≡ []
    → process_next t task
      ≡ record { tree = record t { is_processing = false; current_node_id = none }; created = none }
unfolding process_next
process_next-nil t task e = rw (dequeue-nil t e)

after_dequeue-known :
    (t : MessageTree) (node_id : String) (task : ℕ)
    → IsKnown t node_id
    → after_dequeue (t, some node_id) task ≡ working_on t node_id task
unfolding after_dequeue
after_dequeue-known t node_id task k = rw k.0 (start_node-known t node_id task k.1)

pub process_next-cons :
    (t : MessageTree) (task : ℕ) (node_id : String) (rest : List String)
    → t.queue.deque ≡ node_id ∷ rest
    → IsKnown t node_id
    → (q : SnapshotQueue) × (q.deque ≡ rest)
      × (process_next t task ≡ working_on (record t { queue = q }) node_id task)
unfolding process_next
process_next-cons t task node_id rest e k =
    let (q, shape, got) = get_nowait-cons t.queue node_id rest e in
    (
      q,
      shape,
      ap (λ d. after_dequeue d task) (dequeue-some t node_id q got)
          ∙ after_dequeue-known (record t { queue = q }) node_id task k,
    )
