-- ===== src/Trees/Processor.antt =====
-- messaging/trees/queue_manager.py: `TreeQueueProcessor`. A task that `asyncio.create_task` makes is
-- a number that the event loop gives, passed in as `task`. The callbacks only refresh messages of the
-- chat: that a task awaits them is modelled (Run), what they do is not. Each block under the tree's
-- lock is one step; between two steps of one task, steps of others may come.
pub mod Run
mod Starts
use bailian_free_claude_code.Base.{
  ℕ, zero, suc, ◌+◌, ◌-◌, ◌*◌, ◌^◌, ◌≤◌, ◌<◌, String, ◌≡◌, refl, sym, ap, ◌∙◌, ◌≢◌, ◌↔◌, ◌⊎◌, inl,
  inr, Bool, true, false, not, ◌&&◌, ◌||◌, Option, none, some, List, [], ◌∷◌, ◌++◌, map, arith,
  eq_iff, ltb, leb, if◌then◌else◌, leb→le, Bool-cases, Option-cases, Eq, ◌==◌, nat_eq, string_eq,
  beq_refl, length, All, filter_by, contains, contains-append, Dict, keys, values, is_some, get,
  put, remove, modify, has, get-put, get-put_self, get-remove, get-modify, keys-modify, get-nil,
  dict_laws, value_error, key_error, Outcome, ok, raised, ◌>>=◌, truthy,
}
use bailian_free_claude_code.Trees.Node.{MessageState, error, is_error}
use bailian_free_claude_code.Trees.Tree.{
  MessageTree, get_node, set_current_task, update_state, dequeue, set_processing_state,
  clear_current_node, put_queue_unlocked, cancel_current_task,
}

-- What a locked block leaves: the tree, and the task that it created, with its node.
pub record Started : Type 0 where
  pub tree : MessageTree
  pub created : Option (ℕ × String)

-- `set_processing_state(node_id, True)`, and a task for the node if the tree has it.
start_node : MessageTree → String → ℕ → Started
unfolding get_node set_current_task set_processing_state
start_node t node_id task =
    let t' = set_processing_state t (some node_id) true in
    elim (get_node t' node_id) [
      | none ↦ record { tree = t'; created = none }
      | some n ↦ record { tree = set_current_task t' (some task); created = some (task, node_id) }
    ]

-- The answer `True` says that the node waits in the queue.
unfoldable pub enqueue_and_start : MessageTree → String → ℕ → Started × Bool
unfolding start_node put_queue_unlocked
enqueue_and_start t node_id task =
    if t.is_processing
    then (record { tree = put_queue_unlocked t node_id; created = none }, true)
    else (start_node t node_id task, false)

-- `_process_next` once the id is taken; an empty id counts as no id.
after_dequeue : MessageTree × Option String → ℕ → Started
unfolding start_node set_processing_state
after_dequeue (t, none) task = record { tree = set_processing_state t none false; created = none }
after_dequeue (t, some node_id) task =
    if node_id == ""
    then record { tree = set_processing_state t none false; created = none }
    else start_node t node_id task

pub process_next : MessageTree → ℕ → Started
unfolding after_dequeue
process_next t task = after_dequeue (dequeue t) task

-- How `await processor(...)` ends: it returns, it is cancelled, or it raises with a message.
pub data Ending : Type 0 where
  returned cancelled : Ending
  failed : String → Ending

-- The `except` clauses of `process_node`.
pub settle : MessageTree → String → Ending → ℕ → MessageTree
unfolding update_state
settle t node_id (failed message) now = update_state t node_id error none (some message) now
settle t node_id returned now = t
settle t node_id cancelled now = t

-- The first test of `process_node`: a node in state ERROR is skipped.
unfoldable is_skipped : MessageTree → String → Bool
unfolding get_node
is_skipped t node_id = elim (get_node t node_id) [ none ↦ false | some n ↦ is_error n.state ]
