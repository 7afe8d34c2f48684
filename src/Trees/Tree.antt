-- ===== src/Trees/Tree.antt =====
-- messaging/trees/data.py: `MessageTree`. The lock makes each operation one step, so it is not
-- modelled; a task is a number, and whether it is done is asked of the event loop. Where the code
-- hands out a node object, the model hands out its record.
pub mod Shape
pub mod Drain
use bailian_free_claude_code.Base.{
  ℕ, zero, suc, ◌+◌, ◌-◌, ◌*◌, ◌^◌, ◌≤◌, ◌<◌, String, ◌≡◌, refl, sym, ap, ◌∙◌, ◌≢◌, ◌↔◌, ◌⊎◌, inl,
  inr, Bool, true, false, not, ◌&&◌, ◌||◌, Option, none, some, List, [], ◌∷◌, ◌++◌, map, arith,
  eq_iff, ltb, leb, if◌then◌else◌, leb→le, Bool-cases, Option-cases, Eq, ◌==◌, nat_eq, string_eq,
  beq_refl, length, All, filter_by, contains, contains-append, Dict, keys, values, is_some, get,
  put, remove, modify, has, get-put, get-put_self, get-remove, get-modify, keys-modify, get-nil,
  dict_laws, value_error, key_error, Outcome, ok, raised, ◌>>=◌, truthy,
}
use mathlib.Core.List.{filter_map}
use bailian_free_claude_code.Trees.Node.{
  MessageState, pending, IncomingMessage, MessageNode, new_node, is_final, with_error,
}
use bailian_free_claude_code.Trees.Queue
use bailian_free_claude_code.Trees.Queue.{SnapshotQueue}

pub record MessageTree : Type 0 where
  pub root_id : String
  pub nodes : Dict String MessageNode
  pub status_to_node : Dict String String
  pub queue : SnapshotQueue
  pub is_processing : Bool
  pub current_node_id : Option String
  pub current_task : Option ℕ

-- `MessageTree(root_node)`
unfoldable pub new_tree : MessageNode → MessageTree
new_tree root = record {
  root_id = root.node_id;
  nodes = (root.node_id, root) ∷ [];
  status_to_node = (root.status_message_id, root.node_id) ∷ [];
  queue = Queue.empty;
  is_processing = false;
  current_node_id = none;
  current_task = none;
}

unfoldable pub set_current_task : MessageTree → Option ℕ → MessageTree
set_current_task t task = record t { current_task = task }

abbrev pub append_child : String → MessageNode → MessageNode
append_child child n = record n { children_ids = n.children_ids ++ child ∷ [] }

unfoldable pub add_node :
    MessageTree → String → IncomingMessage → String → String → ℕ → Outcome MessageTree
add_node t node_id incoming status_message_id parent_id now =
    if has t.nodes parent_id
    then ok (record t {
      nodes =
          modify
            (put t.nodes node_id (new_node node_id incoming status_message_id (some parent_id) now))
            parent_id (append_child node_id);
      status_to_node = put t.status_to_node status_message_id node_id;
    })
    else raised value_error

unfoldable pub get_node : MessageTree → String → Option MessageNode
get_node t node_id = get t.nodes node_id

unfoldable get_children : MessageTree → String → List MessageNode
get_children t node_id = elim (get t.nodes node_id) [
  | none ↦ []
  | some n ↦ filter_map (get t.nodes) n.children_ids
]

-- The parent's key, where the node and its parent are in the tree and `parent_id` is not empty.
pub parent_key : MessageTree → String → Option String
parent_key t node_id = elim (get t.nodes node_id) [
  | none ↦ none
  | some n ↦ elim n.parent_id [
    | none ↦ none
    | some p ↦ if p == "" then none else if has t.nodes p then some p else none
  ]
]

unfoldable get_parent : MessageTree → String → Option MessageNode
unfolding parent_key
get_parent t node_id = elim (parent_key t node_id) [ none ↦ none | some p ↦ get t.nodes p ]

get_parent_session_id : MessageTree → String → Option String
get_parent_session_id t node_id = elim (get_parent t node_id) [
  | none ↦ none
  | some p ↦ p.session_id
]

-- The assignments of `update_state` to a node.
pub updated_node : MessageState → Option String → Option String → ℕ → MessageNode → MessageNode
updated_node state session_id error_message now n = record n {
  state = state;
  session_id = if truthy session_id then session_id else n.session_id;
  error_message = if truthy error_message then error_message else n.error_message;
  completed_at = if is_final state then some now else n.completed_at;
}

unfoldable pub update_state :
    MessageTree → String → MessageState → Option String → Option String → ℕ → MessageTree
unfolding updated_node
update_state t node_id state session_id error_message now = record t {
  nodes = modify t.nodes node_id (updated_node state session_id error_message now);
}

-- The queue position that it returns is counted from 1.
unfoldable pub enqueue : MessageTree → String → MessageTree × ℕ
enqueue t node_id = let q = Queue.put t.queue node_id in (record t { queue = q }, Queue.qsize q)

unfoldable pub dequeue : MessageTree → MessageTree × Option String
dequeue t = elim (Queue.get_nowait t.queue) [
  | none ↦ (t, none)
  | some (node_id, q) ↦ (record t { queue = q }, some node_id)
]

get_queue_snapshot : MessageTree → List String
get_queue_snapshot t = Queue.get_snapshot t.queue

unfoldable pub get_queue_size : MessageTree → ℕ
get_queue_size t = Queue.qsize t.queue

unfoldable pub remove_from_queue : MessageTree → String → MessageTree × Bool
remove_from_queue t node_id =
    let (q, found) = Queue.remove_if_present t.queue node_id in (record t { queue = q }, found)

unfoldable pub set_processing_state : MessageTree → Option String → Bool → MessageTree
set_processing_state t node_id is_processing = record t {
  is_processing = is_processing;
  current_node_id = if is_processing then node_id else none;
}

unfoldable pub clear_current_node : MessageTree → MessageTree
clear_current_node t = record t { current_node_id = none }

unfoldable pub is_current_node : MessageTree → String → Bool
is_current_node t node_id = elim t.current_node_id [ none ↦ false | some c ↦ c == node_id ]

unfoldable pub put_queue_unlocked : MessageTree → String → MessageTree
put_queue_unlocked t node_id = record t { queue = Queue.put t.queue node_id }

-- The task on which `cancel` is called, if it is not done: the answer `True` is `some`.
unfoldable pub cancel_current_task : (ℕ → Bool) → MessageTree → Option ℕ
cancel_current_task done t = elim t.current_task [
  | none ↦ none
  | some task ↦ if done task then none else some task
]

unfoldable pub set_node_error_sync : MessageTree → String → String → ℕ → MessageTree
set_node_error_sync t node_id message now = record t {
  nodes = modify t.nodes node_id (with_error message now);
}

-- A round of the loop of `drain_queue_and_mark_cancelled`, once an id is got, with the rest of the
-- loop; the ids are those of the nodes returned.
drain_round :
    (MessageTree → MessageTree × List String)
    → String
    → ℕ
    → MessageTree
    → Option (String × SnapshotQueue)
    → MessageTree × List String
drain_round rest message now t none = (t, [])
drain_round rest message now t (some (node_id, q)) =
    let (t', ids) =
      rest (record t { queue = q; nodes = modify t.nodes node_id (with_error message now) }) in
    (t', if has t.nodes node_id then node_id ∷ ids else ids)

-- Each round takes an id, so as many rounds as ids wait empty the queue.
drain_loop : ℕ → String → ℕ → MessageTree → MessageTree × List String
unfolding drain_round
drain_loop zero message now t = (t, [])
drain_loop (suc rounds) message now t =
    drain_round (drain_loop rounds message now) message now t (Queue.get_nowait t.queue)

unfoldable pub drain_queue_and_mark_cancelled : MessageTree → String → ℕ → MessageTree × List String
unfolding drain_loop
drain_queue_and_mark_cancelled t message now = drain_loop (Queue.qsize t.queue) message now t

unfoldable pub reset_processing_state : MessageTree → MessageTree
reset_processing_state t = record t { is_processing = false; current_node_id = none }

unfoldable pub all_nodes : MessageTree → List MessageNode
all_nodes t = values t.nodes

unfoldable pub has_node : MessageTree → String → Bool
has_node t node_id = has t.nodes node_id

unfoldable pub find_node_by_status_message : MessageTree → String → Option MessageNode
find_node_by_status_message t status_msg_id = elim (get t.status_to_node status_msg_id) [
  | none ↦ none
  | some node_id ↦ if node_id == "" then none else get t.nodes node_id
]
