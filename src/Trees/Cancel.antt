-- ===== src/Trees/Cancel.antt =====
-- messaging/trees/queue_manager.py: what `cancel_tree`, `cancel_node`, `cancel_branch`,
-- `mark_node_error` and `cleanup_stale_nodes` of `TreeQueueManager` do to one tree. `done` answers
-- whether a task has ended. Nodes that an operation returns are given by their ids.
pub mod Tree
pub mod Branch
use bailian_free_claude_code.Base.{
  ℕ, zero, suc, ◌+◌, ◌-◌, ◌*◌, ◌^◌, ◌≤◌, ◌<◌, String, ◌≡◌, refl, sym, ap, ◌∙◌, ◌≢◌, ◌↔◌, ◌⊎◌, inl,
  inr, Bool, true, false, not, ◌&&◌, ◌||◌, Option, none, some, List, [], ◌∷◌, ◌++◌, map, arith,
  eq_iff, ltb, leb, if◌then◌else◌, leb→le, Bool-cases, Option-cases, Eq, ◌==◌, nat_eq, string_eq,
  beq_refl, length, All, filter_by, contains, contains-append, Dict, keys, values, is_some, get,
  put, remove, modify, has, get-put, get-put_self, get-remove, get-modify, keys-modify, get-nil,
  dict_laws, value_error, key_error, Outcome, ok, raised, ◌>>=◌, truthy,
}
use mathlib.Core.Option
use bailian_free_claude_code.Trees.Descend.{get_descendants}
use Prim.Native.String.{◌++◌ as append_text}
use bailian_free_claude_code.Trees.Node.{MessageNode, error, is_final, with_error}
use bailian_free_claude_code.Trees.Tree.{
  MessageTree, get_node, update_state, is_current_node, cancel_current_task, remove_from_queue,
  set_node_error_sync, drain_queue_and_mark_cancelled, reset_processing_state,
}

-- The tree afterwards, the ids of the nodes returned, and the tasks on which `cancel` was called.
pub record Cancelled : Type 0 where
  pub tree : MessageTree
  pub ids : List String
  pub tasks : List ℕ

abbrev task_list : Option ℕ → List ℕ
task_list none = []
task_list (some task) = task ∷ []

-- The id of the current node, where it is to be cancelled: it is not empty, and its node is in the
-- tree and not final.
cancellable_current : MessageTree → Option String
cancellable_current t = elim t.current_node_id [
  | none ↦ none
  | some current_id ↦ if current_id == "" then none else elim (get t.nodes current_id) [
    | none ↦ none
    | some n ↦ if is_final n.state then none else some current_id
  ]
]

-- `if tree.cancel_current_task(): ...`, the first part of `cancel_tree`.
cancel_running : (ℕ → Bool) → MessageTree → ℕ → Cancelled
unfolding cancellable_current cancel_current_task set_node_error_sync
cancel_running done t now = elim (cancel_current_task done t) [
  | none ↦ record { tree = t; ids = []; tasks = [] }
  | some task ↦ elim (cancellable_current t) [
    | none ↦ record { tree = t; ids = []; tasks = task ∷ [] }
    | some current_id ↦ record {
      tree = set_node_error_sync t current_id "Cancelled by user" now;
      ids = current_id ∷ [];
      tasks = task ∷ [];
    }
  ]
]

-- A node of the loop over `all_nodes`.
mark_stale : List String → String → ℕ → MessageNode → MessageNode
mark_stale ids message now n =
    if is_final n.state then n else if contains ids n.node_id then n else with_error message now n

mark_all_stale : List String → String → ℕ → Dict String MessageNode → Dict String MessageNode
unfolding mark_stale
mark_all_stale ids message now [] = []
mark_all_stale ids message now ((k, n) ∷ nodes) =
    (k, mark_stale ids message now n) ∷ mark_all_stale ids message now nodes

unfoldable pub cancel_tree : (ℕ → Bool) → MessageTree → ℕ → Cancelled
unfolding cancel_running drain_queue_and_mark_cancelled mark_all_stale reset_processing_state
cancel_tree done t now =
    let running = cancel_running done t now in
    let (drained, queued) = drain_queue_and_mark_cancelled running.tree "Cancelled by user" now in
    let ids = running.ids ++ queued in
    record {
      tree =
          reset_processing_state (record drained {
            nodes = mark_all_stale ids "Stale task cleaned up" now drained.nodes;
          });
      ids = ids;
      tasks = running.tasks;
    }

-- A node that can be cancelled: it is in the tree and not final.
abbrev pub is_open : Option MessageNode → Bool
is_open none = false
is_open (some n) = not (is_final n.state)

unfoldable cancel_node : (ℕ → Bool) → MessageTree → String → ℕ → Cancelled
unfolding is_current_node cancel_current_task remove_from_queue set_node_error_sync
cancel_node done t node_id now =
    if is_open (get t.nodes node_id)
    then record {
      tree = set_node_error_sync (remove_from_queue t node_id).0 node_id "Cancelled by user" now;
      ids = node_id ∷ [];
      tasks = if is_current_node t node_id then task_list (cancel_current_task done t) else [];
    }
    else record { tree = t; ids = []; tasks = [] }

-- One round of the loop of `cancel_branch`.
cancel_one : (ℕ → Bool) → MessageTree → String → ℕ → Cancelled
unfolding is_current_node cancel_current_task remove_from_queue set_node_error_sync
cancel_one done t nid now =
    if is_open (get t.nodes nid)
    then if is_current_node t nid
      then record {
        tree = set_node_error_sync t nid "Cancelled by user" now;
        ids = nid ∷ [];
        tasks = task_list (cancel_current_task done t);
      }
      else record {
        tree = set_node_error_sync (remove_from_queue t nid).0 nid "Cancelled by user" now;
        ids = nid ∷ [];
        tasks = [];
      }
    else record { tree = t; ids = []; tasks = [] }

-- The loop of `cancel_branch` over the branch's ids. The source loops over a set; the model takes
-- the ids in the order given.
pub cancel_ids : (ℕ → Bool) → MessageTree → List String → ℕ → Cancelled
unfolding cancel_one
cancel_ids done t [] now = record { tree = t; ids = []; tasks = [] }
cancel_ids done t (nid ∷ nids) now =
    let first = cancel_one done t nid now in
    let rest = cancel_ids done first.tree nids now in
    record { tree = rest.tree; ids = first.ids ++ rest.ids; tasks = first.tasks ++ rest.tasks }

-- `cancel_branch` on the tree of the branch; `none` is a search for the branch that has not ended.
unfoldable pub cancel_branch : ℕ → (ℕ → Bool) → MessageTree → String → ℕ → Option Cancelled
unfolding cancel_ids
cancel_branch fuel done t branch_root_id now =
    Option.map (λ nids. cancel_ids done t nids now) (get_descendants fuel t branch_root_id)

-- The loop of `mark_node_error` over the pending children.
unfoldable pub fail_children : MessageTree → List String → String → ℕ → MessageTree
unfolding update_state
fail_children t [] message now = t
fail_children t (c ∷ cs) message now =
    fail_children (update_state t c error none (some (append_text "Parent failed: " message)) now)
      cs message now

-- The tree of `cleanup_stale_nodes`.
unfoldable cleanup_tree : MessageTree → ℕ → MessageTree
unfolding mark_all_stale
cleanup_tree t now = record t { nodes = mark_all_stale [] "Lost during server restart" now t.nodes }
