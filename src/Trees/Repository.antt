-- ===== src/Trees/Repository.antt =====
-- messaging/trees/queue_manager.py: `TreeRepository`, the index from node ids, and from the ids of
-- status messages, to trees.
use bailian_free_claude_code.Base.{
  ℕ, zero, suc, String, Bool, false, ◌&&◌, Option, none, some, List, [], ◌∷◌, ◌++◌, map,
  if◌then◌else◌, ◌==◌, nat_eq, string_eq, length, filter_by, Dict, values, get, put, remove, has,
}
use mathlib.Core.Option
use mathlib.Core.List.{reverse, flat_map}
use bailian_free_claude_code.Trees.Node.{MessageNode, is_pending}
use bailian_free_claude_code.Trees.Tree.{
  MessageTree, get_node, all_nodes, get_queue_size, has_node, find_node_by_status_message,
}

pub record TreeRepository : Type 0 where
  pub trees : Dict String MessageTree
  pub node_to_tree : Dict String String

abbrev no_trees : TreeRepository
no_trees = record { trees = []; node_to_tree = [] }

unfoldable pub get_tree : TreeRepository → String → Option MessageTree
get_tree r root_id = get r.trees root_id

-- The root id under which the tree of a node is found; an empty root id counts as none.
unfoldable pub tree_key : TreeRepository → String → Option String
tree_key r node_id = elim (get r.node_to_tree node_id) [
  | none ↦ none
  | some root_id ↦
      if root_id == "" then none else if has r.trees root_id then some root_id else none
]

unfoldable pub get_tree_for_node : TreeRepository → String → Option MessageTree
get_tree_for_node r node_id = elim (get r.node_to_tree node_id) [
  | none ↦ none
  | some root_id ↦ if root_id == "" then none else get r.trees root_id
]

unfoldable node_of : TreeRepository → String → Option MessageNode
unfolding get_tree_for_node get_node
node_of r node_id = elim (get_tree_for_node r node_id) [ none ↦ none | some t ↦ get_node t node_id ]

unfoldable pub add_tree : TreeRepository → String → MessageTree → TreeRepository
add_tree r root_id t = record {
  trees = put r.trees root_id t;
  node_to_tree = put r.node_to_tree root_id root_id;
}

unfoldable pub register_node : TreeRepository → String → String → TreeRepository
register_node r node_id root_id = record r { node_to_tree = put r.node_to_tree node_id root_id }

unfoldable pub is_registered : TreeRepository → String → Bool
is_registered r node_id = has r.node_to_tree node_id

unfoldable tree_count : TreeRepository → ℕ
tree_count r = length r.trees

unfoldable is_tree_busy : TreeRepository → String → Bool
is_tree_busy r root_id = elim (get r.trees root_id) [ none ↦ false | some t ↦ t.is_processing ]

unfoldable is_node_tree_busy : TreeRepository → String → Bool
unfolding get_tree_for_node
is_node_tree_busy r node_id = elim (get_tree_for_node r node_id) [
  | none ↦ false
  | some t ↦ t.is_processing
]

unfoldable queue_size : TreeRepository → String → ℕ
unfolding get_tree_for_node get_queue_size
queue_size r node_id = elim (get_tree_for_node r node_id) [ none ↦ 0 | some t ↦ get_queue_size t ]

-- A message is a node of its tree, or the status message of one.
unfoldable resolve_parent_node_id : TreeRepository → String → Option String
unfolding get_tree_for_node has_node find_node_by_status_message
resolve_parent_node_id r msg_id = elim (get_tree_for_node r msg_id) [
  | none ↦ none
  | some t ↦
      if has_node t msg_id
      then some msg_id
      else elim (find_node_by_status_message t msg_id) [ none ↦ none | some n ↦ some n.node_id ]
]

-- The ids among the given children whose node is pending.
unfoldable pending_of : Dict String MessageNode → List String → List String
pending_of nodes ids =
    filter_by (λ c. elim (get nodes c) [ none ↦ false | some n ↦ is_pending n.state ]) ids

-- The loop of `get_pending_children` with the top of the stack first; `none` is a loop that has not
-- ended.
pending_loop : ℕ → Dict String MessageNode → List String → Option (List String)
unfolding pending_of
pending_loop zero nodes stack = none
pending_loop (suc fuel) nodes [] = some []
pending_loop (suc fuel) nodes (current ∷ stack) = elim (get nodes current) [
  | none ↦ pending_loop fuel nodes stack
  | some n ↦
      let found = pending_of nodes n.children_ids in
      Option.map (λ rest. found ++ rest) (pending_loop fuel nodes (reverse found ++ stack))
]

unfoldable pub get_pending_children : ℕ → TreeRepository → String → Option (List String)
unfolding pending_loop get_tree_for_node
get_pending_children fuel r node_id = elim (get_tree_for_node r node_id) [
  | none ↦ some []
  | some t ↦ pending_loop fuel t.nodes (node_id ∷ [])
]

unregister_nodes : TreeRepository → List String → TreeRepository
unregister_nodes r [] = r
unregister_nodes r (nid ∷ nids) =
    unregister_nodes (record r { node_to_tree = remove r.node_to_tree nid }) nids

unfoldable remove_tree : TreeRepository → String → TreeRepository × Option MessageTree
unfolding unregister_nodes all_nodes
remove_tree r root_id = elim (get r.trees root_id) [
  | none ↦ (r, none)
  | some t ↦ (
    unregister_nodes (record r { trees = remove r.trees root_id })
        (map (λ n. n.node_id) (all_nodes t)),
    some t,
  )
]

-- One node's part of `get_message_ids_for_chat`: its message and its status message.
unfoldable message_ids : String → String → MessageNode → List String
message_ids platform chat_id n =
    if n.incoming.platform == platform && n.incoming.chat_id == chat_id
    then n.incoming.message_id
      ∷ (if n.status_message_id == "" then [] else n.status_message_id ∷ [])
    else []

-- The members of the set that it returns, some of them perhaps twice.
unfoldable get_message_ids_for_chat : TreeRepository → String → String → List String
unfolding message_ids all_nodes
get_message_ids_for_chat r platform chat_id =
    flat_map (λ t. flat_map (message_ids platform chat_id) (all_nodes t)) (values r.trees)
