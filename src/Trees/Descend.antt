-- ===== src/Trees/Descend.antt =====
-- messaging/trees/data.py: `get_descendants` and `remove_branch` of `MessageTree`.
pub mod Reach
pub mod Finish
pub mod Removal
use bailian_free_claude_code.Base.{
  ℕ, zero, suc, ◌+◌, ◌-◌, ◌*◌, ◌^◌, ◌≤◌, ◌<◌, String, ◌≡◌, refl, sym, ap, ◌∙◌, ◌≢◌, ◌↔◌, ◌⊎◌, inl,
  inr, Bool, true, false, not, ◌&&◌, ◌||◌, Option, none, some, List, [], ◌∷◌, ◌++◌, map, arith,
  eq_iff, ltb, leb, if◌then◌else◌, leb→le, Bool-cases, Option-cases, Eq, ◌==◌, nat_eq, string_eq,
  beq_refl, length, All, filter_by, contains, contains-append, Dict, keys, values, is_some, get,
  put, remove, modify, has, get-put, get-put_self, get-remove, get-modify, keys-modify, get-nil,
  dict_laws, value_error, key_error, Outcome, ok, raised, ◌>>=◌, truthy,
}
use mathlib.Core.List.{reverse}
use mathlib.Core.Option
use bailian_free_claude_code.Trees.Node.{MessageNode}
use bailian_free_claude_code.Trees.Tree.{MessageTree, parent_key}

unfoldable pub children_of : Dict String MessageNode → String → List String
children_of nodes nid = elim (get nodes nid) [ none ↦ [] | some n ↦ n.children_ids ]

-- The `while stack` loop, the top of the stack first: `extend` leaves the last child on top. `none`
-- says that the fuel ran out.
unfoldable pub descend : ℕ → Dict String MessageNode → List String → Option (List String)
unfolding children_of
descend zero nodes stack = none
descend (suc fuel) nodes [] = some []
descend (suc fuel) nodes (nid ∷ stack) =
    Option.map (λ result. nid ∷ result)
      (descend fuel nodes (reverse (children_of nodes nid) ++ stack))

unfoldable pub get_descendants : ℕ → MessageTree → String → Option (List String)
get_descendants fuel t node_id =
    if has t.nodes node_id then descend fuel t.nodes (node_id ∷ []) else some []

-- The `for` loop of `remove_branch`, with the nodes that it removed. Deleting a status id that is
-- not there raises `KeyError`.
unfoldable remove_nodes : List String → MessageTree → Outcome (MessageTree × List MessageNode)
remove_nodes [] t = ok (t, [])
remove_nodes (nid ∷ nids) t = elim (get t.nodes nid) [
  | none ↦ remove_nodes nids t
  | some n ↦
      if has t.status_to_node n.status_message_id
      then (remove_nodes nids (record t {
        nodes = remove t.nodes nid;
        status_to_node = remove t.status_to_node n.status_message_id;
      })
          >>= λ (t', removed). ok (t', n ∷ removed))
      else raised key_error
]

abbrev pub drop_child : String → MessageNode → MessageNode
drop_child child n = record n { children_ids = filter_by (λ c. not (c == child)) n.children_ids }

-- `parent.children_ids = [c for c in parent.children_ids if c != branch_root_id]`
abbrev unlink : Option String → String → MessageTree → MessageTree
unlink none branch_root_id t = t
unlink (some p) branch_root_id t = record t { nodes = modify t.nodes p (drop_child branch_root_id) }

-- Taking the branch out of its parent's children changes nothing if it is not among them.
pub remove_branch : ℕ → MessageTree → String → Option (Outcome (MessageTree × List MessageNode))
unfolding remove_nodes
remove_branch fuel t branch_root_id =
    if has t.nodes branch_root_id
    then Option.map
        (λ nids. remove_nodes nids t >>= λ (t', removed).
          ok (unlink (parent_key t branch_root_id) branch_root_id t', removed))
        (get_descendants fuel t branch_root_id)
    else some (ok (t, []))
