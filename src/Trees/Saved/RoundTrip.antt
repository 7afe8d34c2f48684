-- ===== src/Trees/Saved/RoundTrip.antt =====
-- messaging/trees/data.py: a tree that is saved and restored.
use bailian_free_claude_code.Base.{
  ℕ, String, ◌≡◌, refl, sym, ap, ◌∙◌, inl, inr, true, false, none, some, arith, eq_iff, Bool-cases,
  Option-cases, ◌==◌, nat_eq, string_eq, Dict, get, has, Outcome, ok, ◌>>=◌,
}
use mathlib.Core.Option
use bailian_free_claude_code.Sse.Json.{Json, object, lookup}
use bailian_free_claude_code.Sse.Json.Typed.{item, to_fields}
use bailian_free_claude_code.Trees.Node.{MessageNode}
use bailian_free_claude_code.Trees.Queue
use bailian_free_claude_code.Trees.Tree.{MessageTree, new_tree}
use bailian_free_claude_code.Trees.Tree.Shape.{IsWellFormed}
use bailian_free_claude_code.Trees.Saved.{
  nodes_to_dict, node_to_dict, node_from_dict, restore_nodes, tree_to_dict, tree_from_dict,
}
use bailian_free_claude_code.Trees.Saved.Nodes.{restored, node_round_trip}
use bailian_free_claude_code.Trees.Saved.Entries.{IsDict, Each, Each-found}
use bailian_free_claude_code.Trees.Saved.Refill.{
  refill, lookup-nodes_to_dict, restore_nodes-refill, IsKeyed, refill-get, refill-Rests, IsIndexed,
  Agrees, refill-Agrees, refill-has, refill-indexed,
}

-- A tree after it was saved and restored: the same nodes but for what is not saved of a node, found by
-- their own ids and those of their status messages; nothing is queued or processed.
pub record Restores (now : ℕ) (t r : MessageTree) : Type 0 where
  pub root : r.root_id ≡ t.root_id
  pub nodes : (k : String) → get r.nodes k ≡ Option.map (restored now) (get t.nodes k)
  pub statuses :
      (k : String) (n : MessageNode)
      → get r.nodes k ≡ some n
      → get r.status_to_node n.status_message_id ≡ some k
  pub queue : r.queue ≡ Queue.empty
  pub idle : r.is_processing ≡ false
  pub no_node : r.current_node_id ≡ none
  pub no_task : r.current_task ≡ none

module _ (isoformat : ℕ → String) (fromisoformat : String → Outcome ℕ)
    (iso_inverse : (time : ℕ) → fromisoformat (isoformat time) ≡ ok time)
    (iso_full : (time : ℕ) → (isoformat time == "") ≡ false) where
  root_item :
      (d : Dict String MessageNode) (k : String) (n : MessageNode)
      → get d k ≡ some n
      → item (nodes_to_dict isoformat fromisoformat d) k
        ≡ ok (object (node_to_dict isoformat fromisoformat n))
  root_item d k n e =
      rw (item, lookup-nodes_to_dict isoformat fromisoformat iso_inverse iso_full d k n e) refl

module _ (isoformat : ℕ → String) (fromisoformat : String → Outcome ℕ)
    (iso_inverse : (time : ℕ) → fromisoformat (isoformat time) ≡ ok time)
    (iso_full : (time : ℕ) → (isoformat time == "") ≡ false) (now : ℕ) (t : MessageTree)
    (w : IsWellFormed t) (unique : IsDict t.nodes) (root : MessageNode)
    (rooted : get t.nodes t.root_id ≡ some root) where
  abbrev start : MessageTree
  start = new_tree (restored now root)

  abbrev result : MessageTree
  result = refill now t.root_id start t.nodes

  tree_from_dict-refill :
      tree_from_dict isoformat fromisoformat now (tree_to_dict isoformat fromisoformat t)
      ≡ ok result
  unfolding tree_from_dict tree_to_dict lookup
  tree_from_dict-refill =
      let nodes = nodes_to_dict isoformat fromisoformat t.nodes in
      let rest : MessageNode → Outcome MessageTree =
        λ n. restore_nodes isoformat fromisoformat now t.root_id (new_tree n) nodes in
      let whole : Outcome Json → Outcome MessageTree =
        λ x. x >>= to_fields >>= node_from_dict isoformat fromisoformat now >>= rest in
      ap whole
        (root_item isoformat fromisoformat iso_inverse iso_full t.nodes t.root_id root rooted)
      ∙ (ap (λ x. x >>= rest)
            (node_round_trip isoformat fromisoformat iso_inverse iso_full now root)
          ∙ restore_nodes-refill isoformat fromisoformat iso_inverse iso_full now t.root_id start
              t.nodes)

  keyed : Each IsKeyed t.nodes
  keyed = Each-found IsKeyed t.nodes unique w.keyed

  indexed : Each (IsIndexed t.status_to_node) t.nodes
  indexed =
      Each-found (IsIndexed t.status_to_node) t.nodes unique
        (λ k n e. (w.keyed k n e, w.indexed k n e))

  result-get : (k : String) → get result.nodes k ≡ Option.map (restored now) (get t.nodes k)
  unfolding new_tree get
  result-get k = ground (
    arith,
    refill-get now t.root_id start t.nodes k unique keyed,
    rooted,
    w.keyed t.root_id root rooted,
    eq_iff root.node_id k,
    eq_iff k t.root_id,
  )

  start-Agrees : Agrees t.status_to_node start
  unfolding new_tree get
  start-Agrees s k e = ground (
    arith,
    e,
    w.keyed t.root_id root rooted,
    w.indexed t.root_id root rooted,
    eq_iff root.status_message_id s,
  )

  -- Each saved node's status message is found.
  result-status :
      (k : String) (n : MessageNode)
      → get t.nodes k ≡ some n
      → get result.status_to_node n.status_message_id ≡ some k
  unfolding new_tree get
  result-status k n e =
      let in_index : has result.status_to_node n.status_message_id ≡ true =
        elim (Bool-cases (k == t.root_id)) [
          | inl here ↦ refill-has now t.root_id start t.nodes n.status_message_id (
              ground (
                arith,
                e,
                rooted,
                here,
                eq_iff k t.root_id,
                eq_iff root.status_message_id n.status_message_id,
              ))
          | inr there ↦ refill-indexed now t.root_id start t.nodes k n e there
        ] in
      elim (Option-cases (get result.status_to_node n.status_message_id)) [
        | inl nothing ↦ absurd (ground (arith, in_index, nothing))
        | inr (j, found) ↦ ground (
          arith,
          found,
          w.indexed k n e,
          refill-Agrees now t.root_id start t.nodes t.status_to_node indexed start-Agrees
              n.status_message_id j found,
        )
      ]

  -- Each node of the result is one that was saved.
  from_saved :
      (k : String) (n : MessageNode)
      → get result.nodes k ≡ some n
      → (m : MessageNode) × (get t.nodes k ≡ some m) × (restored now m ≡ n)
  from_saved k n e = elim (Option-cases (get t.nodes k)) [
    | inl nothing ↦ absurd (ground (arith, e, result-get k, nothing))
    | inr (m, found) ↦ (m, found, ground (arith, e, result-get k, found))
  ]

  result-Restores : Restores now t result
  unfolding new_tree
  result-Restores =
      let (same_root, same_queue, same_flag, same_node, same_task) =
        refill-Rests now t.root_id start t.nodes in
      record {
        root = same_root ∙ w.keyed t.root_id root rooted;
        nodes = result-get;
        statuses = λ k n e.
            let (m, found, same) = from_saved k n e in
            ap (λ x. get result.status_to_node x.status_message_id) (sym same)
            ∙ result-status k m found;
        queue = same_queue;
        idle = same_flag;
        no_node = same_node;
        no_task = same_task;
      }

-- A well-formed tree that is saved and restored, at a time `now`, is the tree it was but for what is
-- not saved: the nodes stand under the same ids with the same fields, but for the context of a node,
-- the prepared status message and the time of its message; each node is found by its status message,
-- and nothing is queued or processed. `fromisoformat` has to read what `isoformat` writes, which is
-- never empty.
pub tree_round_trip :
    (isoformat : ℕ → String) (fromisoformat : String → Outcome ℕ)
    (iso_inverse : (time : ℕ) → fromisoformat (isoformat time) ≡ ok time)
    (iso_full : (time : ℕ) → (isoformat time == "") ≡ false) (now : ℕ) (t : MessageTree)
    → IsWellFormed t
    → IsDict t.nodes
    → (r : MessageTree) × (tree_from_dict isoformat fromisoformat now
          (tree_to_dict isoformat fromisoformat t)
        ≡ ok r)
      × Restores now t r
tree_round_trip isoformat fromisoformat iso_inverse iso_full now t w unique =
    elim (Option-cases (get t.nodes t.root_id)) [
      | inl nothing ↦ absurd (ground (arith, w.rooted, nothing))
      | inr (root, rooted) ↦ (
        result isoformat fromisoformat iso_inverse iso_full now t w unique root rooted,
        tree_from_dict-refill isoformat fromisoformat iso_inverse iso_full now t w unique root
            rooted,
        result-Restores isoformat fromisoformat iso_inverse iso_full now t w unique root rooted,
      )
    ]
