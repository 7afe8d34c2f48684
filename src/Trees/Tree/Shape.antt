-- ===== src/Trees/Tree/Shape.antt =====
-- messaging/trees/data.py: the links of a tree are consistent, and the operations keep them so.
use bailian_free_claude_code.Base.{
  ℕ, ◌+◌, ◌≤◌, ◌<◌, String, ◌≡◌, ap, ◌≢◌, ◌⊎◌, inl, inr, true, none, some, [], ◌∷◌, arith, eq_iff,
  if◌then◌else◌, Bool-cases, Option-cases, ◌==◌, nat_eq, string_eq, contains, contains-append, get,
  put, has, get-put, get-modify, ok,
}
use mathlib.Core.Option
use bailian_free_claude_code.Trees.Node.{IncomingMessage, MessageNode, new_node}
use bailian_free_claude_code.Trees.Tree.{MessageTree, new_tree, append_child, add_node}

-- Keys are the nodes' ids, the status index finds each node, children are in the tree and name their
-- parent, and a rank grows from parent to child, so that no node is below itself.
pub record IsWellFormed (t : MessageTree) : Type 0 where
  pub rooted : has t.nodes t.root_id ≡ true
  pub keyed : (k : String) (n : MessageNode) → get t.nodes k ≡ some n → n.node_id ≡ k
  pub indexed :
      (k : String) (n : MessageNode)
      → get t.nodes k ≡ some n
      → get t.status_to_node n.status_message_id ≡ some k
  pub closed :
      (k : String) (n : MessageNode) (c : String)
      → get t.nodes k ≡ some n
      → contains n.children_ids c ≡ true
      → (m : MessageNode) × (get t.nodes c ≡ some m) × (m.parent_id ≡ some k)
  pub rank : String → ℕ
  pub bound : ℕ
  pub ranked : (k : String) (n : MessageNode) → get t.nodes k ≡ some n → rank k ≤ bound
  pub below :
      (k : String) (n : MessageNode) (c : String)
      → get t.nodes k ≡ some n
      → contains n.children_ids c ≡ true
      → rank k < rank c

pub new_tree-IsWellFormed :
    (root : MessageNode) → root.children_ids ≡ [] → IsWellFormed (new_tree root)
unfolding new_tree get
new_tree-IsWellFormed root leaf = record {
  rooted = ground (arith, eq_iff root.node_id root.node_id);
  keyed = λ k n h. ground (arith, eq_iff root.node_id k);
  indexed = λ k n h.
      ground (arith, eq_iff root.node_id k, eq_iff root.status_message_id root.status_message_id);
  closed = λ k n c h m. absurd (ground (arith, ap (λ l. contains l c) leaf));
  rank = λ _. 0;
  bound = 0;
  ranked = λ k n h. omega arith;
  below = λ k n c h m. ground (arith, ap (λ l. contains l c) leaf);
}

module _ (t t' : MessageTree) (node_id : String) (incoming : IncomingMessage)
    (status_message_id parent_id : String) (now : ℕ)
    (added : add_node t node_id incoming status_message_id parent_id now ≡ ok t')
    (fresh : get t.nodes node_id ≡ none)
    (fresh_status : get t.status_to_node status_message_id ≡ none) (w : IsWellFormed t) where
  abbrev child : MessageNode
  child = new_node node_id incoming status_message_id (some parent_id) now

  add_node-get :
      (k : String)
      → get t'.nodes k ≡ (
          if node_id == k
          then some child
          else if parent_id == k
          then Option.map (append_child node_id) (get t.nodes k)
          else get t.nodes k)
  unfolding add_node
  add_node-get k = ground (
    arith,
    get-modify (put t.nodes node_id child) parent_id (append_child node_id) k,
    get-put t.nodes node_id child k,
    eq_iff node_id k,
    eq_iff parent_id k,
    eq_iff node_id parent_id,
    eq_iff parent_id node_id,
    fresh,
    added,
  )

  add_node-status :
      (s : String)
      → get t'.status_to_node s
        ≡ (if status_message_id == s then some node_id else get t.status_to_node s)
  unfolding add_node
  add_node-status s = ground (arith, get-put t.status_to_node status_message_id node_id s, added)

  -- A node found after `add_node` is the new one, its parent, or one that stood there before.
  add_node-cases :
      (k : String) (n : MessageNode)
      → get t'.nodes k ≡ some n
      → (k ≡ node_id) × (n ≡ child)
        ⊎ ((m : MessageNode) × (get t.nodes k ≡ some m)
            × (k ≢ node_id)
            × (n ≡ m ⊎ (n ≡ append_child node_id m) × (k ≡ parent_id)))
  add_node-cases k n h = elim (Option-cases (get t.nodes k)) [
    | inl e ↦ inl (ground (arith, add_node-get k, eq_iff node_id k, eq_iff parent_id k))
    | inr (m, e) ↦ inr (
      m,
      e,
      (λ same. ground (arith, same)),
      ground (arith, add_node-get k, eq_iff node_id k, eq_iff parent_id k),
    )
  ]

  add_node-root :
      (t'.root_id ≡ t.root_id) × ((k : String) → has t.nodes k ≡ true → has t'.nodes k ≡ true)
  unfolding add_node
  add_node-root =
      (ground (arith, added), λ k h. ground (arith, add_node-get k, Option-cases (get t.nodes k)))

  parent_there : (p : MessageNode) × (get t.nodes parent_id ≡ some p)
  unfolding add_node
  parent_there = elim (Option-cases (get t.nodes parent_id)) [
    | inl e ↦ absurd (ground (arith, added))
    | inr (p, e) ↦ (p, e)
  ]

  -- An old child of an old node is still there, with its parent.
  add_node-old_child :
      (k c : String) (m : MessageNode)
      → get t.nodes c ≡ some m
      → m.parent_id ≡ some k
      → (m' : MessageNode) × (get t'.nodes c ≡ some m') × (m'.parent_id ≡ some k)
  add_node-old_child k c m e p = elim (Bool-cases (parent_id == c)) [
    | inl same ↦ (append_child node_id m, ground (arith, add_node-get c, eq_iff node_id c), p)
    | inr other ↦ (m, ground (arith, add_node-get c, eq_iff node_id c), p)
  ]

  add_node-children :
      (k c : String) (n : MessageNode)
      → get t'.nodes k ≡ some n
      → contains n.children_ids c ≡ true
      → (k ≡ parent_id) × (c ≡ node_id)
        ⊎ ((m : MessageNode) × (get t.nodes k ≡ some m) × (contains m.children_ids c ≡ true))
  add_node-children k c n h inside = elim (add_node-cases k n h) [
    | inl (same, e) ↦ absurd (ground (arith, ap (λ (x : MessageNode). contains x.children_ids c) e))
    | inr (m, e, other, inl same) ↦ inr (m, e, ground (arith, same))
    | inr (m, e, other, inr (same, at_parent)) ↦ elim (Bool-cases (node_id == c)) [
      | inl new ↦ inl (at_parent, ground (arith, eq_iff node_id c))
      | inr old ↦ inr (
        m,
        e,
        ground (
          arith,
          ap (λ (x : MessageNode). contains x.children_ids c) same,
          contains-append m.children_ids (node_id ∷ []) c,
        ),
      )
    ]
  ]

  old_status :
      (k : String) (n m : MessageNode)
      → get t.nodes k ≡ some m
      → n.status_message_id ≡ m.status_message_id
      → get t'.status_to_node n.status_message_id ≡ some k
  old_status k n m e same = ground (
    arith,
    add_node-status n.status_message_id,
    same,
    w.indexed k m e,
    eq_iff status_message_id n.status_message_id,
    fresh_status,
  )

  -- Adding a node under a new id and a new status id keeps a tree well-formed.
  pub add_node-IsWellFormed : IsWellFormed t'
  add_node-IsWellFormed = record {
    rooted = ground (arith, add_node-root.0, add_node-root.1 t.root_id, w.rooted);
    keyed = λ k n h. elim (add_node-cases k n h) [
      | inl (same, e) ↦ ground (arith, ap (λ (x : MessageNode). x.node_id) e)
      | inr (m, e, other, inl same) ↦ ground (arith, w.keyed k m e)
      | inr (m, e, other, inr (same, _)) ↦ ground (arith, w.keyed k m e)
    ];
    indexed = λ k n h. elim (add_node-cases k n h) [
      | inl (same, e) ↦ ground (
        arith,
        add_node-status n.status_message_id,
        ap (λ (x : MessageNode). x.status_message_id) e,
        eq_iff status_message_id n.status_message_id,
      )
      | inr (m, e, other, inl same) ↦
          old_status k n m e (ap (λ (x : MessageNode). x.status_message_id) same)
      | inr (m, e, other, inr (same, _)) ↦
          old_status k n m e (ap (λ (x : MessageNode). x.status_message_id) same)
    ];
    closed = λ k n c h inside. elim (add_node-children k c n h inside) [
      | inl (at_parent, new) ↦
          (child, ground (arith, add_node-get c, eq_iff node_id c), ground arith)
      | inr (m, e, old) ↦
          let (m', there, up) = w.closed k m c e old in add_node-old_child k c m' there up
    ];
    rank = λ k. if k == node_id then w.bound + 1 else w.rank k;
    bound = w.bound + 1;
    ranked = λ k n h. elim (add_node-cases k n h) [
      | inl (same, e) ↦ ground (arith, eq_iff k node_id)
      | inr (m, e, other, _) ↦ ground (arith, eq_iff k node_id, w.ranked k m e)
    ];
    below = λ k n c h inside. elim (add_node-children k c n h inside) [
      | inl (at_parent, new) ↦
          let (p, e) = parent_there in
          ground (
            arith,
            eq_iff k node_id,
            eq_iff c node_id,
            w.ranked parent_id p e,
            e,
            fresh,
            ap (λ j. w.rank j) at_parent,
            ap (λ j. get t.nodes j) at_parent,
          )
      | inr (m, e, old) ↦
          let (m', there, up) = w.closed k m c e old in
          ground (
            arith,
            eq_iff k node_id,
            eq_iff c node_id,
            w.below k m c e old,
            e,
            there,
            fresh,
            λ (same : k ≡ node_id). ap (λ j. get t.nodes j) same,
            λ (same : c ≡ node_id). ap (λ j. get t.nodes j) same,
          )
    ];
  }
