-- ===== src/Trees/Saved/Refill.antt =====
-- messaging/trees/data.py: what the loop over the saved nodes makes of a tree.
use bailian_free_claude_code.Base.{
  ℕ, String, ◌≡◌, refl, ap, ◌∙◌, inl, inr, true, false, Option, none, some, [], ◌∷◌, arith, eq_iff,
  if◌then◌else◌, Bool-cases, ◌==◌, nat_eq, string_eq, Dict, get, has, get-put, Outcome, ok,
}
use bailian_free_claude_code.Sse.Json.{object, lookup}
use bailian_free_claude_code.Trees.Node.{MessageNode}
use bailian_free_claude_code.Trees.Tree.{MessageTree}
use bailian_free_claude_code.Trees.Saved.{
  node_to_dict, nodes_to_dict, add_node_from_dict, restore_node, restore_nodes,
}
use bailian_free_claude_code.Trees.Saved.Nodes.{restored, node_round_trip}
use bailian_free_claude_code.Trees.Saved.Entries.{IsDict, Each, key_absent}

-- The entries that are not the root are written over a tree.
abbrev write : ℕ → String → MessageTree → String → MessageNode → MessageTree
write now root_id t k n = if k == root_id then t else add_node_from_dict t (restored now n)

pub refill : ℕ → String → MessageTree → Dict String MessageNode → MessageTree
refill now root_id t [] = t
refill now root_id t ((k, n) ∷ d) = refill now root_id (write now root_id t k n) d

module _ (isoformat : ℕ → String) (fromisoformat : String → Outcome ℕ)
    (iso_inverse : (time : ℕ) → fromisoformat (isoformat time) ≡ ok time)
    (iso_full : (time : ℕ) → (isoformat time == "") ≡ false) where
  pub lookup-nodes_to_dict :
      (d : Dict String MessageNode) (k : String) (n : MessageNode)
      → get d k ≡ some n
      → lookup (nodes_to_dict isoformat fromisoformat d) k
        ≡ some (object (node_to_dict isoformat fromisoformat n))
  unfolding lookup nodes_to_dict get
  lookup-nodes_to_dict [] k n e = absurd (ground (arith, e))
  lookup-nodes_to_dict ((j, m) ∷ d) k n e = elim (Bool-cases (j == k)) [
    | inl here ↦ let same : m ≡ n = ground (arith, e, here) in rw (here, same) refl
    | inr there ↦ rw there (lookup-nodes_to_dict d k n (ground (arith, e, there)))
  ]

  restore_node-restored :
      (now : ℕ) (root_id : String) (t : MessageTree) (k : String) (n : MessageNode)
      → restore_node isoformat fromisoformat now root_id t k
          (object (node_to_dict isoformat fromisoformat n))
        ≡ ok (write now root_id t k n)
  restore_node-restored now root_id t k n = elim (Bool-cases (k == root_id)) [
    | inl here ↦ rw here refl
    | inr there ↦
        rw (there, node_round_trip isoformat fromisoformat iso_inverse iso_full now n) refl
  ]

  pub restore_nodes-refill :
      (now : ℕ) (root_id : String) (t : MessageTree) (d : Dict String MessageNode)
      → restore_nodes isoformat fromisoformat now root_id t
          (nodes_to_dict isoformat fromisoformat d)
        ≡ ok (refill now root_id t d)
  unfolding restore_nodes nodes_to_dict refill
  restore_nodes-refill now root_id t [] = refl
  restore_nodes-refill now root_id t ((k, n) ∷ d) =
      rw (restore_node-restored now root_id t k n)
        (restore_nodes-refill now root_id (write now root_id t k n) d)

-- The entries stand under their ids.
abbrev pub IsKeyed : String → MessageNode → Type 0
IsKeyed k n = n.node_id ≡ k

write-get :
    (now : ℕ) (root_id : String) (t : MessageTree) (j : String) (n : MessageNode) (k : String)
    → n.node_id ≡ j
    → get (write now root_id t j n).nodes k ≡ (
        if j == root_id
        then get t.nodes k
        else if j == k
        then some (restored now n)
        else get t.nodes k)
write-get now root_id t j n k keyed = elim (Bool-cases (j == root_id)) [
  | inl here ↦ rw here refl
  | inr there ↦ rw there (get-put t.nodes n.node_id (restored now n) k ∙ rw keyed refl)
]

abbrev found_or : ℕ → Option MessageNode → Option MessageNode → Option MessageNode
found_or now none other = other
found_or now (some n) other = some (restored now n)

pub refill-get :
    (now : ℕ) (root_id : String) (t : MessageTree) (d : Dict String MessageNode) (k : String)
    → IsDict d
    → Each IsKeyed d
    → get (refill now root_id t d).nodes k
      ≡ (if k == root_id then get t.nodes k else found_or now (get d k) (get t.nodes k))
unfolding refill get
refill-get now root_id t [] k unique keyed = elim (Bool-cases (k == root_id)) [
  | inl here ↦ rw here refl
  | inr there ↦ rw there refl
]
refill-get now root_id t ((j, n) ∷ d) k unique keyed =
    let rest =
      refill-get now root_id (write now root_id t j n) d k (λ i. omega (arith, unique i)) keyed.1 in
    let wrote = write-get now root_id t j n k keyed.0 in
    elim (Bool-cases (k == root_id)) [
      | inl here ↦
          let kept : get (write now root_id t j n).nodes k ≡ get t.nodes k =
            ground (arith, wrote, here, eq_iff j root_id, eq_iff j k, eq_iff k root_id) in
          rest ∙ rw here kept
      | inr there ↦ elim (Bool-cases (j == k)) [
        | inl same ↦
            let new : get (write now root_id t j n).nodes k ≡ some (restored now n) =
              ground (arith, wrote, there, same, eq_iff j root_id, eq_iff j k, eq_iff k root_id) in
            let last : get d k ≡ none = key_absent d k (ground (arith, unique k, same)) in
            rest ∙ rw (there, same, last) new
        | inr differs ↦
            let kept : get (write now root_id t j n).nodes k ≡ get t.nodes k =
              ground (arith, wrote, differs) in
            rest ∙ rw (there, differs, kept) refl
      ]
    ]

-- What does not change: the root, and that nothing is queued or processed.
abbrev Rests : MessageTree → MessageTree → Type 0
Rests t r =
    (r.root_id ≡ t.root_id)
    × (r.queue ≡ t.queue)
    × (r.is_processing ≡ t.is_processing)
    × (r.current_node_id ≡ t.current_node_id)
    × (r.current_task ≡ t.current_task)

write-Rests :
    (now : ℕ) (root_id : String) (t : MessageTree) (k : String) (n : MessageNode)
    → Rests t (write now root_id t k n)
write-Rests now root_id t k n = elim (Bool-cases (k == root_id)) [
  | inl here ↦ rw here (refl, refl, refl, refl, refl)
  | inr there ↦ rw there (refl, refl, refl, refl, refl)
]

pub refill-Rests :
    (now : ℕ) (root_id : String) (t : MessageTree) (d : Dict String MessageNode)
    → Rests t (refill now root_id t d)
unfolding refill
refill-Rests now root_id t [] = (refl, refl, refl, refl, refl)
refill-Rests now root_id t ((k, n) ∷ d) =
    let (a, b, c, e, f) = refill-Rests now root_id (write now root_id t k n) d in
    let (a1, b1, c1, e1, f1) = write-Rests now root_id t k n in
    (a ∙ a1, b ∙ b1, c ∙ c1, e ∙ e1, f ∙ f1)

-- The status index of the saved tree finds an entry.
abbrev pub IsIndexed : Dict String String → String → MessageNode → Type 0
IsIndexed index k n = (n.node_id ≡ k) × (get index n.status_message_id ≡ some k)

abbrev pub Agrees : Dict String String → MessageTree → Type 0
Agrees index t = (s k : String) → get t.status_to_node s ≡ some k → get index s ≡ some k

write-status :
    (now : ℕ) (root_id : String) (t : MessageTree) (k : String) (n : MessageNode) (s : String)
    → get (write now root_id t k n).status_to_node s ≡ (
        if k == root_id
        then get t.status_to_node s
        else if n.status_message_id == s
        then some n.node_id
        else get t.status_to_node s)
write-status now root_id t k n s = elim (Bool-cases (k == root_id)) [
  | inl here ↦ rw here refl
  | inr there ↦ rw there (get-put t.status_to_node n.status_message_id n.node_id s)
]

pub refill-Agrees :
    (now : ℕ) (root_id : String) (t : MessageTree) (d : Dict String MessageNode)
    (index : Dict String String)
    → Each (IsIndexed index) d
    → Agrees index t
    → Agrees index (refill now root_id t d)
unfolding refill
refill-Agrees now root_id t [] index indexed a = a
refill-Agrees now root_id t ((k, n) ∷ d) index indexed a =
    refill-Agrees now root_id (write now root_id t k n) d index indexed.1 (λ s j e. ground (
      arith,
      e,
      write-status now root_id t k n s,
      indexed.0.0,
      indexed.0.1,
      a s j,
      eq_iff n.status_message_id s,
    ))

pub refill-has :
    (now : ℕ) (root_id : String) (t : MessageTree) (d : Dict String MessageNode) (s : String)
    → has t.status_to_node s ≡ true
    → has (refill now root_id t d).status_to_node s ≡ true
unfolding refill
refill-has now root_id t [] s h = h
refill-has now root_id t ((k, n) ∷ d) s h =
    refill-has now root_id (write now root_id t k n) d s
      (ground (arith, h, write-status now root_id t k n s))

-- The status message of each entry but the root is in the index.
pub refill-indexed :
    (now : ℕ) (root_id : String) (t : MessageTree) (d : Dict String MessageNode) (k : String)
    (n : MessageNode)
    → get d k ≡ some n
    → (k == root_id) ≡ false
    → has (refill now root_id t d).status_to_node n.status_message_id ≡ true
unfolding refill get
refill-indexed now root_id t [] k n e other = absurd (ground (arith, e))
refill-indexed now root_id t ((j, m) ∷ d) k n e other = elim (Bool-cases (j == k)) [
  | inl here ↦
      let same : m ≡ n = ground (arith, e, here) in
      let shifted : (j == root_id) ≡ false = ground (arith, here, other, eq_iff j k) in
      refill-has now root_id (write now root_id t j m) d n.status_message_id (
        ground (
          arith,
          write-status now root_id t j m n.status_message_id,
          shifted,
          ap (λ x. x.status_message_id) same,
          eq_iff m.status_message_id n.status_message_id,
        ))
  | inr there ↦
      refill-indexed now root_id (write now root_id t j m) d k n (ground (arith, e, there)) other
]
