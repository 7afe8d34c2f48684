-- ===== src/Trees/Descend/Reach.antt =====
-- messaging/trees/data.py: what `get_descendants` returns.
use bailian_free_claude_code.Base.{
  ℕ, zero, suc, String, ◌≡◌, refl, ap, ◌⊎◌, inl, inr, true, ◌||◌, Option, some, List, [], ◌∷◌, ◌++◌,
  arith, eq_iff, Bool-cases, Option-cases, ◌==◌, nat_eq, string_eq, contains, contains-append, Dict,
  has,
}
use mathlib.Core.List.{reverse, reverse_aux}
use mathlib.Core.Option
use bailian_free_claude_code.Trees.Node.{MessageNode}
use bailian_free_claude_code.Trees.Tree.{MessageTree}
use bailian_free_claude_code.Trees.Descend.{children_of, descend, get_descendants}

-- `x` stands in the branch of `root`: links from parents to children lead from `root` to `x`.
pub data Reaches (nodes : Dict String MessageNode) (x : String) : String → Type 0 where
  here : Reaches nodes x x
  step :
      {n c : String}
      → contains (children_of nodes n) c ≡ true
      → Reaches nodes x c
      → Reaches nodes x n

-- Some id of the stack leads to `x`.
abbrev Some : Dict String MessageNode → String → List String → Type 0
Some nodes x stack = (s : String) × (contains stack s ≡ true) × Reaches nodes x s

contains-reverse_aux :
    (xs ys : List String) (a : String)
    → contains (reverse_aux xs ys) a ≡ (contains xs a || contains ys a)
contains-reverse_aux [] ys a = refl
contains-reverse_aux (x ∷ xs) ys a = ground (arith, contains-reverse_aux xs (x ∷ ys) a)

-- What is on the stack once the children of a popped node are pushed.
pub contains-pushed :
    (children stack : List String) (a : String)
    → contains (reverse children ++ stack) a ≡ (contains children a || contains stack a)
contains-pushed children stack a =
    ground (arith, contains-append (reverse children) stack a, contains-reverse_aux children [] a)

Reaches-cases :
    {nodes : Dict String MessageNode} {x n : String}
    → Reaches nodes x n
    → (x ≡ n) ⊎ ((c : String) × (contains (children_of nodes n) c ≡ true) × Reaches nodes x c)
Reaches-cases here = inl refl
Reaches-cases (step {c = c} inside r) = inr (c, inside, r)

-- A round of the loop pops an id, which is the next of the result.
descend-cons :
    (nodes : Dict String MessageNode) (fuel : ℕ) (nid : String) (stack found : List String)
    → descend (suc fuel) nodes (nid ∷ stack) ≡ some found
    → (rest : List String) × (descend fuel nodes (reverse (children_of nodes nid) ++ stack)
        ≡ some rest)
      × (found ≡ nid ∷ rest)
unfolding descend
descend-cons nodes fuel nid stack found e =
    elim (Option-cases (descend fuel nodes (reverse (children_of nodes nid) ++ stack))) [
      | inl out ↦ absurd (ground (arith, out, e))
      | inr (rest, more) ↦ (rest, more, ground (arith, more, e))
    ]

descend_complete :
    (nodes : Dict String MessageNode) (fuel : ℕ) (stack found : List String) (x : String)
    → descend fuel nodes stack ≡ some found
    → Some nodes x stack
    → contains found x ≡ true
unfolding descend
descend_complete nodes zero stack found x e r = cc
descend_complete nodes (suc fuel) [] found x e (s, inside, r) = cc
descend_complete nodes (suc fuel) (nid ∷ stack) found x e (s, inside, r) =
    let (rest, more, shape) = descend-cons nodes fuel nid stack found e in
    let stack' : List String = reverse (children_of nodes nid) ++ stack in
    rw shape (elim (Bool-cases (nid == s)) [
      | inl top ↦
          let at_top : s ≡ nid = ground (arith, eq_iff nid s) in
          elim (Reaches-cases (rw at_top at r)) [
            | inl same ↦ ground (arith, eq_iff nid x, same)
            | inr (c, child, r') ↦ ground (
              arith,
              descend_complete nodes fuel stack' rest x more
                  (c, ground (arith, contains-pushed (children_of nodes nid) stack c), r'),
            )
          ]
      | inr below ↦ ground (
        arith,
        descend_complete nodes fuel stack' rest x more
            (s, ground (arith, contains-pushed (children_of nodes nid) stack s), r),
      )
    ])

descend_sound :
    (nodes : Dict String MessageNode) (fuel : ℕ) (stack found : List String) (x : String)
    → descend fuel nodes stack ≡ some found
    → contains found x ≡ true
    → Some nodes x stack
unfolding descend
descend_sound nodes zero stack found x e inside = absurd (ground (arith, e))
descend_sound nodes (suc fuel) [] found x e inside =
    absurd (ground (arith, ap (λ (o : Option (List String)). Option.map (λ l. contains l x) o) e))
descend_sound nodes (suc fuel) (nid ∷ stack) found x e inside =
    let (rest, more, shape) = descend-cons nodes fuel nid stack found e in
    let stack' : List String = reverse (children_of nodes nid) ++ stack in
    elim (Bool-cases (nid == x)) [
      | inl top ↦ (
        nid,
        ground (arith, eq_iff nid nid),
        (let same : nid ≡ x = (eq_iff nid x).0 top in rw same here),
      )
      | inr other ↦
          let (s, on_stack, r) =
            descend_sound nodes fuel stack' rest x more
              (ground (arith, ap (λ (l : List String). contains l x) shape)) in
          elim (Bool-cases (contains stack s)) [
            | inl old ↦ (s, ground (arith, old), r)
            | inr new ↦ (
              nid,
              ground (arith, eq_iff nid nid),
              step (ground (arith, contains-pushed (children_of nodes nid) stack s)) r,
            )
          ]
    ]

-- When `get_descendants` returns, for a node of the tree, its list holds exactly the ids to which
-- links from parents to children lead from that node, the node itself included.
pub get_descendants_exact :
    (fuel : ℕ) (t : MessageTree) (node_id : String) (found : List String) (x : String)
    → has t.nodes node_id ≡ true
    → get_descendants fuel t node_id ≡ some found
    → (contains found x ≡ true → Reaches t.nodes x node_id)
      × (Reaches t.nodes x node_id → contains found x ≡ true)
unfolding get_descendants
get_descendants_exact fuel t node_id found x there e =
    let run : descend fuel t.nodes (node_id ∷ []) ≡ some found = ground (arith, e, there) in
    (
      λ inside.
          let (s, on_stack, r) = descend_sound t.nodes fuel (node_id ∷ []) found x run inside in
          let same : s ≡ node_id = ground (arith, eq_iff node_id s) in rw same at r,
      λ r.
          descend_complete t.nodes fuel (node_id ∷ []) found x run
            (node_id, ground (arith, eq_iff node_id node_id), r),
    )
