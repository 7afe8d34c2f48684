-- ===== src/Trees/Descend/Finish.antt =====
-- messaging/trees/data.py: the loop of `get_descendants` ends, since links never lead in a circle.
use bailian_free_claude_code.Base.{
  ℕ, zero, suc, ◌+◌, ◌≤◌, ◌<◌, String, ◌≡◌, inl, inr, true, some, List, [], ◌∷◌, ◌++◌, arith,
  eq_iff, Bool-cases, Option-cases, nat_eq, string_eq, contains, Dict, get, has,
}
use mathlib.Core.List.{reverse, append-nil}
use bailian_free_claude_code.Trees.Node.{MessageNode}
use bailian_free_claude_code.Trees.Tree.{MessageTree}
use bailian_free_claude_code.Trees.Tree.Shape.{IsWellFormed}
use bailian_free_claude_code.Trees.Descend.{children_of, descend, get_descendants}
use bailian_free_claude_code.Trees.Descend.Reach.{contains-pushed}

-- With this fuel or more, the loop returns the same list.
abbrev Finishes : Dict String MessageNode → List String → Type 0
Finishes nodes stack =
    (fuel : ℕ) × (found : List String) × ((more : ℕ)
      → descend (fuel + more) nodes stack ≡ some found)

-- Popping an id costs one round.
Finishes-cons :
    (nodes : Dict String MessageNode) (nid : String) (stack : List String)
    → Finishes nodes (reverse (children_of nodes nid) ++ stack)
    → Finishes nodes (nid ∷ stack)
unfolding descend
Finishes-cons nodes nid stack (fuel, found, runs) = (
  suc fuel,
  nid ∷ found,
  λ more. let e : suc fuel + more ≡ suc (fuel + more) = omega arith in rw e (rw (runs more)),
)

Finishes-append :
    (nodes : Dict String MessageNode) (children stack : List String)
    → ((c : String)
        → contains children c ≡ true
        → (rest : List String) → Finishes nodes rest
        → Finishes nodes (c ∷ rest))
    → Finishes nodes stack
    → Finishes nodes (children ++ stack)
Finishes-append nodes [] stack push f = f
Finishes-append nodes (c ∷ cs) stack push f =
    push c (ground (arith, eq_iff c c)) (cs ++ stack)
      (Finishes-append nodes cs stack (λ d inside. push d (ground arith)) f)

module _ (t : MessageTree) (w : IsWellFormed t) where
  children-rank :
      (nid c : String)
      → contains (reverse (children_of t.nodes nid)) c ≡ true
      → (w.rank nid < w.rank c) × (w.rank nid ≤ w.bound)
  unfolding children_of
  children-rank nid c inside =
      let listed = contains-pushed (children_of t.nodes nid) [] c in
      elim (Option-cases (get t.nodes nid)) [
        | inl e ↦ absurd (ground (arith, e, inside))
        | inr (n, e) ↦ (
          w.below nid n c e (ground (arith, e, listed, append-nil (reverse n.children_ids))),
          w.ranked nid n e,
        )
      ]

  -- By recursion on how far the rank is from the bound.
  push :
      (room : ℕ) (nid : String)
      → w.bound < w.rank nid + room
      → (rest : List String) → Finishes t.nodes rest
      → Finishes t.nodes (nid ∷ rest)
  push zero nid h rest f = Finishes-cons t.nodes nid rest (
      Finishes-append t.nodes (reverse (children_of t.nodes nid)) rest
        (λ c inside. absurd (omega (arith, children-rank nid c inside))) f)
  push (suc room) nid h rest f = Finishes-cons t.nodes nid rest (
      Finishes-append t.nodes (reverse (children_of t.nodes nid)) rest
        (λ c inside. push room c (omega (arith, children-rank nid c inside))) f)

descend-nil : (t : MessageTree) (more : ℕ) → descend (1 + more) t.nodes [] ≡ some []
unfolding descend
descend-nil t more = let e : 1 + more ≡ suc more = omega arith in rw e

-- In a well-formed tree `get_descendants` returns: from some fuel on, the result is always the same
-- list.
pub get_descendants_finishes :
    (t : MessageTree) (node_id : String)
    → IsWellFormed t
    → (fuel : ℕ) × (found : List String) × ((more : ℕ)
        → get_descendants (fuel + more) t node_id ≡ some found)
unfolding get_descendants
get_descendants_finishes t node_id w = elim (Bool-cases (has t.nodes node_id)) [
  | inl there ↦
      let (fuel, found, runs) =
        push t w (w.bound + 1) node_id (omega arith) [] (1, [], λ more. descend-nil t more) in
      (fuel, found, λ more. rw there (runs more))
  | inr absent ↦ (0, [], λ more. rw absent)
]
