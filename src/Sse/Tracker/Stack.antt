-- ===== src/Sse/Tracker/Stack.antt =====
-- core/anthropic/emitted_sse_tracker.py: how often an index stands on the stack of open blocks.
use bailian_free_claude_code.Base.{
  ◌+◌, ◌-◌, ◌≤◌, ◌≡◌, inl, inr, some, List, [], ◌∷◌, ◌++◌, arith, if◌then◌else◌, Bool-cases,
  Option-cases, ◌==◌, nat_eq, string_eq, count,
}
use bailian_free_claude_code.Sse.Json.{ℤ, int_eq, int_beq_iff}
use bailian_free_claude_code.Sse.Tracker.{last_of, drop_last, remove_first, close_index}

pub count_append : (xs ys : List ℤ) (i : ℤ) → count i (xs ++ ys) ≡ count i xs + count i ys
count_append [] ys i = omega arith
count_append (x ∷ xs) ys i = ground (arith, count_append xs ys i)

-- Removing an index takes one copy of it.
count-remove_first :
    (xs : List ℤ) (i j : ℤ)
    → count j (remove_first xs i) ≡ (if i == j then count j xs - 1 else count j xs)
unfolding remove_first
count-remove_first [] i j = ground arith
count-remove_first (x ∷ xs) i j =
    ground (arith, count-remove_first xs i j, int_beq_iff x i, int_beq_iff x j, int_beq_iff i j)

count-drop_last :
    (xs : List ℤ) (i j : ℤ)
    → last_of xs ≡ some i
    → count j (drop_last xs) ≡ (if i == j then count j xs - 1 else count j xs)
unfolding last_of drop_last
count-drop_last [] i j e = absurd (ground (arith, e))
count-drop_last (x ∷ []) i j e = ground (arith, e)
count-drop_last (x ∷ y ∷ ys) i j e =
    ground (
      arith,
      count-drop_last (y ∷ ys) i j e,
      in_last (y ∷ ys) i e,
      int_beq_iff x j,
      int_beq_iff i j,
    )
  where
    in_last : (zs : List ℤ) (k : ℤ) → last_of zs ≡ some k → 1 ≤ count k zs
    in_last [] k h = absurd (ground (arith, h))
    in_last (z ∷ []) k h = ground (arith, h, int_beq_iff z k)
    in_last (z ∷ w ∷ ws) k h = ground (arith, in_last (w ∷ ws) k h)

pub count-close_index :
    (xs : List ℤ) (i j : ℤ)
    → count j (close_index xs i) ≡ (if i == j then count j xs - 1 else count j xs)
unfolding close_index
count-close_index xs i j = elim (Option-cases (last_of xs)) [
  | inl empty ↦ rw (close_index, empty) (count-remove_first xs i j)
  | inr (top, there) ↦ elim (Bool-cases (top == i)) [
    | inl same ↦ ground (arith, there, same, count-drop_last xs top j there, int_beq_iff top i)
    | inr other ↦ ground (arith, there, other, count-remove_first xs i j)
  ]
]
