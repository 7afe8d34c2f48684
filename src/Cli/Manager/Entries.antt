-- ===== src/Cli/Manager/Entries.antt =====
-- cli/manager.py: how often a session stands among the entries of a map.
use bailian_free_claude_code.Keys.{once_if, IsUnique, remove_absent}
use bailian_free_claude_code.Base.{
  ℕ, ◌+◌, String, ◌≡◌, ap, inl, inr, false, some, List, [], ◌∷◌, ◌++◌, arith, Bool-cases, ◌==◌,
  nat_eq, string_eq, count, Dict, values, get, put, remove, has,
}

pub count-put :
    (d : Dict String ℕ) (k : String) (v n : ℕ)
    → has d k ≡ false
    → count n (values (put d k v)) ≡ count n (values d) + once_if (v == n)
unfolding get put
count-put [] k v n e = omega arith
count-put ((j, w) ∷ d) k v n e = ground (arith, e, count-put d k v n)

pub count-remove :
    (d : Dict String ℕ) (k : String) (v n : ℕ)
    → IsUnique d
    → get d k ≡ some v
    → count n (values d) ≡ count n (values (remove d k)) + once_if (v == n)
unfolding get remove
count-remove [] k v n u e = absurd (ground (arith, e))
count-remove ((j, w) ∷ d) k v n u e = elim (Bool-cases (j == k)) [
  | inl here ↦
      let absent = remove_absent d k (ground (arith, u k, here)) in
      ground (arith, e, here, ap (λ x. count n (values x)) absent)
  | inr there ↦
      let more = count-remove d k v n (λ i. omega (arith, u i)) (ground (arith, e, there)) in
      ground (arith, there, more)
]

pub count-append : (n : ℕ) (xs ys : List ℕ) → count n (xs ++ ys) ≡ count n xs + count n ys
count-append n [] ys = omega arith
count-append n (x ∷ xs) ys = omega (arith, count-append n xs ys)
