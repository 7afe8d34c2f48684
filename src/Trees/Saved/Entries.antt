-- ===== src/Trees/Saved/Entries.antt =====
-- messaging/trees/data.py: the entries of a dict of nodes.
use bailian_free_claude_code.Base.{
  ◌≤◌, String, ◌≡◌, inl, inr, none, some, [], ◌∷◌, arith, eq_iff, Option-cases, nat_eq, string_eq,
  All, count, Dict, keys, get,
}
use bailian_free_claude_code.Trees.Node.{MessageNode}

-- No key stands twice, as in a `dict`.
abbrev pub IsDict : Dict String MessageNode → Type 0
IsDict d = (k : String) → count k (keys d) ≤ 1

abbrev pub Each {ℓ} : (String → MessageNode → Type ℓ) → Dict String MessageNode → Type ℓ
Each P d = All (λ e. P e.0 e.1) d

key_there :
    (d : Dict String MessageNode) (k : String) (n : MessageNode)
    → get d k ≡ some n
    → 1 ≤ count k (keys d)
unfolding get
key_there [] k n e = absurd (ground (arith, e))
key_there ((j, m) ∷ d) k n e = ground (arith, e, key_there d k n)

pub key_absent : (d : Dict String MessageNode) (k : String) → count k (keys d) ≡ 0 → get d k ≡ none
key_absent d k e = elim (Option-cases (get d k)) [
  | inl nothing ↦ nothing
  | inr (n, found) ↦ absurd (omega (arith, e, key_there d k n found))
]

-- A property of all entries that are found is one of all entries.
pub Each-found {ℓ} :
    (P : String → MessageNode → Type ℓ) (d : Dict String MessageNode)
    → IsDict d
    → ((k : String) (n : MessageNode) → get d k ≡ some n → P k n)
    → Each P d
unfolding get
Each-found P [] unique h = tt
Each-found P ((k, n) ∷ d) unique h = (
  h k n (ground (arith, eq_iff k k)),
  Each-found P d (λ j. omega (arith, unique j))
      (λ j m e. h j m (ground (arith, e, unique j, key_there d j m e, eq_iff k j))),
)
