-- ===== src/Keys.antt =====
-- The keys of a dict, none of which stands twice.
use bailian_free_claude_code.Base.{
  ℕ, suc, ◌≤◌, String, ◌≡◌, refl, Bool, false, [], ◌∷◌, arith, eq_iff, if◌then◌else◌, ◌==◌, nat_eq,
  string_eq, count, Dict, keys, get, put, remove, has,
}

abbrev pub once_if : Bool → ℕ
once_if b = if b then 1 else 0

-- No key stands twice.
abbrev pub IsUnique : {V : Type 0} → Dict String V → Type 0
IsUnique d = (k : String) → count k (keys d) ≤ 1

no_key : {V : Type 0} (d : Dict String V) (k : String) → has d k ≡ false → count k (keys d) ≡ 0
unfolding get
no_key [] k e = refl
no_key ((j, w) ∷ d) k e = ground (arith, e, no_key d k)

count_keys-put :
    {V : Type 0} (d : Dict String V) (k : String) (v : V) (i : String)
    → count i (keys (put d k v)) ≡ (
        if k == i
        then (if has d k then count i (keys d) else suc (count i (keys d)))
        else count i (keys d))
unfolding get put
count_keys-put [] k v i = ground arith
count_keys-put ((j, w) ∷ d) k v i =
    ground (arith, count_keys-put d k v i, eq_iff j k, eq_iff k i, eq_iff j i)

pub IsUnique-put :
    {V : Type 0} (d : Dict String V) (k : String) (v : V) → IsUnique d → IsUnique (put d k v)
IsUnique-put d k v u i = ground (arith, u i, count_keys-put d k v i, no_key d k, eq_iff k i)

keys-remove-le :
    {V : Type 0} (d : Dict String V) (k i : String) → count i (keys (remove d k)) ≤ count i (keys d)
unfolding remove
keys-remove-le [] k i = omega arith
keys-remove-le ((j, w) ∷ d) k i = ground (arith, keys-remove-le d k i)

pub IsUnique-remove :
    {V : Type 0} (d : Dict String V) (k : String) → IsUnique d → IsUnique (remove d k)
IsUnique-remove d k u i = omega (arith, u i, keys-remove-le d k i)

pub remove_absent :
    {V : Type 0} (d : Dict String V) (k : String) → count k (keys d) ≡ 0 → remove d k ≡ d
unfolding remove
remove_absent [] k e = refl
remove_absent ((j, w) ∷ d) k e = ground (arith, e, remove_absent d k)
