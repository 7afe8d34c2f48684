-- ===== src/Base/Dicts.antt =====
-- Python's `dict`: an association list in insertion order. Writing an old key keeps its place,
-- a new key goes to the end, and `d.pop(k, None)` drops the key.
use mathlib.Core.Path.{◌≡◌, refl}
use mathlib.Core.Bool.{Bool, true, false}
use mathlib.Core.Option
use mathlib.Core.Option.{Option, none, some}
use mathlib.Core.List.{List, [], ◌∷◌}
use native.Mathlib.Omega.{arith}
use bailian_free_claude_code.Base.Tests.{if◌then◌else◌}
use bailian_free_claude_code.Base.Equality.{Eq, ◌==◌, beq_refl}

abbrev pub Dict {ℓ κ} : Type ℓ → Type κ → Type (ℓ ⊔ κ)
Dict K V = List (K × V)

abbrev pub keys {ℓ κ} : {K : Type ℓ} {V : Type κ} → Dict K V → List K
keys [] = []
keys ((k, v) ∷ d) = k ∷ keys d

abbrev pub values {ℓ κ} : {K : Type ℓ} {V : Type κ} → Dict K V → List V
values [] = []
values ((k, v) ∷ d) = v ∷ values d

abbrev pub is_some {ℓ} : {A : Type ℓ} → Option A → Bool
is_some none = false
is_some (some a) = true

module _ {ℓ κ} {K : Type ℓ} {V : Type κ} ⦃e : Eq K⦄ where
  -- `d.get(k)`
  unfoldable pub get : Dict K V → K → Option V
  get [] k = none
  get ((j, v) ∷ d) k = if j == k then some v else get d k

  -- `d[k] = v`
  unfoldable pub put : Dict K V → K → V → Dict K V
  put [] k v = (k, v) ∷ []
  put ((j, w) ∷ d) k v = if j == k then (j, v) ∷ d else (j, w) ∷ put d k v

  -- `d.pop(k, None)`
  unfoldable pub remove : Dict K V → K → Dict K V
  remove [] k = []
  remove ((j, w) ∷ d) k = let rest = remove d k in if j == k then rest else (j, w) ∷ rest

  -- Assignment to fields of the object that `d[k]` refers to.
  unfoldable pub modify : Dict K V → K → (V → V) → Dict K V
  modify [] k f = []
  modify ((j, w) ∷ d) k f = let rest = modify d k f in (j, if j == k then f w else w) ∷ rest

  -- `k in d`
  abbrev pub has : Dict K V → K → Bool
  has d k = is_some (get d k)

  pub get-put :
      (d : Dict K V) (k : K) (v : V) (j : K)
      → get (put d k v) j ≡ (if k == j then some v else get d j)
  unfolding get put
  get-put [] k v j = refl
  get-put ((i, w) ∷ d) k v j =
      ground (arith, e.beq_iff k j, e.beq_iff i k, e.beq_iff i j, get-put d k v j)

  pub get-put_self : (d : Dict K V) (k : K) (v : V) → get (put d k v) k ≡ some v
  get-put_self d k v = simp (get-put, beq_refl k)

  pub get-remove :
      (d : Dict K V) (k j : K) → get (remove d k) j ≡ (if k == j then none else get d j)
  unfolding get remove
  get-remove [] k j = ground arith
  get-remove ((i, w) ∷ d) k j =
      ground (arith, e.beq_iff k j, e.beq_iff i k, e.beq_iff i j, get-remove d k j)

  pub get-modify :
      (d : Dict K V) (k : K) (f : V → V) (j : K)
      → get (modify d k f) j ≡ (if k == j then Option.map f (get d j) else get d j)
  unfolding get modify
  get-modify [] k f j = ground arith
  get-modify ((i, w) ∷ d) k f j =
      ground (arith, e.beq_iff k j, e.beq_iff i k, e.beq_iff i j, get-modify d k f j)

  pub keys-modify : (d : Dict K V) (k : K) (f : V → V) → keys (modify d k f) ≡ keys d
  unfolding modify
  keys-modify [] k f = refl
  keys-modify ((i, w) ∷ d) k f = cc (keys-modify d k f)

  pub get-nil : (k : K) → get [] k ≡ none
  unfolding get
  get-nil k = refl

pub ruleset dict_laws = (get-nil, get-put, get-remove, get-modify)
