-- ===== src/Sse/Think/Searches.antt =====
-- core/anthropic/thinking.py: where the parser finds tags, and what it holds back.
use bailian_free_claude_code.Base.{
  ℕ, zero, suc, ◌+◌, ◌-◌, ◌<◌, ◌≡◌, refl, sym, ap, ◌∙◌, inl, inr, true, Option, some, [], ◌∷◌, ◌++◌,
  arith, Bool-cases, Option-cases, nat_eq, string_eq, length,
}
use bailian_free_claude_code.Base.{nat_beq_iff}
use bailian_free_claude_code.Sse.Think.{
  Chars, take, drop, has_start, find, rfind, held_outside, held_inside,
}

pub take-drop : (n : ℕ) (s : Chars) → take n s ++ drop n s ≡ s
take-drop n [] = refl
take-drop zero (c ∷ s) = refl
take-drop (suc n) (c ∷ s) = ap (λ x. c ∷ x) (take-drop n s)

pub length-drop : (n : ℕ) (s : Chars) → length (drop n s) ≡ length s - n
length-drop n [] = omega arith
length-drop zero (c ∷ s) = omega arith
length-drop (suc n) (c ∷ s) = omega (arith, length-drop n s)

drop-drop : (n m : ℕ) (s : Chars) → drop (n + m) s ≡ drop m (drop n s)
drop-drop n m [] = refl
drop-drop zero m (c ∷ s) = let same : 0 + m ≡ m = omega arith in ap (λ x. drop x (c ∷ s)) same
drop-drop (suc n) m (c ∷ s) =
    let same : suc n + m ≡ suc (n + m) = omega arith in
    ap (λ x. drop x (c ∷ s)) same ∙ drop-drop n m s

has_start-split : (s start : Chars) → has_start s start ≡ true → start ++ drop (length start) s ≡ s
unfolding has_start
has_start-split [] [] e = refl
has_start-split (d ∷ s) [] e = refl
has_start-split [] (c ∷ start) e = absurd (ground (arith, e))
has_start-split (d ∷ s) (c ∷ start) e =
    let same : c ≡ d = (nat_beq_iff c d).0 (ground (arith, e)) in
    let rest = has_start-split s start (ground (arith, e)) in cc (same, rest)

pub find-start :
    (s part : Chars) (n : ℕ)
    → find s part ≡ some n
    → (n < length s) × (has_start (drop n s) part ≡ true)
unfolding find
find-start [] part n e = absurd (ground (arith, e))
find-start (d ∷ s) part n e = elim (Bool-cases (has_start (d ∷ s) part)) [
  | inl here ↦ let at : n ≡ 0 = ground (arith, e, here) in rw at (omega arith, here)
  | inr later ↦ elim (Option-cases (find s part)) [
    | inl nothing ↦ absurd (ground (arith, e, later, nothing))
    | inr (m, found) ↦
        let at : n ≡ suc m = ground (arith, e, later, found) in
        let (below, starts) = find-start s part m found in rw at (omega (arith, below), starts)
  ]
]

pub find-drop :
    (s part : Chars) (n : ℕ) → find s part ≡ some n → part ++ drop (n + length part) s ≡ drop n s
find-drop s part n e =
    ap (λ x. part ++ x) (drop-drop n (length part) s)
    ∙ has_start-split (drop n s) part (find-start s part n e).1

pub find-split :
    (s part : Chars) (n : ℕ)
    → find s part ≡ some n
    → take n s ++ (part ++ drop (n + length part) s) ≡ s
find-split s part n e =
    ap (λ x. take n s ++ (part ++ x)) (drop-drop n (length part) s)
    ∙ (ap (λ x. take n s ++ x) (has_start-split (drop n s) part (find-start s part n e).1)
        ∙ take-drop n s)

rfind-lt : (s : Chars) (c n : ℕ) → rfind s c ≡ some n → n < length s
unfolding rfind
rfind-lt [] c n e = absurd (ground (arith, e))
rfind-lt (d ∷ s) c n e = elim (Option-cases (rfind s c)) [
  | inl nothing ↦ ground (arith, e, nothing)
  | inr (m, found) ↦ ground (arith, e, found, rfind-lt s c m found)
]

-- What is held back is shorter than the closing tag.
abbrev pub Short : Chars → Option ℕ → Type 0
Short s held = (n : ℕ) → held ≡ some n → (n < length s) × (length (drop n s) < 8)

pub held_outside-Short : (s : Chars) → Short s (held_outside s)
unfolding held_outside
held_outside-Short s n e = elim (Option-cases (rfind s 60)) [
  | inl nothing ↦ absurd (ground (arith, e, nothing))
  | inr (m, found) ↦
      let below = rfind-lt s 60 m found in
      let same : m ≡ n = ground (arith, e, found) in
      (rw (sym same) below, ground (arith, e, found, same))
]

pub held_inside-Short : (s : Chars) → Short s (held_inside s)
unfolding held_inside
held_inside-Short s n e = elim (Option-cases (rfind s 60)) [
  | inl nothing ↦ absurd (ground (arith, e, nothing))
  | inr (m, found) ↦
      let below = rfind-lt s 60 m found in
      let same : m ≡ n = ground (arith, e, found) in
      (rw (sym same) below, ground (arith, e, found, same, length-drop n s))
]
