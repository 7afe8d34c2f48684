-- ===== src/Sse/Think/Starts.antt =====
-- core/anthropic/thinking.py: where no tag starts, whatever text follows.
use bailian_free_claude_code.Base.{
  ℕ, zero, suc, ◌≤◌, ◌<◌, ◌≡◌, refl, sym, ap, ◌∙◌, ◌⊎◌, inl, inr, true, false, ◌&&◌, none, some, [],
  ◌∷◌, ◌++◌, arith, ltb, Bool-cases, Option-cases, ◌==◌, nat_eq, string_eq, length,
}
use bailian_free_claude_code.Base.{nat_beq_iff}
use mathlib.Core.Path.{subst}
use mathlib.Core.List.{append-nil, append_assoc}
use bailian_free_claude_code.Sse.Think.{Chars, take, drop, has_start, find, rfind}
use bailian_free_claude_code.Sse.Think.Searches.{take-drop}

-- The tag starts at no character of a text that another one follows.
abbrev pub Untouched : Chars → Chars → Chars → Type 0
Untouched tag [] t = Unit
Untouched tag (c ∷ s) t = (has_start (c ∷ (s ++ t)) tag ≡ false) × Untouched tag s t

-- A start in two texts lies in the first one, or reaches over its end.
start_cases :
    (s t tag : Chars)
    → has_start (s ++ t) tag ≡ true
    → (has_start s tag ≡ true) ⊎ ((length s < length tag) × (has_start tag s ≡ true))
unfolding has_start
start_cases [] t [] e = inl refl
start_cases [] t (c ∷ tag) e = inr (omega arith, refl)
start_cases (d ∷ s) t [] e = inl refl
start_cases (d ∷ s) t (c ∷ tag) e =
    let heads : (c == d) ≡ true = ground (arith, e) in
    let back : (d == c) ≡ true = ground (arith, heads, nat_beq_iff c d, nat_beq_iff d c) in
    elim (start_cases s t tag (ground (arith, e))) [
      | inl inside ↦ inl (ground (arith, heads, inside))
      | inr (short, prefix) ↦ inr (omega (arith, short), ground (arith, back, prefix))
    ]

start_none : (u s : Chars) (c : ℕ) → has_start u s ≡ true → rfind u c ≡ none → rfind s c ≡ none
unfolding has_start rfind
start_none u [] c e absent = refl
start_none [] (d ∷ s) c e absent = absurd (ground (arith, e))
start_none (b ∷ u) (d ∷ s) c e absent =
    let same : d ≡ b = (nat_beq_iff d b).0 (ground (arith, e)) in
    let later : rfind u c ≡ none = ground (arith, absent, Option-cases (rfind u c)) in
    let rest = start_none u s c (ground (arith, e)) later in
    ground (arith, rest, absent, later, same)

absent_drop : (n : ℕ) (s w : Chars) (c : ℕ) → rfind s c ≡ none → ¬ (drop n s ≡ c ∷ w)
unfolding rfind
absent_drop n [] w c e at = absurd (ground (arith, at))
absent_drop zero (d ∷ s) w c e at =
    let same : d ≡ c = ground (arith, at) in
    absurd (ground (arith, e, Option-cases (rfind s c), (nat_beq_iff d c).1 same))
absent_drop (suc n) (d ∷ s) w c e at =
    absent_drop n s w c (ground (arith, e, Option-cases (rfind s c))) at

-- The last place of a character.
pub rfind-drop : (s : Chars) (c n : ℕ) → rfind s c ≡ some n → (w : Chars) × (drop n s ≡ c ∷ w)
unfolding rfind
rfind-drop [] c n e = absurd (ground (arith, e))
rfind-drop (d ∷ s) c n e = elim (Option-cases (rfind s c)) [
  | inr (m, found) ↦ let at : n ≡ suc m = ground (arith, e, found) in rw at (rfind-drop s c m found)
  | inl nothing ↦
      let at : n ≡ 0 = ground (arith, e, nothing) in
      let same : d ≡ c = (nat_beq_iff d c).0 (ground (arith, e, nothing)) in
      rw at (s, ap (λ x. x ∷ s) same)
]

-- A tag is a bracket and a text without one.
module _ (bracket : ℕ) (u : Chars) (once : rfind u bracket ≡ none) where
  abbrev tag : Chars
  tag = bracket ∷ u

  -- Nothing starts where no bracket stands.
  pub no_bracket : (s t : Chars) → rfind s bracket ≡ none → Untouched tag s t
  unfolding rfind has_start
  no_bracket [] t e = tt
  no_bracket (d ∷ s) t e =
      let later : rfind s bracket ≡ none = ground (arith, e, Option-cases (rfind s bracket)) in
      (ground (arith, e, later, nat_beq_iff d bracket, nat_beq_iff bracket d), no_bracket s t later)

  -- A character before the place of a bracket.
  before :
      (d : ℕ) (s t w : Chars) (n : ℕ)
      → drop n s ≡ bracket ∷ w
      → has_start (d ∷ s) tag ≡ false
      → has_start (d ∷ (s ++ t)) tag ≡ false
  unfolding has_start
  before d s t w n at not_here = elim (Bool-cases (has_start (d ∷ (s ++ t)) tag)) [
    | inr none_there ↦ none_there
    | inl there ↦ elim (start_cases (d ∷ s) t tag there) [
      | inl here ↦ absurd (ground (arith, here, not_here))
      | inr (short, prefix) ↦
          absurd
            (absent_drop n s w bracket (start_none u s bracket (ground (arith, prefix)) once) at)
    ]
  ]

  find-later :
      (d : ℕ) (s part : Chars) (m : ℕ)
      → has_start (d ∷ s) part ≡ false
      → find s part ≡ some m
      → find (d ∷ s) part ≡ some (suc m)
  unfolding find
  find-later d s part m not_here e = ground (arith, not_here, e)

  find-here : (d : ℕ) (s part : Chars) → has_start (d ∷ s) part ≡ true → find (d ∷ s) part ≡ some 0
  unfolding find
  find-here d s part here = ground (arith, here)

  -- Nothing starts before a place where a bracket stands, if the tag is not found before it.
  pub up_to :
      (n : ℕ) (s t w : Chars)
      → drop n s ≡ bracket ∷ w
      → ((m : ℕ) → find s tag ≡ some m → n ≤ m)
      → Untouched tag (take n s) (drop n s ++ t)
  up_to n [] t w at late = tt
  up_to zero (d ∷ s) t w at late = tt
  up_to (suc n) (d ∷ s) t w at late =
      let not_here : has_start (d ∷ s) tag ≡ false = elim (Bool-cases (has_start (d ∷ s) tag)) [
        | inr none_here ↦ none_here
        | inl here ↦ absurd (omega (arith, late 0 (find-here d s tag here)))
      ] in
      let whole : take n s ++ (drop n s ++ t) ≡ s ++ t =
        sym (append_assoc (take n s) (drop n s) t) ∙ ap (λ x. x ++ t) (take-drop n s) in
      (
        subst (λ x. has_start (d ∷ x) tag ≡ false) (sym whole) (before d s t w n at not_here),
        up_to n s t w at (λ m e. omega (arith, late (suc m) (find-later d s tag m not_here e))),
      )

  -- Nothing starts in a text that does not end in the beginning of the tag.
  pub throughout :
      (n : ℕ) (s t : Chars)
      → rfind s bracket ≡ some n
      → find s tag ≡ none
      → (ltb (length (drop n s)) (length tag) && has_start tag (drop n s)) ≡ false
      → Untouched tag s t
  unfolding rfind find
  throughout n [] t e absent differs = tt
  throughout n (d ∷ s) t e absent differs = elim (Option-cases (rfind s bracket)) [
    | inr (m, found) ↦
        let at : n ≡ suc m = ground (arith, e, found) in
        let (w, place) = rfind-drop s bracket m found in
        (
          before d s t w m place (ground (arith, absent)),
          throughout m s t found (ground (arith, absent, Option-cases (find s tag))) (
              subst
                (λ k.
                  (ltb (length (drop k (d ∷ s))) (length tag) && has_start tag (drop k (d ∷ s)))
                  ≡ false)
                at differs),
        )
    | inl nothing ↦
        let at : n ≡ 0 = ground (arith, e, nothing) in
        let differs0 : (ltb (length (d ∷ s)) (length tag) && has_start tag (d ∷ s)) ≡ false =
          subst
            (λ k.
              (ltb (length (drop k (d ∷ s))) (length tag) && has_start tag (drop k (d ∷ s)))
              ≡ false)
            at differs in
        (at_end d s t (ground (arith, absent)) differs0, no_bracket s t nothing)
  ]
    where
      at_end :
          (d : ℕ) (s t : Chars)
          → has_start (d ∷ s) tag ≡ false
          → (ltb (length (d ∷ s)) (length tag) && has_start tag (d ∷ s)) ≡ false
          → has_start (d ∷ (s ++ t)) tag ≡ false
      at_end d s t not_here differs = elim (Bool-cases (has_start (d ∷ (s ++ t)) tag)) [
        | inr none_there ↦ none_there
        | inl there ↦ elim (start_cases (d ∷ s) t tag there) [
          | inl here ↦ absurd (ground (arith, here, not_here))
          | inr (short, prefix) ↦ absurd (ground (arith, short, prefix, differs))
        ]
      ]

-- A text in which the tag is not found, at its end.
pub nowhere : (s part : Chars) → find s part ≡ none → Untouched part s []
unfolding find
nowhere [] part e = tt
nowhere (d ∷ s) part e = (
  subst (λ x. has_start (d ∷ x) part ≡ false) (sym (append-nil s)) (ground (arith, e)),
  nowhere s part (ground (arith, e, Option-cases (find s part))),
)
