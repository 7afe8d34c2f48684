-- ===== src/Sse/Think/Held.antt =====
-- core/anthropic/thinking.py: what the parser holds back is enough.
use bailian_free_claude_code.Base.{
  ℕ, ◌-◌, ◌≤◌, ◌≡◌, refl, sym, inl, inr, Bool, true, false, ◌||◌, ◌&&◌, Option, none, some, [], ◌∷◌,
  ◌++◌, arith, ltb, Bool-cases, Option-cases, nat_eq, string_eq, length,
}
use mathlib.Core.Path.{subst}
use bailian_free_claude_code.Sse.Think.{
  Chars, codes, open_tag, close_tag, take, drop, has_start, find, rfind, held_outside, held_inside,
}
use bailian_free_claude_code.Sse.Think.Searches.{length-drop}
use bailian_free_claude_code.Sse.Think.Starts.{
  Untouched, no_bracket, up_to, throughout, nowhere, rfind-drop,
}

-- No tag that the mode knows starts in a text that another one follows.
abbrev pub Clear : Bool → Chars → Chars → Type 0
Clear true s t = Untouched close_tag s t
Clear false s t = Untouched open_tag s t × Untouched close_tag s t

abbrev NoTag : Bool → Chars → Type 0
NoTag true s = find s close_tag ≡ none
NoTag false s = (find s open_tag ≡ none) × (find s close_tag ≡ none)

-- What is shown of a buffer without a tag is clear, whatever follows the buffer.
pub record Holds (mode : Bool) (s : Chars) (held : Option ℕ) : Type 0 where
  pub whole : held ≡ none → (t : Chars) → Clear mode s t
  pub front : (n : ℕ) → held ≡ some n → (t : Chars) → Clear mode (take n s) (drop n s ++ t)
  pub alone : Clear mode s []

abbrev is_begun : Chars → Chars → Bool
is_begun tag s = ltb (length s) (length tag) && has_start tag s

open_once : rfind (codes "think>") 60 ≡ none
unfolding rfind
open_once = refl

close_once : rfind (codes "/think>") 60 ≡ none
unfolding rfind
close_once = refl

module _ (s t : Chars) where
  open_front :
      (n : ℕ)
      → find s open_tag ≡ none
      → rfind s 60 ≡ some n
      → Untouched open_tag (take n s) (drop n s ++ t)
  open_front n absent found =
      let (w, place) = rfind-drop s 60 n found in
      up_to 60 (codes "think>") open_once n s t w place (λ m e. absurd (ground (arith, e, absent)))

  close_front :
      (n : ℕ)
      → find s close_tag ≡ none
      → rfind s 60 ≡ some n
      → Untouched close_tag (take n s) (drop n s ++ t)
  close_front n absent found =
      let (w, place) = rfind-drop s 60 n found in
      up_to 60 (codes "/think>") close_once n s t w place
        (λ m e. absurd (ground (arith, e, absent)))

pub held_inside-Holds : (s : Chars) → NoTag true s → Holds true s (held_inside s)
unfolding held_inside
held_inside-Holds s absent = elim (Option-cases (rfind s 60)) [
  | inl nothing ↦
      rw (held_inside, nothing)
        (record {
          whole = λ e t. no_bracket 60 (codes "/think>") close_once s t nothing;
          front = λ n e. absurd (ground (arith, e));
          alone = nowhere s close_tag absent;
        })
  | inr (m, found) ↦
      let test = ltb (length s - m) (length close_tag) && has_start close_tag (drop m s) in
      elim (Bool-cases test) [
        | inl begun ↦
            rw (held_inside, found, begun)
              (record {
                whole = λ e. absurd (ground (arith, e));
                front = λ n e t.
                    let same : m ≡ n = ground (arith, e) in
                    rw (sym same) (close_front s t m absent found);
                alone = nowhere s close_tag absent;
              })
        | inr differs ↦
            rw (held_inside, found, differs)
              (record {
                whole = λ e t. throughout 60 (codes "/think>") close_once m s t found absent (
                    subst (λ k. (ltb k 8 && has_start close_tag (drop m s)) ≡ false)
                      (sym (length-drop m s)) differs);
                front = λ n e. absurd (ground (arith, e));
                alone = nowhere s close_tag absent;
              })
      ]
]

pub held_outside-Holds : (s : Chars) → NoTag false s → Holds false s (held_outside s)
unfolding held_outside
held_outside-Holds s (no_open, no_close) =
    let alone : Clear false s [] = (nowhere s open_tag no_open, nowhere s close_tag no_close) in
    elim (Option-cases (rfind s 60)) [
      | inl nothing ↦
          rw (held_outside, nothing)
            (record {
              whole = λ e t. (
                no_bracket 60 (codes "think>") open_once s t nothing,
                no_bracket 60 (codes "/think>") close_once s t nothing,
              );
              front = λ n e. absurd (ground (arith, e));
              alone = alone;
            })
      | inr (m, found) ↦
          let rest = drop m s in
          elim (Bool-cases (is_begun open_tag rest || is_begun close_tag rest)) [
            | inl begun ↦
                rw (held_outside, found, begun)
                  (record {
                    whole = λ e. absurd (ground (arith, e));
                    front = λ n e t.
                        let same : m ≡ n = ground (arith, e) in
                        rw (sym same)
                          (open_front s t m no_open found, close_front s t m no_close found);
                    alone = alone;
                  })
            | inr differs ↦
                rw (held_outside, found, differs)
                  (record {
                    whole = λ e t. (
                      throughout 60 (codes "think>") open_once m s t found no_open
                          (ground (arith, differs)),
                      throughout 60 (codes "/think>") close_once m s t found no_close
                          (ground (arith, differs)),
                    );
                    front = λ n e. absurd (ground (arith, e));
                    alone = alone;
                  })
          ]
    ]

-- Before the first tag that is found nothing starts: `late` says that it is the first.
pub first_inside :
    (n : ℕ) (s t w : Chars)
    → find s close_tag ≡ some n
    → drop n s ≡ 60 ∷ w
    → Clear true (take n s) (drop n s ++ t)
first_inside n s t w found place =
    up_to 60 (codes "/think>") close_once n s t w place (λ m e. omega (arith, at m e))
  where
    at : (m : ℕ) → find s close_tag ≡ some m → n ≡ m
    at m e = ground (arith, e, found)

pub first_outside :
    (n : ℕ) (s t w : Chars)
    → ((m : ℕ) → find s open_tag ≡ some m → n ≤ m)
    → ((m : ℕ) → find s close_tag ≡ some m → n ≤ m)
    → drop n s ≡ 60 ∷ w
    → Clear false (take n s) (drop n s ++ t)
first_outside n s t w open_late close_late place = (
  up_to 60 (codes "think>") open_once n s t w place open_late,
  up_to 60 (codes "/think>") close_once n s t w place close_late,
)
