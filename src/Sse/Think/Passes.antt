-- ===== src/Sse/Think/Passes.antt =====
-- core/anthropic/thinking.py: what one pass of the loop makes of the buffer.
use bailian_free_claude_code.Base.{
  ℕ, zero, suc, ◌+◌, ◌<◌, ◌≡◌, refl, ap, ◌∙◌, ◌⊎◌, inl, inr, Bool, true, false, Option, none, some,
  List, [], ◌∷◌, ◌++◌, arith, ltb, Bool-cases, Option-cases, nat_eq, string_eq, length,
}
use mathlib.Core.List.{append-nil, append_assoc}
use bailian_free_claude_code.Sse.Think.{
  Chars, codes, open_tag, close_tag, take, drop, find, ContentType, ContentChunk, ThinkTagParser,
  chunk_of, no_tag, orphan_at, think_at, next_tag, held_outside, held_inside, emit, cut,
  parse_outside_think, parse_inside_think, parse,
}
use mathlib.Core.Path.{subst}
use bailian_free_claude_code.Base.{◌≤◌, sym}
use bailian_free_claude_code.Sse.Think.Held.{
  Clear, Holds, held_inside-Holds, held_outside-Holds, first_inside, first_outside,
}
use bailian_free_claude_code.Sse.Think.Searches.{
  take-drop, length-drop, find-start, find-split, find-drop, Short, held_outside-Short,
  held_inside-Short,
}
use bailian_free_claude_code.Sse.Think.Pieces.{
  Piece, shown, opened, closed, written, written_all, chunks_of, mode_after, kind, opt_list,
  piece_of, Right, Right-piece_of,
}

-- One pass takes pieces from the front of the buffer and returns the chunk among them; it takes
-- something, or holds back a buffer that is short.
pub record Passed (p : ThinkTagParser) (r : ThinkTagParser × Option ContentChunk) : Type 0 where
  pub pieces : List Piece
  pub mode : mode_after p.in_think_tag pieces ≡ some r.0.in_think_tag
  pub whole : written_all pieces ++ r.0.buffer ≡ p.buffer
  pub chunks : chunks_of pieces ≡ opt_list r.1
  pub progress :
      (length r.0.buffer < length p.buffer)
      ⊎ ((r.1 ≡ none)
          × (length r.0.buffer ≡ length p.buffer)
          × (length r.0.buffer < 8)
          × Clear r.0.in_think_tag r.0.buffer [])
  pub right : (t : Chars) → Right p.in_think_tag pieces (r.0.buffer ++ t)

abbrev at : Bool → Chars → ThinkTagParser
at mode buffer = record { buffer = buffer; in_think_tag = mode }

mode_after-piece_of :
    (mode : Bool) (s : Chars) (ps : List Piece)
    → mode_after mode (piece_of (kind mode) s ++ ps) ≡ mode_after mode ps
mode_after-piece_of mode [] ps = refl
mode_after-piece_of true (c ∷ s) ps = refl
mode_after-piece_of false (c ∷ s) ps = refl

written_all-piece_of :
    (t : ContentType) (s : Chars) (ps : List Piece)
    → written_all (piece_of t s ++ ps) ≡ s ++ written_all ps
written_all-piece_of t [] ps = refl
written_all-piece_of t (c ∷ s) ps = refl

chunks_of-piece_of :
    (t : ContentType) (s : Chars) (ps : List Piece)
    → chunks_of (piece_of t s ++ ps) ≡ opt_list (chunk_of t s) ++ chunks_of ps
chunks_of-piece_of t [] ps = refl
chunks_of-piece_of t (c ∷ s) ps = refl

-- A cut at a tag.
module _ (mode : Bool) (s : Chars) (tag : Piece) (n : ℕ) (some_tag : 0 < length (written tag))
    (no_chunk : chunks_of (tag ∷ []) ≡ []) (mode1 : Bool)
    (turns : mode_after mode (tag ∷ []) ≡ some mode1) (found : find s (written tag) ≡ some n)
    (clear : (t : Chars) → Clear mode (take n s) (drop n s ++ t))
    (no_more : (t : Chars) → Right mode (tag ∷ []) t) where
  cut-Passed : Passed (at mode s) (cut (kind mode) (at mode s) n (length (written tag)) mode1)
  cut-Passed = record {
    pieces = piece_of (kind mode) (take n s) ++ tag ∷ [];
    mode = mode_after-piece_of mode (take n s) (tag ∷ []) ∙ turns;
    whole =
        ap (λ x. x ++ drop (n + length (written tag)) s)
          (written_all-piece_of (kind mode) (take n s) (tag ∷ []))
        ∙ (ap (λ x. (take n s ++ x) ++ drop (n + length (written tag)) s) (append-nil (written tag))
            ∙ (append_assoc (take n s) (written tag) (drop (n + length (written tag)) s)
                ∙ find-split s (written tag) n found));
    chunks =
        chunks_of-piece_of (kind mode) (take n s) (tag ∷ [])
        ∙ (ap (λ x. opt_list (chunk_of (kind mode) (take n s)) ++ x) no_chunk
            ∙ append-nil (opt_list (chunk_of (kind mode) (take n s))));
    progress = inl (
        omega (
          arith,
          length-drop (n + length (written tag)) s,
          some_tag,
          (find-start s (written tag) n found).0,
        ));
    right = λ t.
        let behind = drop (n + length (written tag)) s in
        Right-piece_of mode (kind mode) (take n s) (tag ∷ []) (behind ++ t)
          (subst (λ x. Clear mode (take n s) x)
            (ap (λ x. x ++ t) (sym (find-drop s (written tag) n found))
              ∙ (append_assoc (written tag) behind t
                  ∙ ap (λ x. x ++ (behind ++ t)) (sym (append-nil (written tag)))))
            (clear t))
          (no_more (behind ++ t));
  }

emit-Passed :
    (mode : Bool) (c : ℕ) (s : Chars) (held : Option ℕ)
    → Short (c ∷ s) held
    → Holds mode (c ∷ s) held
    → Passed (at mode (c ∷ s)) (emit (kind mode) (at mode (c ∷ s)) held)
emit-Passed mode c s none short h = record {
  pieces = shown (kind mode) (c ∷ s) ∷ [];
  mode = mode_after-piece_of mode (c ∷ s) [];
  whole = append-nil _ ∙ append-nil (c ∷ s);
  chunks = refl;
  progress = inl (omega arith);
  right = λ t. (h.whole refl t, tt);
}
emit-Passed mode c s (some zero) short h = record {
  pieces = [];
  mode = refl;
  whole = refl;
  chunks = refl;
  progress = inr (refl, refl, (short 0 refl).1, h.alone);
  right = λ t. tt;
}
emit-Passed mode c s (some (suc n)) short h = record {
  pieces = shown (kind mode) (c ∷ take n s) ∷ [];
  mode = mode_after-piece_of mode (c ∷ take n s) [];
  whole = ap (λ x. x ++ drop n s) (append-nil (c ∷ take n s)) ∙ ap (λ x. c ∷ x) (take-drop n s);
  chunks = refl;
  progress = inl (omega (arith, length-drop n s));
  right = λ t. (h.front (suc n) refl t, tt);
}

-- The first tag outside of a thought, and that it is the first.
NextTag-cases :
    (a b : Option ℕ)
    → ((next_tag a b ≡ no_tag) × (a ≡ none) × (b ≡ none))
      ⊎ (((n : ℕ) × (a ≡ some n) × (next_tag a b ≡ orphan_at n) × ((m : ℕ) → b ≡ some m → n ≤ m))
          ⊎ ((n : ℕ) × (b ≡ some n) × (next_tag a b ≡ think_at n) × ((m : ℕ) → a ≡ some m → n ≤ m)))
unfolding next_tag
NextTag-cases none none = inl (refl, refl, refl)
NextTag-cases none (some t) = inr (inr (t, refl, refl, λ m e. absurd (ground (arith, e))))
NextTag-cases (some o) none = inr (inl (o, refl, refl, λ m e. absurd (ground (arith, e))))
NextTag-cases (some o) (some t) = elim (Bool-cases (ltb o t)) [
  | inl first ↦ inr (inl (o, refl, rw first refl, λ m e. ground (arith, e, first)))
  | inr after ↦ inr (inr (t, refl, rw after refl, λ m e. ground (arith, e, after)))
]

-- A tag that is found begins with a bracket.
bracket_at : (s u : Chars) (n : ℕ) → find s (60 ∷ u) ≡ some n → (w : Chars) × (drop n s ≡ 60 ∷ w)
bracket_at s u n found = (u ++ drop (n + length (60 ∷ u)) s, sym (find-drop s (60 ∷ u) n found))

own_first : (s tag : Chars) (n : ℕ) → find s tag ≡ some n → (m : ℕ) → find s tag ≡ some m → n ≤ m
own_first s tag n found m e = ground (arith, e, found)

pub parse-Passed :
    (mode : Bool) (c : ℕ) (s : Chars) → Passed (at mode (c ∷ s)) (parse (at mode (c ∷ s)))
unfolding parse parse_outside_think parse_inside_think
parse-Passed true c s = elim (Option-cases (find (c ∷ s) close_tag)) [
  | inl nothing ↦
      rw (parse_inside_think, nothing)
        (emit-Passed true c s (held_inside (c ∷ s)) (held_inside-Short (c ∷ s))
          (held_inside-Holds (c ∷ s) nothing))
  | inr (n, found) ↦
      let (w, place) = bracket_at (c ∷ s) (codes "/think>") n found in
      rw (parse_inside_think, found)
        (cut-Passed true (c ∷ s) closed n (omega arith) refl false refl found
          (λ t. first_inside n (c ∷ s) t w found place) (λ t. tt))
]
parse-Passed false c s = elim (NextTag-cases (find (c ∷ s) close_tag) (find (c ∷ s) open_tag)) [
  | inl (nothing, no_close, no_open) ↦
      rw (parse_outside_think, nothing)
        (emit-Passed false c s (held_outside (c ∷ s)) (held_outside-Short (c ∷ s))
          (held_outside-Holds (c ∷ s) (no_open, no_close)))
  | inr (inl (n, found, orphan, first)) ↦
      let (w, place) = bracket_at (c ∷ s) (codes "/think>") n found in
      rw (parse_outside_think, orphan)
        (cut-Passed false (c ∷ s) closed n (omega arith) refl false refl found
          (λ t. first_outside n (c ∷ s) t w first (own_first (c ∷ s) close_tag n found) place)
          (λ t. tt))
  | inr (inr (n, found, thinks, first)) ↦
      let (w, place) = bracket_at (c ∷ s) (codes "think>") n found in
      rw (parse_outside_think, thinks)
        (cut-Passed false (c ∷ s) opened n (omega arith) refl true refl found
          (λ t. first_outside n (c ∷ s) t w (own_first (c ∷ s) open_tag n found) first place)
          (λ t. tt))
]
