-- ===== src/Sse/Think/Joins.antt =====
-- core/anthropic/thinking.py: pieces in front of others.
use bailian_free_claude_code.Base.{
  ◌≡◌, refl, sym, ap, ◌∙◌, Bool, true, false, some, List, [], ◌∷◌, ◌++◌, arith, nat_eq, string_eq,
}
use mathlib.Core.Path.{subst}
use mathlib.Core.List.{append_assoc}
use bailian_free_claude_code.Sse.Think.{Chars, a_text, a_thought}
use bailian_free_claude_code.Sse.Think.Held.{Clear}
use bailian_free_claude_code.Sse.Think.Pieces.{
  Piece, shown, opened, closed, Right, written, written_all, chunks_of, mode_after,
}

pub mode_after-append :
    (mode mode1 : Bool) (ps qs : List Piece)
    → mode_after mode ps ≡ some mode1
    → mode_after mode (ps ++ qs) ≡ mode_after mode1 qs
mode_after-append mode mode1 [] qs e = ap (λ m. mode_after m qs) (ground (arith, e))
mode_after-append false mode1 (shown a_text s ∷ ps) qs e = mode_after-append false mode1 ps qs e
mode_after-append false mode1 (shown a_thought s ∷ ps) qs e = absurd (ground (arith, e))
mode_after-append true mode1 (shown a_text s ∷ ps) qs e = absurd (ground (arith, e))
mode_after-append true mode1 (shown a_thought s ∷ ps) qs e = mode_after-append true mode1 ps qs e
mode_after-append false mode1 (opened ∷ ps) qs e = mode_after-append true mode1 ps qs e
mode_after-append true mode1 (opened ∷ ps) qs e = absurd (ground (arith, e))
mode_after-append true mode1 (closed ∷ ps) qs e = mode_after-append false mode1 ps qs e
mode_after-append false mode1 (closed ∷ ps) qs e = mode_after-append false mode1 ps qs e

pub written_all-append :
    (ps qs : List Piece) → written_all (ps ++ qs) ≡ written_all ps ++ written_all qs
written_all-append [] qs = refl
written_all-append (p ∷ ps) qs =
    ap (λ x. written p ++ x) (written_all-append ps qs)
    ∙ sym (append_assoc (written p) (written_all ps) (written_all qs))

pub chunks_of-append : (ps qs : List Piece) → chunks_of (ps ++ qs) ≡ chunks_of ps ++ chunks_of qs
chunks_of-append [] qs = refl
chunks_of-append (shown t s ∷ ps) qs =
    ap (λ x. record { content_type = t; content = s } ∷ x) (chunks_of-append ps qs)
chunks_of-append (opened ∷ ps) qs = chunks_of-append ps qs
chunks_of-append (closed ∷ ps) qs = chunks_of-append ps qs

the_mode : (a b : Bool) → some a ≡ some b → a ≡ b
the_mode a b e = ground (arith, e)

joined_text :
    (ps qs : List Piece) (t : Chars)
    → written_all ps ++ (written_all qs ++ t) ≡ written_all (ps ++ qs) ++ t
joined_text ps qs t =
    sym (append_assoc (written_all ps) (written_all qs) t)
    ∙ ap (λ x. x ++ t) (sym (written_all-append ps qs))

-- Pieces in front of others, in the text of both.
pub Right-append :
    (mode mode1 : Bool) (ps qs : List Piece) (t : Chars)
    → mode_after mode ps ≡ some mode1
    → Right mode ps (written_all qs ++ t)
    → Right mode1 qs t
    → Right mode (ps ++ qs) t
Right-append mode mode1 [] qs t e a b = subst (λ m. Right m qs t) (sym (the_mode mode mode1 e)) b
Right-append false mode1 (shown a_thought s ∷ ps) qs t e a b = absurd (ground (arith, e))
Right-append true mode1 (shown a_text s ∷ ps) qs t e a b = absurd (ground (arith, e))
Right-append false mode1 (shown a_text s ∷ ps) qs t e (clear, a) b = (
  subst (λ x. Clear false s x) (joined_text ps qs t) clear,
  Right-append false mode1 ps qs t e a b,
)
Right-append true mode1 (shown a_thought s ∷ ps) qs t e (clear, a) b =
    (subst (λ x. Clear true s x) (joined_text ps qs t) clear, Right-append true mode1 ps qs t e a b)
Right-append false mode1 (opened ∷ ps) qs t e a b = Right-append true mode1 ps qs t e a b
Right-append true mode1 (opened ∷ ps) qs t e a b = absurd (ground (arith, e))
Right-append false mode1 (closed ∷ ps) qs t e a b = Right-append false mode1 ps qs t e a b
Right-append true mode1 (closed ∷ ps) qs t e a b = Right-append false mode1 ps qs t e a b
