-- ===== src/Sse/Think/Feed.antt =====
-- core/anthropic/thinking.py: what `feed` makes of one text.
use bailian_free_claude_code.Base.{
  ℕ, zero, suc, ◌<◌, ◌≡◌, refl, sym, ap, ◌∙◌, inl, inr, Bool, true, false, Option, none, some, List,
  [], ◌∷◌, ◌++◌, arith, Option-cases, ◌==◌, nat_eq, string_eq, length,
}
use mathlib.Core.Path.{subst}
use bailian_free_claude_code.Base.{nat_beq_iff}
use mathlib.Core.List.{append-nil, append_assoc}
use bailian_free_claude_code.Sse.Think.{Chars, ContentChunk, ThinkTagParser, parse, feed_loop, feed}
use bailian_free_claude_code.Sse.Think.Held.{Clear}
use bailian_free_claude_code.Sse.Think.Passes.{parse-Passed}
use bailian_free_claude_code.Sse.Think.Joins.{
  Right-append, mode_after-append, written_all-append, chunks_of-append,
}
use bailian_free_claude_code.Sse.Think.Pieces.{
  Piece, Right, written_all, chunks_of, mode_after, opt_list,
}

-- Pieces that are read from a text in front of a buffer that is left.
pub record Reads (mode : Bool) (whole : Chars) (r : ThinkTagParser × List ContentChunk)
    : Type 0 where
  pub pieces : List Piece
  pub mode_right : mode_after mode pieces ≡ some r.0.in_think_tag
  pub nothing_lost : written_all pieces ++ r.0.buffer ≡ whole
  pub chunks_right : chunks_of pieces ≡ r.1
  pub tags_out : (t : Chars) → Right mode pieces (r.0.buffer ++ t)

-- Pieces in front of others.
pub Reads-append :
    (mode : Bool) (whole rest : Chars) (p1 p2 : ThinkTagParser)
    (chunks1 chunks2 : List ContentChunk)
    → Reads mode whole (p1, chunks1)
    → Reads p1.in_think_tag (p1.buffer ++ rest) (p2, chunks2)
    → Reads mode (whole ++ rest) (p2, chunks1 ++ chunks2)
Reads-append mode whole rest p1 p2 chunks1 chunks2 a b = record {
  pieces = a.pieces ++ b.pieces;
  mode_right = mode_after-append mode p1.in_think_tag a.pieces b.pieces a.mode_right ∙ b.mode_right;
  nothing_lost =
      ap (λ x. x ++ p2.buffer) (written_all-append a.pieces b.pieces)
      ∙ (append_assoc (written_all a.pieces) (written_all b.pieces) p2.buffer
          ∙ (ap (λ x. written_all a.pieces ++ x) b.nothing_lost
              ∙ (sym (append_assoc (written_all a.pieces) p1.buffer rest)
                  ∙ ap (λ x. x ++ rest) a.nothing_lost)));
  chunks_right =
      chunks_of-append a.pieces b.pieces
      ∙ (ap (λ x. x ++ chunks_of b.pieces) a.chunks_right ∙ ap (λ x. chunks1 ++ x) b.chunks_right);
  tags_out = λ t.
      let behind : p1.buffer ++ (rest ++ t) ≡ written_all b.pieces ++ (p2.buffer ++ t) =
        sym (append_assoc p1.buffer rest t)
        ∙ (ap (λ x. x ++ t) (sym b.nothing_lost)
            ∙ append_assoc (written_all b.pieces) p2.buffer t) in
      Right-append mode p1.in_think_tag a.pieces b.pieces (p2.buffer ++ t) a.mode_right
        (subst (λ x. Right mode a.pieces x) behind (a.tags_out (rest ++ t))) (b.tags_out t);
}

beq_less : (a b : ℕ) → a < b → (a == b) ≡ false
beq_less a b h = ground (arith, h, nat_beq_iff a b)

module _ (fuel : ℕ) (mode : Bool) (c : ℕ) (s : Chars) where
  abbrev pub here : ThinkTagParser
  here = record { buffer = c ∷ s; in_think_tag = mode }

  pub loop-chunk :
      (chunk : ContentChunk) (r : ThinkTagParser × List ContentChunk)
      → (parse here).1 ≡ some chunk
      → feed_loop fuel (parse here).0 ≡ some r
      → feed_loop (suc fuel) here ≡ some (r.0, chunk ∷ r.1)
  unfolding feed_loop
  loop-chunk chunk r e rest = rw (feed_loop, e, rest) refl

  pub loop-stop :
      (parse here).1 ≡ none
      → length (parse here).0.buffer ≡ suc (length s)
      → feed_loop (suc fuel) here ≡ some ((parse here).0, [])
  unfolding feed_loop
  loop-stop e same =
      let stays : (length (parse here).0.buffer == suc (length s)) ≡ true =
        (nat_beq_iff (length (parse here).0.buffer) (suc (length s))).1 same in
      rw (feed_loop, e, stays) refl

  pub loop-go :
      (r : ThinkTagParser × List ContentChunk)
      → (parse here).1 ≡ none
      → length (parse here).0.buffer < suc (length s)
      → feed_loop fuel (parse here).0 ≡ some r
      → feed_loop (suc fuel) here ≡ some r
  unfolding feed_loop
  loop-go r e less rest =
      let differs : (length (parse here).0.buffer == suc (length s)) ≡ false =
        beq_less (length (parse here).0.buffer) (suc (length s)) less in
      rw (feed_loop, e, differs) rest

-- The chunk of a pass, with the pieces that it is of.
pass-Reads :
    (mode : Bool) (c : ℕ) (s : Chars) (chunk : Option ContentChunk)
    → let p : ThinkTagParser = record { buffer = c ∷ s; in_think_tag = mode } in
      (parse p).1 ≡ chunk → Reads mode (c ∷ s) ((parse p).0, opt_list chunk)
pass-Reads mode c s chunk e =
    let w = parse-Passed mode c s in
    record {
      pieces = w.pieces;
      mode_right = w.mode;
      nothing_lost = w.whole;
      chunks_right = w.chunks ∙ ap opt_list e;
      tags_out = w.right;
    }

abbrev pub Ends : Bool → Chars → ThinkTagParser × List ContentChunk → Type 0
Ends mode whole r =
    Reads mode whole r × (length r.0.buffer < 8) × Clear r.0.in_think_tag r.0.buffer []

nothing-Clear : (mode : Bool) → Clear mode [] []
nothing-Clear true = tt
nothing-Clear false = (tt, tt)

feed_loop-Ends :
    (fuel : ℕ) (mode : Bool) (s : Chars)
    → length s < fuel
    → (r : ThinkTagParser × List ContentChunk) × (feed_loop fuel
          (record { buffer = s; in_think_tag = mode })
        ≡ some r)
      × Ends mode s r
unfolding feed_loop
feed_loop-Ends zero mode s enough = absurd (omega arith)
feed_loop-Ends (suc fuel) mode [] enough = (
  (record { buffer = []; in_think_tag = mode }, []),
  refl,
  (
    record {
      pieces = [];
      mode_right = refl;
      nothing_lost = refl;
      chunks_right = refl;
      tags_out = λ t. tt;
    },
    omega arith,
    nothing-Clear mode,
  ),
)
feed_loop-Ends (suc fuel) mode (c ∷ s) enough =
    let p : ThinkTagParser = record { buffer = c ∷ s; in_think_tag = mode } in
    let p1 = (parse p).0 in
    let w = parse-Passed mode c s in
    elim w.progress [
      | inr (no_chunk, same, short, alone) ↦ (
        (p1, []),
        loop-stop fuel mode c s no_chunk same,
        (pass-Reads mode c s none no_chunk, short, alone),
      )
      | inl less ↦
          let (r, rest, (reads, short, alone)) =
            feed_loop-Ends fuel p1.in_think_tag p1.buffer (omega (arith, less, enough)) in
          let reads1 : Reads p1.in_think_tag (p1.buffer ++ []) (r.0, r.1) =
            subst (λ x. Reads p1.in_think_tag x (r.0, r.1)) (sym (append-nil p1.buffer)) reads in
          let back = λ (chunk : Option ContentChunk) (e : (parse p).1 ≡ chunk).
            subst (λ x. Reads mode x (r.0, opt_list chunk ++ r.1)) (append-nil (c ∷ s))
              (Reads-append mode (c ∷ s) [] p1 r.0 (opt_list chunk) r.1
                (pass-Reads mode c s chunk e) reads1) in
          elim (Option-cases (parse p).1) [
            | inl no_chunk ↦
                (r, loop-go fuel mode c s r no_chunk less rest, (back none no_chunk, short, alone))
            | inr (chunk, e) ↦ (
              (r.0, chunk ∷ r.1),
              loop-chunk fuel mode c s chunk r e rest,
              (back (some chunk) e, short, alone),
            )
          ]
    ]

-- `feed` ends, whatever the parser's state: its chunks are stretches of text and of thoughts, in order
-- and between tags that are taken out, of what the buffer and the new content make together; a stretch
-- outside of a thought is text and one within a thought is a thought, by the tags read so far; no
-- tag that its mode knows starts within a stretch, whatever content follows; what is left over is kept
-- in the buffer, is fewer than 8 characters, and holds no tag.
pub feed-Ends :
    (p : ThinkTagParser) (content : Chars)
    → (r : ThinkTagParser × List ContentChunk) × (feed p content ≡ some r)
      × Ends p.in_think_tag (p.buffer ++ content) r
unfolding feed
feed-Ends p content =
    feed_loop-Ends (suc (length (p.buffer ++ content))) p.in_think_tag (p.buffer ++ content)
      (omega arith)
