-- ===== src/Sse/Think/Reads.antt =====
-- core/anthropic/thinking.py: what `feed` and `flush` make of a stream of texts.
use bailian_free_claude_code.Base.{
  ◌≡◌, refl, sym, ap, ◌∙◌, Bool, true, false, Option, none, some, List, [], ◌∷◌, ◌++◌, nat_eq,
  string_eq,
}
use mathlib.Core.Path.{subst}
use mathlib.Core.List.{append-nil, append_assoc}
use bailian_free_claude_code.Sse.Think.{
  Chars, ContentType, ContentChunk, ThinkTagParser, new_parser, feed, flush,
}
use bailian_free_claude_code.Sse.Think.Held.{Clear}
use bailian_free_claude_code.Sse.Think.Pieces.{
  Piece, Right, written_all, chunks_of, mode_after, kind, opt_list, piece_of,
}
use bailian_free_claude_code.Sse.Think.Feed.{Reads, Reads-append, feed-Ends}
use bailian_free_claude_code.Sse.Think.Joins.{
  Right-append, mode_after-append, written_all-append, chunks_of-append,
}

-- The contents of a stream, one after the other, and what is flushed at its end.
unfoldable pub feed_all : ThinkTagParser → List Chars → Option (ThinkTagParser × List ContentChunk)
unfolding feed
feed_all p [] = some (p, [])
feed_all p (content ∷ contents) = elim (feed p content) [
  | none ↦ none
  | some (p1, chunks) ↦ elim (feed_all p1 contents) [
    | none ↦ none
    | some (p2, more) ↦ some (p2, chunks ++ more)
  ]
]

abbrev pub joined : List Chars → Chars
joined [] = []
joined (content ∷ contents) = content ++ joined contents

feed_all-Reads :
    (p : ThinkTagParser) (contents : List Chars)
    → Clear p.in_think_tag p.buffer []
    → (r : ThinkTagParser × List ContentChunk) × (feed_all p contents ≡ some r)
      × Reads p.in_think_tag (p.buffer ++ joined contents) r
      × Clear r.0.in_think_tag r.0.buffer []
unfolding feed_all
feed_all-Reads p [] alone = (
  (p, []),
  refl,
  record {
    pieces = [];
    mode_right = refl;
    nothing_lost = sym (append-nil p.buffer);
    chunks_right = refl;
    tags_out = λ t. tt;
  },
  alone,
)
feed_all-Reads p (content ∷ contents) alone =
    let (r1, fed, (reads1, short, alone1)) = feed-Ends p content in
    let (r2, fed2, reads2, alone2) = feed_all-Reads r1.0 contents alone1 in
    (
      (r2.0, r1.1 ++ r2.1),
      rw (feed_all, fed, fed2) refl,
      subst (λ x. Reads p.in_think_tag x (r2.0, r1.1 ++ r2.1))
          (append_assoc p.buffer content (joined contents))
          (Reads-append p.in_think_tag (p.buffer ++ content) (joined contents) r1.0 r2.0 r1.1 r2.1
            reads1 reads2),
      alone2,
    )

flush_mode : (mode : Bool) (s : Chars) → mode_after mode (piece_of (kind mode) s) ≡ some mode
flush_mode mode [] = refl
flush_mode true (c ∷ s) = refl
flush_mode false (c ∷ s) = refl

flush_written : (t : ContentType) (s : Chars) → written_all (piece_of t s) ≡ s
flush_written t [] = refl
flush_written t (c ∷ s) = append-nil (c ∷ s)

flush_chunks :
    (mode : Bool) (s : Chars)
    → chunks_of (piece_of (kind mode) s)
      ≡ opt_list (flush (record { buffer = s; in_think_tag = mode })).1
unfolding flush
flush_chunks mode [] = refl
flush_chunks true (c ∷ s) = refl
flush_chunks false (c ∷ s) = refl

flush-Right : (mode : Bool) (s : Chars) → Clear mode s [] → Right mode (piece_of (kind mode) s) []
flush-Right mode [] clear = tt
flush-Right mode (c ∷ s) clear = (clear, tt)

-- The whole stream, into which the provider's contents may cut the tags anywhere: the chunks of all
-- calls of `feed` and that of `flush` are the stretches between the tags of the contents together, of
-- which no character is lost and none is doubled, each with the type that the tags before it give. The
-- tags that are taken out are all there are: at no character of a stretch does a tag of the contents
-- together start, neither tag outside of a thought, and no closing tag within one.
pub stream_reads :
    (contents : List Chars)
    → (r : ThinkTagParser × List ContentChunk) × (feed_all new_parser contents ≡ some r)
      × ((pieces : List Piece) × (mode_after false pieces ≡ some r.0.in_think_tag)
          × (written_all pieces ≡ joined contents)
          × (chunks_of pieces ≡ r.1 ++ opt_list (flush r.0).1)
          × Right false pieces [])
unfolding flush
stream_reads contents =
    let (r, fed, reads, alone) = feed_all-Reads new_parser contents (tt, tt) in
    let p = r.0 in
    let rest = piece_of (kind p.in_think_tag) p.buffer in
    let left : p.buffer ++ [] ≡ written_all rest ++ [] =
      ap (λ x. x ++ []) (sym (flush_written (kind p.in_think_tag) p.buffer)) in
    (
      r,
      fed,
      (
        reads.pieces ++ rest,
        mode_after-append false p.in_think_tag reads.pieces rest reads.mode_right
            ∙ flush_mode p.in_think_tag p.buffer,
        written_all-append reads.pieces rest
            ∙ (ap (λ x. written_all reads.pieces ++ x)
                  (flush_written (kind p.in_think_tag) p.buffer)
                ∙ reads.nothing_lost),
        chunks_of-append reads.pieces rest
            ∙ (ap (λ x. x ++ chunks_of rest) reads.chunks_right
                ∙ ap (λ x. r.1 ++ x) (flush_chunks p.in_think_tag p.buffer)),
        Right-append false p.in_think_tag reads.pieces rest [] reads.mode_right
            (subst (λ x. Right false reads.pieces x) left (reads.tags_out []))
            (flush-Right p.in_think_tag p.buffer alone),
      ),
    )
