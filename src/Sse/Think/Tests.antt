-- ===== src/Sse/Think/Tests.antt =====
-- The parser of thinking tags on a stream that cuts a tag.
use bailian_free_claude_code.Base.{
  String, ◌≡◌, refl, false, some, List, [], ◌∷◌, ◌++◌, nat_eq, string_eq,
}
use bailian_free_claude_code.Sse.Think.{
  Chars, codes, ContentType, a_text, a_thought, ContentChunk, ThinkTagParser, new_parser, feed,
  flush,
}
use bailian_free_claude_code.Sse.Think.Pieces.{
  Piece, Right, mode_after, written_all, chunks_of, opt_list,
}
use bailian_free_claude_code.Sse.Think.Feed.{Ends, feed-Ends}
use bailian_free_claude_code.Sse.Think.Reads.{feed_all, joined, stream_reads}

abbrev cut_tags : List Chars
cut_tags = codes "hi <th" ∷ codes "ink>why</thi" ∷ codes "nk> so" ∷ []

abbrev chunk : ContentType → String → ContentChunk
chunk content_type s = record { content_type = content_type; content = codes s }

cut_tags_chunks :
    feed_all new_parser cut_tags
    ≡ some (
      record { buffer = []; in_think_tag = false },
      chunk a_text "hi " ∷ chunk a_thought "why" ∷ chunk a_text " so" ∷ [],
    )
unfolding feed_all
cut_tags_chunks = refl

stream_reads_example :
    (r : ThinkTagParser × List ContentChunk) × (feed_all new_parser cut_tags ≡ some r)
    × ((pieces : List Piece) × (mode_after false pieces ≡ some r.0.in_think_tag)
        × (written_all pieces ≡ joined cut_tags)
        × (chunks_of pieces ≡ r.1 ++ opt_list (flush r.0).1)
        × Right false pieces [])
stream_reads_example = stream_reads cut_tags

feed-Ends_example :
    (r : ThinkTagParser × List ContentChunk) × (feed new_parser (codes "hi <th") ≡ some r)
    × Ends false (codes "hi <th") r
feed-Ends_example = feed-Ends new_parser (codes "hi <th")
