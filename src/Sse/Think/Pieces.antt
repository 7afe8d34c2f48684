-- ===== src/Sse/Think/Pieces.antt =====
-- core/anthropic/thinking.py: the pieces of a text.
use bailian_free_claude_code.Base.{
  Bool, true, false, Option, none, some, List, [], ◌∷◌, ◌++◌, nat_eq, string_eq,
}
use bailian_free_claude_code.Sse.Think.{
  Chars, open_tag, close_tag, ContentType, a_text, a_thought, ContentChunk,
}
use bailian_free_claude_code.Sse.Think.Held.{Clear}

-- A stretch of text or of a thought, or a tag that is taken out.
pub data Piece : Type 0 where
  shown : ContentType → Chars → Piece
  opened closed : Piece

abbrev pub written : Piece → Chars
written (shown content_type s) = s
written opened = open_tag
written closed = close_tag

abbrev pub written_all : List Piece → Chars
written_all [] = []
written_all (p ∷ ps) = written p ++ written_all ps

abbrev pub chunks_of : List Piece → List ContentChunk
chunks_of [] = []
chunks_of (shown content_type s ∷ ps) =
    record { content_type = content_type; content = s } ∷ chunks_of ps
chunks_of (opened ∷ ps) = chunks_of ps
chunks_of (closed ∷ ps) = chunks_of ps

-- The mode behind the pieces: text stands outside thoughts and thoughts within, an opening tag begins a
-- thought, and a closing tag ends it, or stands alone outside.
abbrev pub mode_after : Bool → List Piece → Option Bool
mode_after mode [] = some mode
mode_after false (shown a_text s ∷ ps) = mode_after false ps
mode_after false (shown a_thought s ∷ ps) = none
mode_after true (shown a_text s ∷ ps) = none
mode_after true (shown a_thought s ∷ ps) = mode_after true ps
mode_after false (opened ∷ ps) = mode_after true ps
mode_after true (opened ∷ ps) = none
mode_after mode (closed ∷ ps) = mode_after false ps

abbrev pub kind : Bool → ContentType
kind true = a_thought
kind false = a_text

abbrev pub opt_list : Option ContentChunk → List ContentChunk
opt_list none = []
opt_list (some c) = c ∷ []

abbrev pub piece_of : ContentType → Chars → List Piece
piece_of content_type [] = []
piece_of content_type (c ∷ s) = shown content_type (c ∷ s) ∷ []

-- Every tag is taken out: within a stretch that is shown no tag starts that its mode knows, in the
-- text of the pieces and what follows them.
abbrev pub Right : Bool → List Piece → Chars → Type 0
Right mode [] t = Unit
Right mode (shown content_type s ∷ ps) t = Clear mode s (written_all ps ++ t) × Right mode ps t
Right mode (opened ∷ ps) t = Right true ps t
Right mode (closed ∷ ps) t = Right false ps t

pub Right-piece_of :
    (mode : Bool) (content_type : ContentType) (s : Chars) (ps : List Piece) (t : Chars)
    → Clear mode s (written_all ps ++ t)
    → Right mode ps t
    → Right mode (piece_of content_type s ++ ps) t
Right-piece_of mode content_type [] ps t clear rest = rest
Right-piece_of mode content_type (c ∷ s) ps t clear rest = (clear, rest)
