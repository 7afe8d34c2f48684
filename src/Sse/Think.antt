-- ===== src/Sse/Think.antt =====
-- core/anthropic/thinking.py: `ThinkTagParser`. A text is the list of its code points. A generator's
-- chunks are a list, and its loop has fuel.
pub mod Searches
pub mod Starts
pub mod Held
pub mod Pieces
pub mod Passes
pub mod Joins
pub mod Feed
pub mod Reads
mod Tests
use bailian_free_claude_code.Base.{
  ℕ, zero, suc, ◌+◌, ◌-◌, ◌*◌, ◌^◌, ◌≤◌, ◌<◌, String, ◌≡◌, refl, sym, ap, ◌∙◌, ◌≢◌, ◌↔◌, ◌⊎◌, inl,
  inr, Bool, true, false, not, ◌&&◌, ◌||◌, Option, none, some, List, [], ◌∷◌, ◌++◌, map, arith,
  eq_iff, ltb, leb, if◌then◌else◌, leb→le, Bool-cases, Option-cases, Eq, ◌==◌, nat_eq, string_eq,
  beq_refl, length, All, filter_by, contains, count, contains-append, Dict, keys, values, is_some,
  get, put, remove, modify, has, get-put, get-put_self, get-remove, get-modify, keys-modify,
  get-nil, dict_laws, value_error, key_error, Outcome, ok, raised, ◌>>=◌, truthy,
}
use Prim.Native.Char.{Char, code}
use Prim.Native.String.{String as Text}

abbrev Chars : Type 0
Chars = List ℕ

abbrev codes : String → Chars
codes Text.[] = []
codes (Text.◌∷◌ c s) = code c ∷ codes s

abbrev open_tag : Chars
open_tag = codes "<think>"

abbrev close_tag : Chars
close_tag = codes "</think>"

-- `s[:n]` and `s[n:]`
abbrev take : ℕ → Chars → Chars
take n [] = []
take zero (c ∷ s) = []
take (suc n) (c ∷ s) = c ∷ take n s

abbrev drop : ℕ → Chars → Chars
drop n [] = []
drop zero (c ∷ s) = c ∷ s
drop (suc n) (c ∷ s) = drop n s

-- `s.startswith(start)`
pub has_start : Chars → Chars → Bool
has_start s [] = true
has_start [] (c ∷ start) = false
has_start (d ∷ s) (c ∷ start) = c == d && has_start s start

-- `s.find(part)` of a part that is not empty, and `s.rfind(c)`; `none` is -1.
pub find : Chars → Chars → Option ℕ
unfolding has_start
find [] part = none
find (d ∷ s) part =
    let later = find s part in
    if has_start (d ∷ s) part then some 0 else elim later [ none ↦ none | some n ↦ some (suc n) ]

pub rfind : Chars → ℕ → Option ℕ
rfind [] c = none
rfind (d ∷ s) c = elim (rfind s c) [
  | some n ↦ some (suc n)
  | none ↦ if d == c then some 0 else none
]

pub data ContentType : Type 0 where
  a_text a_thought : ContentType

pub record ContentChunk : Type 0 where
  pub content_type : ContentType
  pub content : Chars

pub record ThinkTagParser : Type 0 where
  pub buffer : Chars
  pub in_think_tag : Bool

abbrev new_parser : ThinkTagParser
new_parser = record { buffer = []; in_think_tag = false }

-- No chunk for an empty text.
abbrev chunk_of : ContentType → Chars → Option ContentChunk
chunk_of content_type [] = none
chunk_of content_type (c ∷ s) = some (record { content_type = content_type; content = c ∷ s })

-- The first tag outside a thought.
pub data NextTag : Type 0 where
  no_tag : NextTag
  orphan_at think_at : ℕ → NextTag

next_tag : Option ℕ → Option ℕ → NextTag
next_tag none none = no_tag
next_tag none (some think_start) = think_at think_start
next_tag (some orphan_close) none = orphan_at orphan_close
next_tag (some orphan_close) (some think_start) =
    if ltb orphan_close think_start then orphan_at orphan_close else think_at think_start

-- Where the end of the buffer may be the start of a tag.
pub held_outside : Chars → Option ℕ
unfolding rfind has_start
held_outside buffer = elim (rfind buffer 60) [
  | none ↦ none
  | some last_bracket ↦
      let potential_tag = drop last_bracket buffer in
      if (ltb (length potential_tag) (length open_tag) && has_start open_tag potential_tag)
        || (ltb (length potential_tag) (length close_tag) && has_start close_tag potential_tag)
      then some last_bracket
      else none
]

pub held_inside : Chars → Option ℕ
unfolding rfind has_start
held_inside buffer = elim (rfind buffer 60) [
  | none ↦ none
  | some last_bracket ↦
      if ltb (length buffer - last_bracket) (length close_tag)
        && has_start close_tag (drop last_bracket buffer)
      then some last_bracket
      else none
]

-- All that is not held back.
abbrev emit : ContentType → ThinkTagParser → Option ℕ → ThinkTagParser × Option ContentChunk
emit content_type p none = (record p { buffer = [] }, chunk_of content_type p.buffer)
emit content_type p (some n) =
    (record p { buffer = drop n p.buffer }, chunk_of content_type (take n p.buffer))

-- What stands before a tag, and the parser behind the tag, whose length is given.
abbrev cut : ContentType → ThinkTagParser → ℕ → ℕ → Bool → ThinkTagParser × Option ContentChunk
cut content_type p n width in_think_tag = (
  record { buffer = drop (n + width) p.buffer; in_think_tag = in_think_tag },
  chunk_of content_type (take n p.buffer),
)

parse_outside_think : ThinkTagParser → ThinkTagParser × Option ContentChunk
unfolding find next_tag held_outside
parse_outside_think p = elim (next_tag (find p.buffer close_tag) (find p.buffer open_tag)) [
  | orphan_at orphan_close ↦ cut a_text p orphan_close (length close_tag) p.in_think_tag
  | no_tag ↦ emit a_text p (held_outside p.buffer)
  | think_at think_start ↦ cut a_text p think_start (length open_tag) true
]

parse_inside_think : ThinkTagParser → ThinkTagParser × Option ContentChunk
unfolding find held_inside
parse_inside_think p = elim (find p.buffer close_tag) [
  | none ↦ emit a_thought p (held_inside p.buffer)
  | some think_end ↦ cut a_thought p think_end (length close_tag) false
]

-- One pass of the loop.
pub parse : ThinkTagParser → ThinkTagParser × Option ContentChunk
unfolding parse_outside_think parse_inside_think
parse p = if p.in_think_tag then parse_inside_think p else parse_outside_think p

abbrev pub is_empty : Chars → Bool
is_empty [] = true
is_empty (c ∷ s) = false

-- The loop of `feed`; `none` where the fuel does not do.
pub feed_loop : ℕ → ThinkTagParser → Option (ThinkTagParser × List ContentChunk)
unfolding parse
feed_loop zero p = none
feed_loop (suc fuel) p =
    let (p1, chunk) = parse p in
    let rest = feed_loop fuel p1 in
    if is_empty p.buffer then some (p, []) else elim chunk [
      | some c ↦ elim rest [ none ↦ none | some (p2, chunks) ↦ some (p2, c ∷ chunks) ]
      | none ↦ if length p1.buffer == length p.buffer then some (p1, []) else rest
    ]

pub feed : ThinkTagParser → Chars → Option (ThinkTagParser × List ContentChunk)
unfolding feed_loop
feed p content =
    let buffer = p.buffer ++ content in
    feed_loop (suc (length buffer)) (record p { buffer = buffer })

pub flush : ThinkTagParser → ThinkTagParser × Option ContentChunk
flush p =
    (record p { buffer = [] }, chunk_of (if p.in_think_tag then a_thought else a_text) p.buffer)
