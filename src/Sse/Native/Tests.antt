-- ===== src/Sse/Native/Tests.antt =====
-- The policy for native events, and the tail after a failure in a stream, on small inputs.
use bailian_free_claude_code.Base.{
  String, ◌≡◌, refl, true, false, some, List, [], ◌∷◌, ◌++◌, map, nat_eq, string_eq, get, put, ok,
}
use bailian_free_claude_code.Sse.Json.{pos, int_eq, Json, end, SseEvent, lookup}
use bailian_free_claude_code.Sse.Strings.{strip}
use bailian_free_claude_code.Sse.Builder.{
  start_text, block_start, start_thinking, content_block_delta, delta_content, content_block_stop,
}
use bailian_free_claude_code.Sse.Contract.{
  Ledger, no_blocks, event_names, check_event, check_events, assert_anthropic_stream_contract,
  event_index, dict_at, text_at, open_block,
}
use bailian_free_claude_code.Sse.Tracker.{
  Tracker, new_tracker, observe_all, close_unclosed_blocks, midstream_error_tail,
}
use bailian_free_claude_code.Sse.Tracker.Tail.{midstream_tail_accepted}
use bailian_free_claude_code.Sse.Native.{new_policy, close_others, transform_all}
use bailian_free_claude_code.Sse.Native.Upstream.{
  a_text, a_thought, some_text, some_thought, UpstreamEvent, opens, sends, stops, render,
  is_fitting, is_separate, starts_last,
}
use bailian_free_claude_code.Sse.Native.Only.{OnlyOpen}
use bailian_free_claude_code.Sse.Native.Accepted.{native_accepted}

abbrev no_text : Json → String
no_text j = ""

-- Two blocks that overlap; the first one is stopped twice.
abbrev overlapping : List UpstreamEvent
overlapping =
    opens (pos 0) a_thought
    ∷ sends (pos 0) some_thought "hm"
    ∷ opens (pos 1) a_text
    ∷ sends (pos 1) some_text "a"
    ∷ sends (pos 0) some_thought "so"
    ∷ stops (pos 1)
    ∷ stops (pos 0)
    ∷ stops (pos 0)
    ∷ opens (pos 2) a_text
    ∷ []

overlapping_fits : is_fitting [] overlapping ≡ true
unfolding is_fitting get put
overlapping_fits = refl

overlapping_separate : is_separate [] overlapping ≡ true
unfolding is_separate get put
overlapping_separate = refl

overlapping_starts : starts_last true overlapping ≡ true
unfolding starts_last
overlapping_starts = refl

-- The late delta of the first block opens a third one.
overlapping_names :
    event_names (transform_all no_text true new_policy (map render overlapping)).1
    ≡ "content_block_start" ∷ "content_block_delta" ∷ "content_block_stop" ∷ "content_block_start"
      ∷ "content_block_delta" ∷ "content_block_start" ∷ "content_block_delta" ∷ "content_block_stop"
      ∷ "content_block_stop" ∷ "content_block_start" ∷ []
unfolding transform_all get put start_text start_thinking block_start content_block_delta
    content_block_stop delta_content lookup close_others
overlapping_names = refl

-- Without thinking only the text is left.
overlapping_names_quiet :
    event_names (transform_all no_text false new_policy (map render overlapping)).1
    ≡ "content_block_start" ∷ "content_block_delta" ∷ "content_block_stop" ∷ "content_block_start"
      ∷ []
unfolding transform_all get put start_text start_thinking block_start content_block_delta
    content_block_stop delta_content lookup close_others
overlapping_names_quiet = refl

-- At its end the only open block is that of the last start.
overlapping_only : OnlyOpen (native_accepted no_text true overlapping overlapping_fits).0
overlapping_only =
    (native_accepted no_text true overlapping overlapping_fits).2 overlapping_separate
      overlapping_starts

-- A stream that broke off within a text.
abbrev broken_off : List SseEvent
broken_off = record { event = "message_start"; data_fields = end } ∷ start_text (pos 0) ∷ []

abbrev one_text : Ledger
one_text = record { open_blocks = (pos 0, "text") ∷ []; seen_blocks = pos 0 ∷ [] }

broken_off_passes : check_events no_text true no_blocks broken_off ≡ ok one_text
unfolding check_events check_event start_text block_start event_index dict_at text_at open_block
    lookup strip get put
broken_off_passes = refl

midstream_tail_accepted_example :
    (t : Tracker) × (observe_all new_tracker broken_off ≡ ok t)
    × (assert_anthropic_stream_contract no_text true (
          broken_off
          ++ (close_unclosed_blocks t
              ++ midstream_error_tail t "msg_2" "glm" (some (pos 3)) "upstream broke"))
        ≡ ok tt)
midstream_tail_accepted_example =
    midstream_tail_accepted no_text broken_off one_text "msg_2" "glm" (some (pos 3))
      "upstream broke" broken_off_passes refl
