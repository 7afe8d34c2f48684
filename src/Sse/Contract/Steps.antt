-- ===== src/Sse/Contract/Steps.antt =====
-- core/anthropic/stream_contracts.py: what the loop does on each event of the builder.
use bailian_free_claude_code.Base.{
  String, ◌≡◌, refl, true, false, Option, some, ◌∷◌, arith, nat_eq, string_eq, contains, get, put,
  remove, has, ok,
}
use bailian_free_claude_code.Sse.Json.{ℤ, int_eq, Json, lookup}
use bailian_free_claude_code.Sse.Builder.{
  SseBuilder, start_thinking, start_text, start_tool_use, block_start, content_block_delta,
  delta_content, content_block_stop, message_start, message_delta, message_stop,
  emit_top_level_error,
}
use bailian_free_claude_code.Sse.Strings.{strip}
use bailian_free_claude_code.Sse.Contract.{
  Ledger, event_index, dict_at, text_at, open_block, check_delta, check_delta_type, close_block,
  check_event,
}

module _ (show : Json → String) (l : Ledger) (index : ℤ) where
  -- The ledger once a block of this kind is started.
  abbrev pub opened : String → Ledger
  opened kind = record {
    open_blocks = put l.open_blocks index kind;
    seen_blocks = index ∷ l.seen_blocks;
  }

  module _ (shut : has l.open_blocks index ≡ false)
      (fresh : contains l.seen_blocks index ≡ false) where
    pub check-start_text : check_event show true l (start_text index) ≡ ok (opened "text")
    unfolding check_event start_text block_start event_index dict_at text_at open_block lookup strip
    check-start_text = ground (arith, shut, fresh)

    pub check-start_thinking :
        check_event show true l (start_thinking index) ≡ ok (opened "thinking")
    unfolding check_event start_thinking block_start event_index dict_at text_at open_block lookup
        strip
    check-start_thinking = ground (arith, shut, fresh)

    pub check-start_tool_use :
        (tool_id name : String)
        → check_event show true l (start_tool_use index tool_id name) ≡ ok (opened "tool_use")
    unfolding check_event start_tool_use block_start event_index dict_at text_at open_block lookup
        strip
    check-start_tool_use tool_id name = ground (arith, shut, fresh)

  pub check-thinking_delta :
      (content : String)
      → get l.open_blocks index ≡ some "thinking"
      → check_event show true l (content_block_delta index "thinking_delta" content) ≡ ok l
  unfolding check_event content_block_delta delta_content event_index dict_at text_at check_delta
      check_delta_type lookup
  check-thinking_delta content e = ground (arith, e)

  pub check-text_delta :
      (content : String)
      → get l.open_blocks index ≡ some "text"
      → check_event show true l (content_block_delta index "text_delta" content) ≡ ok l
  unfolding check_event content_block_delta delta_content event_index dict_at text_at check_delta
      check_delta_type lookup
  check-text_delta content e = ground (arith, e)

  pub check-json_delta :
      (content : String)
      → get l.open_blocks index ≡ some "tool_use"
      → check_event show true l (content_block_delta index "input_json_delta" content) ≡ ok l
  unfolding check_event content_block_delta delta_content event_index dict_at text_at check_delta
      check_delta_type lookup
  check-json_delta content e = ground (arith, e)

  pub check-stop :
      has l.open_blocks index ≡ true
      → check_event show true l (content_block_stop index)
        ≡ ok (record l { open_blocks = remove l.open_blocks index })
  unfolding check_event content_block_stop event_index close_block lookup
  check-stop e = ground (arith, e)

module _ (show : Json → String) (l : Ledger) where
  pub check-message_start : (b : SseBuilder) → check_event show true l (message_start b) ≡ ok l
  unfolding check_event message_start
  check-message_start b = refl

  pub check-message_delta :
      (b : SseBuilder) (reason : String) (tokens : Option ℤ)
      → check_event show true l (message_delta b reason tokens) ≡ ok l
  unfolding check_event message_delta
  check-message_delta b reason tokens = refl

  pub check-message_stop : check_event show true l message_stop ≡ ok l
  unfolding check_event message_stop
  check-message_stop = refl

  pub check-error :
      (message : String) → check_event show true l (emit_top_level_error message) ≡ ok l
  unfolding check_event emit_top_level_error
  check-error message = refl
