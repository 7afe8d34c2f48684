-- ===== src/Sse/Builder/Emissions.antt =====
-- core/anthropic/sse.py: the operations of `SSEBuilder` that change its state.
use bailian_free_claude_code.Base.{
  ℕ, suc, String, true, false, Option, none, some, List, [], ◌∷◌, ◌++◌, if◌then◌else◌, nat_eq,
  string_eq, Dict, get, put, key_error,
}
use bailian_free_claude_code.Base.{Exception}
use bailian_free_claude_code.Sse.Json.{ℤ, pos, SseEvent}
use bailian_free_claude_code.Sse.Builder.{
  ToolCallState, new_tool_call, SseBuilder, start_thinking, start_text, start_tool_use,
  content_block_delta, content_block_stop,
}

-- What a generator has done when it ends: the builder, the events that it yielded, and the exception
-- that ended it, if there was one.
pub record Emission : Type 0 where
  pub sse : SseBuilder
  pub events : List SseEvent
  pub failure : Option Exception

-- `yield`, and a generator that ends at once.
abbrev pub yielded : SseBuilder → SseEvent → Emission
yielded b event = record { sse = b; events = event ∷ []; failure = none }

abbrev pub skip : SseBuilder → Emission
skip b = record { sse = b; events = []; failure = none }

abbrev pub failed : SseBuilder → Exception → Emission
failed b x = record { sse = b; events = []; failure = some x }

-- The rest of a generator, which is not run after an exception.
unfoldable pub and_then : Emission → (SseBuilder → Emission) → Emission
and_then e rest = elim e.failure [
  | some x ↦ e
  | none ↦
      let next = rest e.sse in
      record { sse = next.sse; events = e.events ++ next.events; failure = next.failure }
]

-- `allocate_index`
abbrev pub allocate_index : SseBuilder → ℤ × SseBuilder
allocate_index b = (pos b.next_index, record b { next_index = suc b.next_index })

unfoldable pub start_thinking_block : SseBuilder → Emission
start_thinking_block b =
    let (index, b1) = allocate_index b in
    yielded (record b1 { thinking_index = index; thinking_started = true }) (start_thinking index)

unfoldable pub emit_thinking_delta : SseBuilder → String → Emission
emit_thinking_delta b content =
    yielded
      (record b { accumulated_reasoning_parts = b.accumulated_reasoning_parts ++ content ∷ [] })
      (content_block_delta b.thinking_index "thinking_delta" content)

unfoldable pub stop_thinking_block : SseBuilder → Emission
stop_thinking_block b =
    yielded (record b { thinking_started = false }) (content_block_stop b.thinking_index)

unfoldable pub start_text_block : SseBuilder → Emission
start_text_block b =
    let (index, b1) = allocate_index b in
    yielded (record b1 { text_index = index; text_started = true }) (start_text index)

unfoldable pub emit_text_delta : SseBuilder → String → Emission
emit_text_delta b content =
    yielded (record b { accumulated_text_parts = b.accumulated_text_parts ++ content ∷ [] })
      (content_block_delta b.text_index "text_delta" content)

unfoldable pub stop_text_block : SseBuilder → Emission
stop_text_block b = yielded (record b { text_started = false }) (content_block_stop b.text_index)

-- The state of the tool once its block is started, given the one that `tool_states` had.
unfoldable pub started_tool : ℤ → String → String → Option ToolCallState → ToolCallState
started_tool index tool_id name none = new_tool_call index tool_id name true
started_tool index tool_id name (some state) = record state {
  block_index = index;
  tool_id = tool_id;
  started = true;
}

unfoldable pub start_tool_block : SseBuilder → ℕ → String → String → Emission
unfolding started_tool
start_tool_block b tool_index tool_id name =
    let (index, b1) = allocate_index b in
    yielded
      (record b1 {
        tool_states =
            put b1.tool_states tool_index
              (started_tool index tool_id name (get b1.tool_states tool_index));
      })
      (start_tool_use index tool_id name)

unfoldable pub emit_tool_delta : SseBuilder → ℕ → String → Emission
emit_tool_delta b tool_index partial_json = elim (get b.tool_states tool_index) [
  | none ↦ failed b key_error
  | some state ↦
      yielded
        (record b {
          tool_states =
              put b.tool_states tool_index
                (record state { contents = state.contents ++ partial_json ∷ [] });
        })
        (content_block_delta state.block_index "input_json_delta" partial_json)
]

unfoldable pub ensure_thinking_block : SseBuilder → Emission
unfolding and_then start_thinking_block stop_text_block
ensure_thinking_block b =
    and_then (if b.text_started then stop_text_block b else skip b)
      (λ b1. if b1.thinking_started then skip b1 else start_thinking_block b1)

unfoldable pub ensure_text_block : SseBuilder → Emission
unfolding and_then start_text_block stop_thinking_block
ensure_text_block b =
    and_then (if b.thinking_started then stop_thinking_block b else skip b)
      (λ b1. if b1.text_started then skip b1 else start_text_block b1)

unfoldable pub close_content_blocks : SseBuilder → Emission
unfolding and_then stop_text_block stop_thinking_block
close_content_blocks b =
    and_then (if b.thinking_started then stop_thinking_block b else skip b)
      (λ b1. if b1.text_started then stop_text_block b1 else skip b1)

-- The loop of `close_all_blocks` over the tools. `stop_tool_block` looks its tool up again and finds
-- the state at hand.
unfoldable pub stop_tools : Dict ℕ ToolCallState → List SseEvent
stop_tools [] = []
stop_tools ((tool_index, state) ∷ states) =
    let rest = stop_tools states in
    if state.started then content_block_stop state.block_index ∷ rest else rest

unfoldable pub close_all_blocks : SseBuilder → Emission
unfolding and_then close_content_blocks stop_tools
close_all_blocks b =
    and_then (close_content_blocks b)
      (λ b1. record { sse = b1; events = stop_tools b1.tool_states; failure = none })

unfoldable pub emit_error : SseBuilder → String → Emission
emit_error b error_message =
    let (index, b1) = allocate_index b in
    record {
      sse = b1;
      events =
          start_text index
          ∷ content_block_delta index "text_delta" error_message
          ∷ content_block_stop index
          ∷ [];
      failure = none;
    }
