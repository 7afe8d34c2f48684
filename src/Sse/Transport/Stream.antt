-- ===== src/Sse/Transport/Stream.antt =====
-- providers/openai_compat.py: the loop of `_stream_response_impl` over the chunks, its error path
-- and its end.
use bailian_free_claude_code.Base.{
  ℕ, String, Bool, not, ◌&&◌, ◌||◌, Option, none, some, List, [], ◌∷◌, if◌then◌else◌, ◌==◌, nat_eq,
  string_eq, truthy, Outcome, ok, raised, ◌>>=◌,
}
use bailian_free_claude_code.Base.{Exception}
use bailian_free_claude_code.Sse.Strings.{strip}
use bailian_free_claude_code.Sse.Json.{ℤ, pos, negsuc, int_eq}
use bailian_free_claude_code.Sse.Builder.{
  SseBuilder, new_builder, map_stop_reason, message_start, message_delta, message_stop,
  emit_top_level_error,
}
use bailian_free_claude_code.Sse.Builder.Emissions.{
  Emission, yielded, failed, skip, and_then, emit_thinking_delta, emit_text_delta,
  ensure_thinking_block, ensure_text_block, close_content_blocks, close_all_blocks, emit_error,
}
use bailian_free_claude_code.Sse.Builder.ToolArgs.{
  JsonCodec, any_started, has_emitted_tool_block, accumulated_text, accumulated_reasoning,
  estimate_output_tokens, join_parts,
}
use bailian_free_claude_code.Sse.Transport.{
  ContentChunk, plain, thinking, ThinkParser, ToolParser, Delta, Chunk, or_empty,
  heuristic_tool_uses, process_tool_calls, flush_task_arg_buffers,
}

unfoldable pub send_thinking : SseBuilder → String → Emission
unfolding and_then ensure_thinking_block emit_thinking_delta
send_thinking b content = and_then (ensure_thinking_block b) (λ b1. emit_thinking_delta b1 content)

unfoldable pub send_text : SseBuilder → String → Emission
unfolding and_then ensure_text_block emit_text_delta
send_text b content = and_then (ensure_text_block b) (λ b1. emit_text_delta b1 content)

-- `has_content_blocks`
abbrev pub has_content_blocks : SseBuilder → Bool
has_content_blocks b =
    not (b.text_index == negsuc 0)
    || not (b.thinking_index == negsuc 0)
    || any_started b.tool_states

-- How the chunks end: the provider's stream is exhausted, or raises an exception, whose message for
-- the user is given.
pub data StreamEnd : Type 0 where
  exhausted : StreamEnd
  broken : String → StreamEnd

-- The variables of the loop beside the builder.
pub record Locals (think : ThinkParser) (tools : ToolParser) : Type 0 where
  pub think_state : think.State
  pub tool_state : tools.State
  pub finish_reason : Option String
  pub usage_info : Option (Option ℤ)

-- `except Exception as e: ...`
unfoldable pub report_failure : SseBuilder → String → Emission
unfolding and_then close_all_blocks emit_error emit_top_level_error message_delta message_stop
report_failure b error_message = and_then (close_all_blocks b) (λ b1.
    and_then
      (if has_emitted_tool_block b1
        then yielded b1 (emit_top_level_error error_message)
        else emit_error b1 error_message)
      (λ b2. record {
        sse = b2;
        events = message_delta b2 "end_turn" (some (pos 1)) ∷ message_stop ∷ [];
        failure = none;
      }))

-- The text block that a stream without one gets.
unfoldable pub send_minimal_text : SseBuilder → Emission
unfolding send_text strip join_parts
send_minimal_text b =
    if not (has_content_blocks b)
    then send_text b " "
    else if not (any_started b.tool_states)
        && strip (accumulated_text b) == ""
        && not (strip (accumulated_reasoning b) == "")
    then send_text b " "
    else skip b

module _ (json : JsonCodec) (think : ThinkParser) (tools : ToolParser)
    (encoder : Option (String → Outcome ℕ)) (message_of : Exception → String)
    (thinking_enabled : Bool) where
  -- The parts that the think parser found in a delta.
  unfoldable pub send_parts : SseBuilder → tools.State → List ContentChunk → tools.State × Emission
  unfolding and_then send_thinking send_text heuristic_tool_uses
  send_parts b s [] = (s, skip b)
  send_parts b s (thinking content ∷ parts) =
      let first = if thinking_enabled then send_thinking b content else skip b in
      let rest = send_parts first.sse s parts in
      (rest.0, and_then first (λ b1. (send_parts b1 s parts).1))
  send_parts b s (plain content ∷ parts) =
      let fed = tools.feed s content in
      let filtered_text = fed.1.0 in
      let first =
        and_then (if filtered_text == "" then skip b else send_text b filtered_text)
          (λ b1. heuristic_tool_uses json b1 fed.1.1) in
      let rest = send_parts first.sse fed.0 parts in
      (rest.0, and_then first (λ b1. (send_parts b1 fed.0 parts).1))

  unfoldable pub send_reasoning : SseBuilder → Option String → Emission
  unfolding send_thinking
  send_reasoning b reasoning =
      if thinking_enabled && truthy reasoning then send_thinking b (or_empty reasoning) else skip b

  unfoldable pub send_tool_calls : SseBuilder → Delta → Emission
  unfolding and_then close_content_blocks process_tool_calls
  send_tool_calls b delta = elim delta.tool_calls [
    | [] ↦ skip b
    | tc ∷ tcs ↦ and_then (close_content_blocks b) (λ b1. process_tool_calls json b1 (tc ∷ tcs))
  ]

  -- A delta: the states of the parsers afterwards, and what is yielded.
  unfoldable pub send_delta :
      SseBuilder → think.State → tools.State → Delta → (think.State × tools.State) × Emission
  unfolding and_then send_reasoning send_parts send_tool_calls
  send_delta b ts us delta =
      let first = send_reasoning b delta.reasoning_content in
      let (ts1, parts) =
        if truthy delta.content then think.feed ts (or_empty delta.content) else (ts, []) in
      let sent = send_parts first.sse us parts in
      (
        (ts1, sent.0),
        and_then first (λ b1. and_then (send_parts b1 us parts).1 (λ b2. send_tool_calls b2 delta)),
      )

  -- The round of the loop for one chunk.
  unfoldable pub send_chunk :
      SseBuilder → Locals think tools → Chunk → Locals think tools × Emission
  unfolding send_delta
  send_chunk b v chunk =
      let usage_info = elim chunk.usage as (λ _. Option (Option ℤ)) [
        | none ↦ v.usage_info
        | some usage ↦ some usage
      ] in
      let v1 = record v { usage_info = usage_info } in
      elim chunk.choice [
        | none ↦ (v1, skip b)
        | some (none, finish) ↦ (v1, skip b)
        | some (some delta, finish) ↦
            let finish_reason = if truthy finish then finish else v.finish_reason in
            let sent = send_delta b v.think_state v.tool_state delta in
            (
              record v1 {
                think_state = sent.0.0;
                tool_state = sent.0.1;
                finish_reason = finish_reason;
              },
              sent.1,
            )
      ]

  -- The text that the think parser still holds.
  unfoldable pub send_remaining : SseBuilder → Option ContentChunk → Emission
  unfolding send_thinking send_text
  send_remaining b none = skip b
  send_remaining b (some (thinking content)) =
      if thinking_enabled then send_thinking b content else skip b
  send_remaining b (some (plain content)) = send_text b content

  unfoldable pub output_tokens : SseBuilder → Option (Option ℤ) → Outcome ℤ
  unfolding estimate_output_tokens
  output_tokens b (some (some completion)) = ok completion
  output_tokens b _ = estimate_output_tokens encoder b >>= λ n. ok (pos n)

  -- The last two events, with the count of the tokens, which may raise.
  unfoldable pub last_two : SseBuilder → Option String → Outcome ℤ → Emission
  unfolding message_delta message_stop map_stop_reason
  last_two b finish_reason (raised x) = failed b x
  last_two b finish_reason (ok tokens) = record {
    sse = b;
    events = message_delta b (map_stop_reason finish_reason) (some tokens) ∷ message_stop ∷ [];
    failure = none;
  }

  -- What follows the loop.
  unfoldable pub finish_stream : SseBuilder → Locals think tools → Emission
  unfolding and_then send_remaining heuristic_tool_uses send_minimal_text flush_task_arg_buffers
      close_all_blocks last_two output_tokens
  finish_stream b v = and_then (send_remaining b (think.flush v.think_state)) (λ b1.
      and_then (heuristic_tool_uses json b1 (tools.flush v.tool_state)) (λ b2.
        and_then (send_minimal_text b2) (λ b3. and_then (flush_task_arg_buffers json b3) (λ b4.
          and_then (close_all_blocks b4)
            (λ b5. last_two b5 v.finish_reason (output_tokens b5 v.usage_info))))))

  -- After the round of a chunk: an exception that the round raised is caught.
  unfoldable pub after_round : Emission → (SseBuilder → Emission) → Emission
  unfolding and_then report_failure
  after_round round rest = elim round.failure [
    | none ↦ and_then round rest
    | some x ↦ and_then (record round { failure = none }) (λ b. report_failure b (message_of x))
  ]

  unfoldable pub stream_chunks : SseBuilder → Locals think tools → List Chunk → StreamEnd → Emission
  unfolding send_chunk report_failure finish_stream after_round
  stream_chunks b v [] exhausted = finish_stream b v
  stream_chunks b v [] (broken error_message) = report_failure b error_message
  stream_chunks b v (chunk ∷ chunks) ending =
      let round = send_chunk b v chunk in
      after_round round.1 (λ b1. stream_chunks b1 round.0 chunks ending)

  -- The variables before the loop.
  abbrev pub first_locals : Locals think tools
  first_locals = record {
    think_state = think.start;
    tool_state = tools.start;
    finish_reason = none;
    usage_info = none;
  }

  -- The events of `_stream_response_impl`, where `message_id` is the drawn id and `refused` is the
  -- exception, if there is one, that preparing the request's body raises before the first event.
  unfoldable pub stream_response :
      String → String → Option ℤ → Option Exception → List Chunk → StreamEnd → Emission
  unfolding and_then message_start stream_chunks
  stream_response message_id model input_tokens (some x) chunks ending =
      failed (new_builder message_id model input_tokens) x
  stream_response message_id model input_tokens none chunks ending =
      let b = new_builder message_id model input_tokens in
      and_then (yielded b (message_start b)) (λ b1. stream_chunks b1 first_locals chunks ending)
