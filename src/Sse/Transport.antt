-- ===== src/Sse/Transport.antt =====
-- providers/openai_compat.py: the events that `_stream_response_impl` yields for a stream of
-- chat-completion chunks, with `_process_tool_call` and its other helpers. The chunks that arrive,
-- the two parsers of the text, `json` and the drawn uuids are parameters. A stream whose consumer
-- cancels it is left out; the hook `_handle_extra_reasoning` yields nothing, as in this class.
pub mod Stream
use bailian_free_claude_code.Base.{
  ℕ, zero, suc, ◌+◌, ◌-◌, ◌*◌, ◌^◌, ◌≤◌, ◌<◌, String, ◌≡◌, refl, sym, ap, ◌∙◌, ◌≢◌, ◌↔◌, ◌⊎◌, inl,
  inr, Bool, true, false, not, ◌&&◌, ◌||◌, Option, none, some, List, [], ◌∷◌, ◌++◌, map, arith,
  eq_iff, ltb, leb, if◌then◌else◌, leb→le, Bool-cases, Option-cases, Eq, ◌==◌, nat_eq, string_eq,
  beq_refl, length, All, filter_by, contains, contains-append, Dict, keys, values, is_some, get,
  put, remove, modify, has, get-put, get-put_self, get-remove, get-modify, keys-modify, get-nil,
  dict_laws, value_error, key_error, Outcome, ok, raised, ◌>>=◌, truthy,
}
use mathlib.Core.Option
use Prim.Native.String.{◌++◌ as append_text}
use bailian_free_claude_code.Base.{Exception}
use bailian_free_claude_code.Sse.Strings.{strip}
use bailian_free_claude_code.Sse.Json.{ℤ, pos, negsuc, int_eq, Json, boolean, object, SseEvent}
use bailian_free_claude_code.Sse.Builder.{
  ToolCallState, SseBuilder, new_builder, map_stop_reason, message_start, message_delta,
  message_stop, start_tool_use, content_block_delta, content_block_stop, emit_top_level_error,
}
use bailian_free_claude_code.Sse.Builder.Emissions.{
  Emission, yielded, skip, failed, and_then, allocate_index, emit_thinking_delta, emit_text_delta,
  start_tool_block, emit_tool_delta, ensure_thinking_block, ensure_text_block, close_content_blocks,
  close_all_blocks, emit_error,
}
use bailian_free_claude_code.Sse.Builder.ToolArgs.{
  JsonCodec, normalize_task_run_in_background, ensure_tool_state, set_stream_tool_id,
  register_tool_name, any_started, has_emitted_tool_block, buffer_task_args, flush_states,
  accumulated_text, accumulated_reasoning, estimate_output_tokens,
}

-- core/anthropic/thinking.py, `ContentChunk`
pub data ContentChunk : Type 0 where
  plain thinking : String → ContentChunk

pub record ToolUse : Type 0 where
  pub id : String
  pub name : String
  pub input : Json

-- What the transport asks of its parser of thinking tags, and of its parser of tools in the text.
pub record ThinkParser : Type 1 where
  pub State : Type 0
  pub start : State
  pub feed : State → String → State × List ContentChunk
  pub flush : State → Option ContentChunk

pub record ToolParser : Type 1 where
  pub State : Type 0
  pub start : State
  pub feed : State → String → State × (String × List ToolUse)
  pub flush : State → List ToolUse

-- A tool call of a chunk, and the uuid that `uuid.uuid4` would give for it.
pub record ToolDelta : Type 0 where
  pub index : ℤ
  pub id : Option String
  pub name : Option String
  pub arguments : Option String
  pub uuid : String

pub record Delta : Type 0 where
  pub reasoning_content : Option String
  pub content : Option String
  pub tool_calls : List ToolDelta

-- A chunk; `completion_tokens` is `none` where the usage holds no such integer, and `choice` is the
-- first choice, with its delta and finish reason.
pub record Chunk : Type 0 where
  pub usage : Option (Option ℤ)
  pub choice : Option (Option Delta × Option String)

abbrev pub or_empty : Option String → String
or_empty none = ""
or_empty (some s) = s

abbrev pub is_started : Option ToolCallState → Bool
is_started none = false
is_started (some state) = state.started

abbrev pub state_name : Option ToolCallState → String
state_name none = ""
state_name (some state) = state.name

abbrev state_tool_id : Option ToolCallState → String
state_tool_id none = ""
state_tool_id (some state) = state.tool_id

-- The id that a tool block gets.
pub resolved_tool_id : Option ToolCallState → ToolDelta → String
resolved_tool_id state tc =
    if not (state_tool_id state == "")
    then state_tool_id state
    else if truthy tc.id
    then or_empty tc.id
    else append_text "tool_" tc.uuid

pub tool_call_index : SseBuilder → ℤ → ℕ
tool_call_index b (pos index) = index
tool_call_index b (negsuc index) = length b.tool_states

-- The builder with the id and the name of the delta.
unfoldable pub note_tool_call : SseBuilder → ℕ → ToolDelta → SseBuilder
unfolding set_stream_tool_id register_tool_name
note_tool_call b tc_index tc =
    let b1 = set_stream_tool_id b tc_index tc.id in
    elim tc.name [ none ↦ b1 | some incoming_name ↦ register_tool_name b1 tc_index incoming_name ]

unfoldable pub emit_tool_deltas : SseBuilder → List (ℕ × String) → Emission
unfolding and_then emit_tool_delta
emit_tool_deltas b [] = skip b
emit_tool_deltas b ((tool_index, out) ∷ results) =
    and_then (emit_tool_delta b tool_index out) (λ b1. emit_tool_deltas b1 results)

module _ (json : JsonCodec) where
  -- The input that `_iter_heuristic_tool_use_sse` sends.
  pub task_input : ToolUse → Json
  unfolding normalize_task_run_in_background
  task_input tool_use =
      if tool_use.name == "Task"
      then elim (normalize_task_run_in_background tool_use.input) [
        | ok input ↦ input
        | raised x ↦ tool_use.input
      ]
      else tool_use.input

  -- The block of the tool.
  unfoldable pub tool_use_block : SseBuilder → ToolUse → Emission
  unfolding task_input
  tool_use_block b tool_use =
      let (index, b1) = allocate_index b in
      record {
        sse = b1;
        events =
            start_tool_use index tool_use.id tool_use.name
            ∷ content_block_delta index "input_json_delta" (json.dumps (task_input tool_use))
            ∷ content_block_stop index
            ∷ [];
        failure = none;
      }

  unfoldable pub heuristic_tool_use : SseBuilder → ToolUse → Emission
  unfolding and_then close_content_blocks tool_use_block
  heuristic_tool_use b tool_use =
      and_then (close_content_blocks b) (λ b1. tool_use_block b1 tool_use)

  unfoldable pub heuristic_tool_uses : SseBuilder → List ToolUse → Emission
  unfolding and_then heuristic_tool_use
  heuristic_tool_uses b [] = skip b
  heuristic_tool_uses b (tool_use ∷ tool_uses) =
      and_then (heuristic_tool_use b tool_use) (λ b1. heuristic_tool_uses b1 tool_uses)

  -- What follows `buffer_task_args`.
  unfoldable pub send_task_args : SseBuilder → ℕ → Outcome (Option Json) → Emission
  unfolding emit_tool_delta
  send_task_args b tc_index (raised x) = failed b x
  send_task_args b tc_index (ok none) = skip b
  send_task_args b tc_index (ok (some parsed)) = emit_tool_delta b tc_index (json.dumps parsed)

  unfoldable pub emit_tool_arg_delta : SseBuilder → ℕ → String → Emission
  unfolding send_task_args emit_tool_delta buffer_task_args
  emit_tool_arg_delta b tc_index args =
      if args == "" then skip b else elim (get b.tool_states tc_index) [
        | none ↦ skip b
        | some state ↦
            if state.name == "Task"
            then (let buffered = buffer_task_args json b tc_index args in
                send_task_args buffered.0 tc_index buffered.1)
            else emit_tool_delta b tc_index args
      ]

  -- The arguments that arrived before the tool's name.
  unfoldable pub send_pre_start_args : SseBuilder → ℕ → Emission
  unfolding emit_tool_arg_delta
  send_pre_start_args b tc_index = elim (get b.tool_states tc_index) [
    | none ↦ failed b key_error
    | some state ↦
        if state.pre_start_args == ""
        then skip b
        else emit_tool_arg_delta
            (record b {
              tool_states = put b.tool_states tc_index (record state { pre_start_args = "" });
            })
            tc_index state.pre_start_args
  ]

  unfoldable pub start_named_tool : SseBuilder → ℕ → ToolDelta → Emission
  unfolding and_then start_tool_block resolved_tool_id send_pre_start_args strip
  start_named_tool b tc_index tc =
      let state = get b.tool_states tc_index in
      let display_name = strip (state_name state) in
      if is_started state || display_name == ""
      then skip b
      else and_then (start_tool_block b tc_index (resolved_tool_id state tc) display_name)
          (λ b1. send_pre_start_args b1 tc_index)

  -- The last part of `_process_tool_call`, on arguments that are not empty.
  unfoldable pub send_arguments : SseBuilder → ℕ → String → String → Emission
  unfolding emit_tool_arg_delta strip
  send_arguments b tc_index resolved_name arguments =
      if is_started (get b.tool_states tc_index)
      then emit_tool_arg_delta b tc_index arguments
      else if strip resolved_name == ""
      then skip (
          ensure_tool_state b tc_index
            (λ s. record s { pre_start_args = append_text s.pre_start_args arguments }))
      else emit_tool_arg_delta (ensure_tool_state b tc_index (λ s. s)) tc_index arguments

  unfoldable pub process_tool_call : SseBuilder → ToolDelta → Emission
  unfolding and_then tool_call_index note_tool_call start_named_tool send_arguments
  process_tool_call b tc =
      let tc_index = tool_call_index b tc.index in
      let b1 = note_tool_call b tc_index tc in
      let resolved_name = state_name (get b1.tool_states tc_index) in
      and_then (start_named_tool b1 tc_index tc) (λ b2.
        if or_empty tc.arguments == ""
        then skip b2
        else send_arguments b2 tc_index resolved_name (or_empty tc.arguments))

  unfoldable pub process_tool_calls : SseBuilder → List ToolDelta → Emission
  unfolding and_then process_tool_call
  process_tool_calls b [] = skip b
  process_tool_calls b (tc ∷ tcs) =
      and_then (process_tool_call b tc) (λ b1. process_tool_calls b1 tcs)

  unfoldable pub flush_task_arg_buffers : SseBuilder → Emission
  unfolding flush_states emit_tool_deltas
  flush_task_arg_buffers b = elim (flush_states json b.tool_states) [
    | raised x ↦ failed b x
    | ok flushed ↦ emit_tool_deltas (record b { tool_states = flushed.0 }) flushed.1
  ]
