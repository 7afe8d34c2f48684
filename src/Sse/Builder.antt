-- ===== src/Sse/Builder.antt =====
-- core/anthropic/sse.py: `ToolCallState`, `ContentBlockManager` and `SSEBuilder`. An operation that
-- yields events gives the builder afterwards and the events in order; one that can raise gives an
-- `Emission`, which keeps the events yielded before the exception. Keys of `tool_states` are natural
-- numbers: the transport replaces a negative one. Logging is left out.
pub mod Emissions
pub mod ToolArgs
use bailian_free_claude_code.Base.{
  ℕ, zero, suc, ◌+◌, ◌-◌, ◌*◌, ◌^◌, ◌≤◌, ◌<◌, String, ◌≡◌, refl, sym, ap, ◌∙◌, ◌≢◌, ◌↔◌, ◌⊎◌, inl,
  inr, Bool, true, false, not, ◌&&◌, ◌||◌, Option, none, some, List, [], ◌∷◌, ◌++◌, map, arith,
  eq_iff, ltb, leb, if◌then◌else◌, leb→le, Bool-cases, Option-cases, Eq, ◌==◌, nat_eq, string_eq,
  beq_refl, length, All, filter_by, contains, contains-append, Dict, keys, values, is_some, get,
  put, remove, modify, has, get-put, get-put_self, get-remove, get-modify, keys-modify, get-nil,
  dict_laws, value_error, key_error, Outcome, ok, raised, ◌>>=◌, truthy,
}
use mathlib.Core.Option
use bailian_free_claude_code.Base.{Exception, attribute_error}
use bailian_free_claude_code.Sse.Json.{
  ℤ, pos, negsuc, int_eq, Json, null, boolean, number, text, array, object, Items, nil, cons,
  Fields, end, field, SseEvent,
}

pub record ToolCallState : Type 0 where
  pub block_index : ℤ
  pub tool_id : String
  pub name : String
  pub contents : List String
  pub started : Bool
  pub task_arg_buffer : String
  pub task_args_emitted : Bool
  pub pre_start_args : String

-- `ToolCallState(block_index=..., tool_id=..., name=..., started=...)`
abbrev pub new_tool_call : ℤ → String → String → Bool → ToolCallState
new_tool_call block_index tool_id name started = record {
  block_index = block_index;
  tool_id = tool_id;
  name = name;
  contents = [];
  started = started;
  task_arg_buffer = "";
  task_args_emitted = false;
  pre_start_args = "";
}

-- The fields of `ContentBlockManager`, and then those of the builder.
pub record SseBuilder : Type 0 where
  pub next_index : ℕ
  pub thinking_index : ℤ
  pub text_index : ℤ
  pub thinking_started : Bool
  pub text_started : Bool
  pub tool_states : Dict ℕ ToolCallState
  pub message_id : String
  pub model : String
  pub input_tokens : Option ℤ
  pub accumulated_text_parts : List String
  pub accumulated_reasoning_parts : List String

abbrev pub new_builder : String → String → Option ℤ → SseBuilder
new_builder message_id model input_tokens = record {
  next_index = 0;
  thinking_index = negsuc 0;
  text_index = negsuc 0;
  thinking_started = false;
  text_started = false;
  tool_states = [];
  message_id = message_id;
  model = model;
  input_tokens = input_tokens;
  accumulated_text_parts = [];
  accumulated_reasoning_parts = [];
}

-- `STOP_REASON_MAP.get(...)`
unfoldable pub map_stop_reason : Option String → String
map_stop_reason none = "end_turn"
map_stop_reason (some reason) =
    if reason == "length"
    then "max_tokens"
    else if reason == "tool_calls"
    then "tool_use"
    else "end_turn"

-- A counter that is no `int` is `none`.
abbrev safe_usage_int : Option ℤ → ℤ
safe_usage_int none = pos 0
safe_usage_int (some value) = value

unfoldable pub message_start : SseBuilder → SseEvent
message_start b =
    let usage =
      field "input_tokens" (number (safe_usage_int b.input_tokens))
        (field "output_tokens" (number (pos 1)) end) in
    record {
      event = "message_start";
      data_fields = field "type" (text "message_start") (
          field "message"
            (object (
              field "id" (text b.message_id) (
                field "type" (text "message") (
                  field "role" (text "assistant") (
                    field "content" (array nil) (
                      field "model" (text b.model) (
                        field "stop_reason" null
                          (field "stop_sequence" null (field "usage" (object usage) end)))))))))
            end);
    }

unfoldable pub message_delta : SseBuilder → String → Option ℤ → SseEvent
message_delta b stop_reason output_tokens =
    let usage =
      field "input_tokens" (number (safe_usage_int b.input_tokens))
        (field "output_tokens" (number (safe_usage_int output_tokens)) end) in
    record {
      event = "message_delta";
      data_fields = field "type" (text "message_delta") (
          field "delta"
            (object (field "stop_reason" (text stop_reason) (field "stop_sequence" null end)))
            (field "usage" (object usage) end));
    }

unfoldable pub message_stop : SseEvent
message_stop = record {
  event = "message_stop";
  data_fields = field "type" (text "message_stop") end;
}

-- The `content_block_start` of each kind that the callers ask for, with its keyword arguments.
unfoldable pub block_start : ℤ → Fields → SseEvent
block_start index content_block = record {
  event = "content_block_start";
  data_fields =
      field "type" (text "content_block_start")
        (field "index" (number index) (field "content_block" (object content_block) end));
}

unfoldable pub start_thinking : ℤ → SseEvent
unfolding block_start
start_thinking index =
    block_start index (field "type" (text "thinking") (field "thinking" (text "") end))

unfoldable pub start_text : ℤ → SseEvent
unfolding block_start
start_text index = block_start index (field "type" (text "text") (field "text" (text "") end))

unfoldable pub start_tool_use : ℤ → String → String → SseEvent
unfolding block_start
start_tool_use index tool_id name = block_start index (
    field "type" (text "tool_use")
      (field "id" (text tool_id) (field "name" (text name) (field "input" (object end) end))))

-- `content_block_delta`; the types are those of the three branches, each with its key.
unfoldable pub delta_content : String → String → Fields
delta_content delta_type content =
    if delta_type == "thinking_delta"
    then field "thinking" (text content) end
    else if delta_type == "text_delta"
    then field "text" (text content) end
    else if delta_type == "input_json_delta"
    then field "partial_json" (text content) end
    else end

unfoldable pub content_block_delta : ℤ → String → String → SseEvent
unfolding delta_content
content_block_delta index delta_type content = record {
  event = "content_block_delta";
  data_fields = field "type" (text "content_block_delta") (
      field "index" (number index) (
        field "delta" (object (field "type" (text delta_type) (delta_content delta_type content)))
          end));
}

unfoldable pub content_block_stop : ℤ → SseEvent
content_block_stop index = record {
  event = "content_block_stop";
  data_fields = field "type" (text "content_block_stop") (field "index" (number index) end);
}

unfoldable pub emit_top_level_error : String → SseEvent
emit_top_level_error error_message = record {
  event = "error";
  data_fields = field "type" (text "error") (
      field "error"
        (object (field "type" (text "api_error") (field "message" (text error_message) end))) end);
}
