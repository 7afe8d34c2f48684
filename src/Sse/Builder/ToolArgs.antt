-- ===== src/Sse/Builder/ToolArgs.antt =====
-- core/anthropic/sse.py: the part of `ContentBlockManager` that gathers a tool call's id, name and
-- arguments, and `estimate_output_tokens`. `json.loads`, `json.dumps` and the tokenizer are parameters.
use bailian_free_claude_code.Base.{
  ℕ, ◌+◌, ◌*◌, String, Bool, true, false, not, ◌||◌, Option, none, some, List, [], ◌∷◌,
  if◌then◌else◌, ◌==◌, nat_eq, string_eq, Dict, get, put, Outcome, ok, raised, ◌>>=◌,
}
use Prim.Native.Nat.{◌/◌}
use Prim.Native.String.{◌++◌ as append_text, find, count}
use bailian_free_claude_code.Base.{Exception, attribute_error}
use bailian_free_claude_code.Sse.Json.{negsuc, Json, boolean, object, lookup, assign}
use bailian_free_claude_code.Sse.Builder.{ToolCallState, new_tool_call, SseBuilder}

-- `json.loads` and `json.dumps`. `none` is a call of `json.loads` that raises; `escapes` is then its
-- exception, if that is none of `JSONDecodeError`, `TypeError` and `ValueError`.
pub record JsonCodec : Type 0 where
  pub loads : String → Option Json
  pub escapes : String → Option Exception
  pub dumps : Json → String

abbrev is_false : Option Json → Bool
is_false (some (boolean b)) = not b
is_false _ = false

-- A value that is no dict has no method `get`.
unfoldable pub normalize_task_run_in_background : Json → Outcome Json
normalize_task_run_in_background (object args_json) =
    if is_false (lookup args_json "run_in_background")
    then ok (object args_json)
    else ok (object (assign args_json "run_in_background" (boolean false)))
normalize_task_run_in_background _ = raised attribute_error

abbrev set_tool : SseBuilder → ℕ → ToolCallState → SseBuilder
set_tool b index state = record b { tool_states = put b.tool_states index state }

abbrev tool_or_new : Option ToolCallState → ToolCallState
tool_or_new none = new_tool_call (negsuc 0) "" "" false
tool_or_new (some state) = state

-- `ensure_tool_state`, with the assignment that its callers make to the state.
abbrev pub ensure_tool_state : SseBuilder → ℕ → (ToolCallState → ToolCallState) → SseBuilder
ensure_tool_state b index change = set_tool b index (change (tool_or_new (get b.tool_states index)))

unfoldable pub set_stream_tool_id : SseBuilder → ℕ → Option String → SseBuilder
set_stream_tool_id b index none = b
set_stream_tool_id b index (some tool_id) =
    if tool_id == "" then b else ensure_tool_state b index (λ s. record s { tool_id = tool_id })

-- `text.startswith(start)`
abbrev starts_with : String → String → Bool
starts_with s start = find s start == 0

pub merged_name : String → String → String
merged_name prev name =
    if prev == ""
    then name
    else if starts_with name prev
    then name
    else if starts_with prev name
    then prev
    else append_text prev name

unfoldable pub register_tool_name : SseBuilder → ℕ → String → SseBuilder
unfolding merged_name
register_tool_name b index name = elim (get b.tool_states index) [
  | none ↦ set_tool b index (new_tool_call (negsuc 0) "" name false)
  | some state ↦ set_tool b index (record state { name = merged_name state.name name })
]

abbrev pub any_started : Dict ℕ ToolCallState → Bool
any_started [] = false
any_started ((i, s) ∷ d) = s.started || any_started d

abbrev pub has_emitted_tool_block : SseBuilder → Bool
has_emitted_tool_block b = any_started b.tool_states

-- What `buffer_task_args` does with the extended buffer, given what is read from it.
unfoldable pub buffer_read :
    SseBuilder
    → ℕ
    → ToolCallState
    → String
    → Option (Outcome Json)
    → SseBuilder × Outcome (Option Json)
buffer_read b index state buffer none =
    (set_tool b index (record state { task_arg_buffer = buffer }), ok none)
buffer_read b index state buffer (some (raised x)) =
    (set_tool b index (record state { task_arg_buffer = buffer }), raised x)
buffer_read b index state buffer (some (ok args_json)) = (
  set_tool b index (record state { task_args_emitted = true; task_arg_buffer = "" }),
  ok (some args_json),
)

module _ (json : JsonCodec) where
  -- The arguments read from a buffer: `none` is a text that `json.loads` does not read.
  unfoldable pub read_args : String → Option (Outcome Json)
  unfolding normalize_task_run_in_background
  read_args buffer = elim (json.loads buffer) [
    | none ↦ none
    | some args_json ↦ some (normalize_task_run_in_background args_json)
  ]

  -- The builder afterwards and the answer; `raised` is the exception of a JSON value that is no dict.
  unfoldable pub buffer_task_args : SseBuilder → ℕ → String → SseBuilder × Outcome (Option Json)
  unfolding read_args buffer_read
  buffer_task_args b index args = elim (get b.tool_states index) [
    | none ↦ (b, ok none)
    | some state ↦
        if state.task_args_emitted
        then (b, ok none)
        else (let buffer = append_text state.task_arg_buffer args in
            buffer_read b index state buffer (read_args buffer))
  ]

  -- The text that a state's buffered arguments are flushed as.
  unfoldable pub flushed_args : ToolCallState → Outcome (Option String)
  unfolding read_args
  flushed_args state =
      if state.task_arg_buffer == "" || state.task_args_emitted
      then ok none
      else elim (read_args state.task_arg_buffer) [
        | none ↦ elim (json.escapes state.task_arg_buffer) [
          | none ↦ ok (some "{}")
          | some x ↦ raised x
        ]
        | some (raised x) ↦ raised x
        | some (ok args_json) ↦ ok (some (json.dumps args_json))
      ]

  -- The states after `flush_task_arg_buffers`, and its results.
  unfoldable pub flush_states :
      Dict ℕ ToolCallState → Outcome (Dict ℕ ToolCallState × List (ℕ × String))
  unfolding flushed_args
  flush_states [] = ok ([], [])
  flush_states ((index, state) ∷ states) = elim (flushed_args state) [
    | raised x ↦ raised x
    | ok none ↦ flush_states states >>= λ rest. ok ((index, state) ∷ rest.0, rest.1)
    | ok (some out) ↦ flush_states states >>= λ rest. ok (
      (index, record state { task_args_emitted = true; task_arg_buffer = "" }) ∷ rest.0,
      (index, out) ∷ rest.1,
    )
  ]

-- `"".join(parts)`
unfoldable pub join_parts : List String → String
join_parts [] = ""
join_parts (s ∷ parts) = append_text s (join_parts parts)

abbrev pub accumulated_text : SseBuilder → String
accumulated_text b = join_parts b.accumulated_text_parts

abbrev pub accumulated_reasoning : SseBuilder → String
accumulated_reasoning b = join_parts b.accumulated_reasoning_parts

abbrev one : Bool → ℕ
one b = if b then 1 else 0

-- The tokens of the tools; `encoder` counts the tokens of a text, or raises.
tool_tokens : (String → Outcome ℕ) → Dict ℕ ToolCallState → Outcome ℕ
unfolding join_parts
tool_tokens encoder [] = ok 0
tool_tokens encoder ((i, s) ∷ d) = do
  named ← encoder s.name
  said ← encoder (join_parts s.contents)
  rest ← tool_tokens encoder d
  ok (named + said + 15 + rest)

started_count : Dict ℕ ToolCallState → ℕ
started_count [] = 0
started_count ((i, s) ∷ d) = one s.started + started_count d

-- `none` is a tokenizer that could not be loaded.
unfoldable pub estimate_output_tokens : Option (String → Outcome ℕ) → SseBuilder → Outcome ℕ
unfolding tool_tokens started_count join_parts
estimate_output_tokens none b = ok (
    count (accumulated_text b) / 4
    + count (accumulated_reasoning b) / 4
    + started_count b.tool_states * 50)
estimate_output_tokens (some encoder) b = do
  text_tokens ← encoder (accumulated_text b)
  reasoning_tokens ← encoder (accumulated_reasoning b)
  tokens_of_tools ← tool_tokens encoder b.tool_states
  ok (
      text_tokens
      + reasoning_tokens
      + tokens_of_tools
      + (one (not (accumulated_reasoning b == ""))
          + one (not (accumulated_text b == ""))
          + started_count b.tool_states)
        * 4)
