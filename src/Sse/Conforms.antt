-- ===== src/Sse/Conforms.antt =====
-- core/anthropic/sse.py against core/anthropic/stream_contracts.py: what a builder and the ledger of
-- the contract's loop have in common while a stream is being sent.
pub mod Tools
pub mod Sends
pub mod Texts
pub mod Blocks
pub mod ToolCalls
pub mod Calls
pub mod Processed
pub mod Flush
pub mod Close
pub mod Endings
pub mod Finish
pub mod Accepted
use bailian_free_claude_code.Base.{
  ℕ, zero, suc, ◌+◌, ◌-◌, ◌*◌, ◌^◌, ◌≤◌, ◌<◌, String, ◌≡◌, refl, sym, ap, ◌∙◌, ◌≢◌, ◌↔◌, ◌⊎◌, inl,
  inr, Bool, true, false, not, ◌&&◌, ◌||◌, Option, none, some, List, [], ◌∷◌, ◌++◌, map, arith,
  eq_iff, ltb, leb, if◌then◌else◌, leb→le, Bool-cases, Option-cases, Eq, ◌==◌, nat_eq, string_eq,
  beq_refl, length, All, filter_by, contains, contains-append, Dict, keys, values, is_some, get,
  put, remove, modify, has, get-put, get-put_self, get-remove, get-modify, keys-modify, get-nil,
  dict_laws, value_error, key_error, Outcome, ok, raised, ◌>>=◌, truthy,
}
use bailian_free_claude_code.Base.{Exception}
use bailian_free_claude_code.Sse.Json.{ℤ, pos, negsuc, int_eq, Json, SseEvent}
use bailian_free_claude_code.Sse.Builder.{ToolCallState, SseBuilder}
use bailian_free_claude_code.Sse.Builder.Emissions.{Emission}
use bailian_free_claude_code.Sse.Builder.ToolArgs.{JsonCodec}
use bailian_free_claude_code.Sse.Contract.{Ledger, check_events, is_empty}
use bailian_free_claude_code.Sse.Transport.Stream.{has_content_blocks}

-- 1 where the test holds.
abbrev bit : Bool → ℕ
bit b = if b then 1 else 0

-- Whether a tool's block stands at an index and is started.
abbrev stands_at : ToolCallState → ℤ → Bool
stands_at s i = s.started && s.block_index == i

-- How many started tool blocks stand at an index.
pub tools_at : Dict ℕ ToolCallState → ℤ → ℕ
tools_at [] i = 0
tools_at ((k, s) ∷ d) i = bit (stands_at s i) + tools_at d i

-- A state whose buffer would not be flushed as anything but the empty object: nothing is buffered, or
-- the arguments were sent, or the block is started and the buffer is no JSON. After an exception,
-- nothing is asked.
abbrev is_calm : Option JsonCodec → ToolCallState → Bool
is_calm none s = true
is_calm (some json) s =
    s.task_arg_buffer == ""
    || s.task_args_emitted
    || (s.started && not (is_some (json.loads s.task_arg_buffer)))

-- Every state is calm, and no key is listed twice.
pub calm_tools : Option JsonCodec → Dict ℕ ToolCallState → Bool
calm_tools watch [] = true
calm_tools watch ((k, s) ∷ d) = is_calm watch s && not (has d k) && calm_tools watch d

abbrev thinking_at : SseBuilder → ℤ → Bool
thinking_at b i = b.thinking_started && b.thinking_index == i

abbrev text_at_index : SseBuilder → ℤ → Bool
text_at_index b i = b.text_started && b.text_index == i

-- The kind of the block that the builder has open at an index.
abbrev kind_at : SseBuilder → ℤ → Option String
kind_at b i =
    if thinking_at b i
    then some "thinking"
    else if text_at_index b i
    then some "text"
    else if ltb 0 (tools_at b.tool_states i)
    then some "tool_use"
    else none

-- An index that `allocate_index` has given.
abbrev is_allocated : ℕ → ℤ → Bool
is_allocated next_index (pos i) = ltb i next_index
is_allocated next_index (negsuc i) = false

pub record Conforms (watch : Option JsonCodec) (b : SseBuilder) (l : Ledger) : Type 0 where
  pub kinds : (i : ℤ) → get l.open_blocks i ≡ kind_at b i
  pub once :
      (i : ℤ) → bit (thinking_at b i) + bit (text_at_index b i) + tools_at b.tool_states i ≤ 1
  pub fresh : (i : ℤ) → is_allocated b.next_index i ≡ false → contains l.seen_blocks i ≡ false
  pub unopened : (i : ℤ) → is_allocated b.next_index i ≡ false → has l.open_blocks i ≡ false
  pub used : has_content_blocks b ≡ true → ltb 0 b.next_index ≡ true
  pub begun : ltb 0 b.next_index ≡ true → is_empty l.seen_blocks ≡ false
  pub calm : calm_tools watch b.tool_states ≡ true

abbrev after : Option JsonCodec → Option Exception → Option JsonCodec
after watch none = watch
after watch (some x) = none

-- The events of an emission pass the contract's loop, which ends in a ledger that conforms again.
abbrev Sends : Option JsonCodec → (Json → String) → SseBuilder → Emission → Type 0
Sends watch show b e =
    (l : Ledger)
    → Conforms watch b l
    → (l1 : Ledger) × (check_events show true l e.events ≡ ok l1)
      × Conforms (after watch e.failure) e.sse l1
