-- ===== src/Sse/Tracker.antt =====
-- core/anthropic/emitted_sse_tracker.py: `EmittedNativeSseTracker`, from the parsed events on. The
-- splitting of the text into frames is left out.
pub mod Stack
pub mod Checks
pub mod Follows
pub mod Tail
use bailian_free_claude_code.Base.{
  ℕ, zero, suc, ◌+◌, ◌-◌, ◌*◌, ◌^◌, ◌≤◌, ◌<◌, String, ◌≡◌, refl, sym, ap, ◌∙◌, ◌≢◌, ◌↔◌, ◌⊎◌, inl,
  inr, Bool, true, false, not, ◌&&◌, ◌||◌, Option, none, some, List, [], ◌∷◌, ◌++◌, map, arith,
  eq_iff, ltb, leb, if◌then◌else◌, leb→le, Bool-cases, Option-cases, Eq, ◌==◌, nat_eq, string_eq,
  beq_refl, length, All, filter_by, contains, contains-append, Dict, keys, values, is_some, get,
  put, remove, modify, has, get-put, get-put_self, get-remove, get-modify, keys-modify, get-nil,
  dict_laws, value_error, key_error, Outcome, ok, raised, ◌>>=◌, truthy,
}
use mathlib.Core.List.{reverse}
use bailian_free_claude_code.Sse.Json.{
  ℤ, pos, negsuc, int_eq, Json, number, text, array, object, Fields, end, field, lookup, SseEvent,
}
use bailian_free_claude_code.Sse.Builder.{
  SseBuilder, new_builder, message_delta, message_stop, content_block_stop,
}
use bailian_free_claude_code.Sse.Builder.Emissions.{Emission, and_then, emit_error}
use bailian_free_claude_code.Sse.Contract.{event_index}

-- The message's id and model are those of the last `message_start` that had them.
pub record Tracker : Type 0 where
  pub open_stack : List ℤ
  pub max_index : ℤ
  pub message_id : Option String
  pub model : String

abbrev pub new_tracker : Tracker
new_tracker = record { open_stack = []; max_index = negsuc 0; message_id = none; model = "" }

-- `max(a, b)`
abbrev max_int : ℤ → ℤ → ℤ
max_int (pos a) (pos b) = if ltb a b then pos b else pos a
max_int (pos a) (negsuc b) = pos a
max_int (negsuc a) (pos b) = pos b
max_int (negsuc a) (negsuc b) = if ltb b a then negsuc b else negsuc a

-- `stack[-1]`
last_of : List ℤ → Option ℤ
last_of [] = none
last_of (x ∷ []) = some x
last_of (x ∷ y ∷ ys) = last_of (y ∷ ys)

-- `stack.pop()`
drop_last : List ℤ → List ℤ
drop_last [] = []
drop_last (x ∷ []) = []
drop_last (x ∷ y ∷ ys) = x ∷ drop_last (y ∷ ys)

-- `stack.remove(idx)`, with its `ValueError` suppressed
remove_first : List ℤ → ℤ → List ℤ
remove_first [] i = []
remove_first (x ∷ xs) i = let rest = remove_first xs i in if x == i then xs else x ∷ rest

-- The index leaves the stack.
pub close_index : List ℤ → ℤ → List ℤ
unfolding last_of drop_last remove_first
close_index stack i = elim (last_of stack) [
  | none ↦ remove_first stack i
  | some top ↦ if top == i then drop_last stack else remove_first stack i
]

-- A `str` that is not empty.
abbrev full_text : Option Json → Option String
full_text (some (text s)) = if s == "" then none else some s
full_text _ = none

abbrev note_message : Tracker → Option Json → Tracker
note_message t (some (object message)) = record t {
  message_id = elim (full_text (lookup message "id")) [ none ↦ t.message_id | some s ↦ some s ];
  model = elim (full_text (lookup message "model")) [ none ↦ t.model | some s ↦ s ];
}
note_message t _ = t

observe : Tracker → SseEvent → Outcome Tracker
unfolding lookup event_index close_index
observe t event =
    if event.event == "message_start"
    then ok (note_message t (lookup event.data_fields "message"))
    else if event.event == "content_block_start"
    then (event_index event >>= λ idx.
        ok
          (record t { max_index = max_int t.max_index idx; open_stack = t.open_stack ++ idx ∷ [] }))
    else if event.event == "content_block_stop"
    then (event_index event >>= λ idx. ok (record t { open_stack = close_index t.open_stack idx }))
    else ok t

-- The events of the frames that were fed.
pub observe_all : Tracker → List SseEvent → Outcome Tracker
unfolding observe
observe_all t [] = ok t
observe_all t (event ∷ events) = observe t event >>= λ t1. observe_all t1 events

-- One more than the greatest index, which is at least -1.
pub next_content_index : Tracker → ℕ
next_content_index t = elim t.max_index [ pos i ↦ suc i | negsuc i ↦ 0 ]

-- `iter_close_unclosed_blocks`: the blocks from the top of the stack on. The stack is empty after it.
pub close_unclosed_blocks : Tracker → List SseEvent
close_unclosed_blocks t = map content_block_stop (reverse t.open_stack)

-- `iter_midstream_error_tail`, where `fresh_id` is the drawn id and `request_model` the request's.
pub midstream_error_tail : Tracker → String → String → Option ℤ → String → List SseEvent
unfolding next_content_index emit_error message_delta message_stop
midstream_error_tail t fresh_id request_model input_tokens error_message =
    let mid = elim t.message_id as (λ _. String) [
      | none ↦ fresh_id
      | some id ↦ if id == "" then fresh_id else id
    ] in
    let model = if t.model == "" then request_model else t.model in
    let b = record (new_builder mid model input_tokens) { next_index = next_content_index t } in
    let e = emit_error b error_message in
    e.events ++ message_delta e.sse "end_turn" (some (pos 1)) ∷ message_stop ∷ []
