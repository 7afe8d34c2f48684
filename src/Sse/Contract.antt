-- ===== src/Sse/Contract.antt =====
-- core/anthropic/stream_contracts.py: `assert_anthropic_stream_contract` and what it calls. A failed
-- assertion is `raised assertion_error`.
pub mod Steps
use bailian_free_claude_code.Base.{
  ℕ, zero, suc, ◌+◌, ◌-◌, ◌*◌, ◌^◌, ◌≤◌, ◌<◌, String, ◌≡◌, refl, sym, ap, ◌∙◌, ◌≢◌, ◌↔◌, ◌⊎◌, inl,
  inr, Bool, true, false, not, ◌&&◌, ◌||◌, Option, none, some, List, [], ◌∷◌, ◌++◌, map, arith,
  eq_iff, ltb, leb, if◌then◌else◌, leb→le, Bool-cases, Option-cases, Eq, ◌==◌, nat_eq, string_eq,
  beq_refl, length, All, filter_by, contains, contains-append, Dict, keys, values, is_some, get,
  put, remove, modify, has, get-put, get-put_self, get-remove, get-modify, keys-modify, get-nil,
  dict_laws, value_error, key_error, Outcome, ok, raised, ◌>>=◌, truthy,
}
use bailian_free_claude_code.Sse.Strings.{strip}
use bailian_free_claude_code.Base.{assertion_error}
use bailian_free_claude_code.Sse.Json.{
  ℤ, pos, negsuc, int_eq, Json, null, boolean, number, text, array, object, Fields, end, field,
  lookup, SseEvent,
}

-- `_NO_DELTA_BLOCK_KINDS`
abbrev no_delta_block_kinds : List String
no_delta_block_kinds =
    "server_tool_use" ∷ "web_search_tool_result" ∷ "web_fetch_tool_result" ∷ "text_eager"
    ∷ "redacted_thinking" ∷ []

-- `_ALLOWED_BLOCK_START_TYPES`
abbrev allowed_block_start_types : List String
allowed_block_start_types =
    "text" ∷ "thinking" ∷ "tool_use" ∷ "redacted_thinking" ∷ "server_tool_use"
    ∷ "web_search_tool_result" ∷ "web_fetch_tool_result" ∷ []

-- The open blocks with their kinds, and the indices of all blocks that were started.
pub record Ledger : Type 0 where
  pub open_blocks : Dict ℤ String
  pub seen_blocks : List ℤ

abbrev pub no_blocks : Ledger
no_blocks = record { open_blocks = []; seen_blocks = [] }

-- `event_index`; `True` and `False` are integers.
unfoldable pub event_index : SseEvent → Outcome ℤ
event_index event = elim (lookup event.data_fields "index") [
  | some (number index) ↦ ok index
  | some (boolean true) ↦ ok (pos 1)
  | some (boolean false) ↦ ok (pos 0)
  | _ ↦ raised assertion_error
]

-- `event.data.get(key, {})`, which has to be a dict.
unfoldable pub dict_at : SseEvent → String → Outcome Fields
dict_at event key = elim (lookup event.data_fields key) [
  | none ↦ ok end
  | some (object fields) ↦ ok fields
  | _ ↦ raised assertion_error
]

abbrev ensure : Bool → Outcome {0} Unit
ensure true = ok tt
ensure false = raised assertion_error

-- The checks of a delta's type against the kind of its block.
pub check_delta_type : String → String → Outcome {0} Unit
check_delta_type kind delta_type =
    if contains no_delta_block_kinds kind
    then raised assertion_error
    else if kind == "thinking"
    then ensure (delta_type == "thinking_delta" || delta_type == "signature_delta")
    else if kind == "text"
    then ensure (delta_type == "text_delta")
    else if kind == "tool_use"
    then ensure (delta_type == "input_json_delta")
    else raised key_error

abbrev pub event_names : List SseEvent → List String
event_names [] = []
event_names (event ∷ events) = event.event ∷ event_names events

-- `names[-1]`
unfoldable pub last_name : List String → Option String
last_name [] = none
last_name (name ∷ []) = some name
last_name (name ∷ next ∷ names) = last_name (next ∷ names)

abbrev pub is_empty {ℓ} : {A : Type ℓ} → List A → Bool
is_empty [] = true
is_empty (x ∷ xs) = false

-- `show` is `str` of a value that is no string.
module _ (show : Json → String) where
  -- `str(fields.get(key, ""))`
  unfoldable pub text_at : Fields → String → String
  text_at fields key = elim (lookup fields key) [
    | none ↦ ""
    | some (text s) ↦ s
    | some value ↦ show value
  ]

  -- The start of a block of this type, whose text is this.
  unfoldable pub open_block : Ledger → ℤ → String → String → Outcome Ledger
  unfolding strip
  open_block l index block_type block_text =
      if not (contains allowed_block_start_types block_type)
      then raised assertion_error
      else if has l.open_blocks index
      then raised assertion_error
      else if contains l.seen_blocks index
      then raised assertion_error
      else let storage =
          if block_type == "text" && not (strip block_text == "")
          then "text_eager"
          else block_type in
        ok (record {
          open_blocks = put l.open_blocks index storage;
          seen_blocks = index ∷ l.seen_blocks;
        })

  unfoldable pub check_delta : Ledger → ℤ → String → Outcome Ledger
  unfolding check_delta_type
  check_delta l index delta_type = elim (get l.open_blocks index) [
    | none ↦ raised assertion_error
    | some kind ↦ check_delta_type kind delta_type >>= λ _. ok l
  ]

  unfoldable pub close_block : Ledger → ℤ → Outcome Ledger
  close_block l index =
      if has l.open_blocks index
      then ok (record l { open_blocks = remove l.open_blocks index })
      else raised assertion_error

  -- One round of the loop over the events.
  unfoldable pub check_event : Bool → Ledger → SseEvent → Outcome Ledger
  unfolding event_index dict_at text_at open_block check_delta close_block
  check_event allow_error l event =
      if event.event == "error" && not allow_error
      then raised assertion_error
      else if event.event == "content_block_start"
      then (event_index event >>= λ index. dict_at event "content_block" >>= λ block.
          open_block l index (text_at block "type") (text_at block "text"))
      else if event.event == "content_block_delta"
      then (event_index event >>= λ index.
          dict_at event "delta" >>= λ delta. check_delta l index (text_at delta "type"))
      else if event.event == "content_block_stop"
      then (event_index event >>= λ index. close_block l index)
      else ok l

  unfoldable pub check_events : Bool → Ledger → List SseEvent → Outcome Ledger
  unfolding check_event
  check_events allow_error l [] = ok l
  check_events allow_error l (event ∷ events) =
      check_event allow_error l event >>= λ l1. check_events allow_error l1 events

  unfoldable pub assert_anthropic_stream_contract : Bool → List SseEvent → Outcome {0} Unit
  unfolding last_name check_events
  assert_anthropic_stream_contract allow_error events =
      let names = event_names events in
      ensure (not (is_empty events)) >>= λ _. ensure (contains names "message_start") >>= λ _.
      ensure (elim (last_name names) [ none ↦ false | some name ↦ name == "message_stop" ]) >>= λ _.
      check_events allow_error no_blocks events >>= λ l.
      ensure (is_empty l.open_blocks) >>= λ _. ensure (not (is_empty l.seen_blocks))
