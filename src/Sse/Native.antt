-- ===== src/Sse/Native.antt =====
-- core/anthropic/native_sse_block_policy.py: `transform_native_sse_block_event`, from the parsed event
-- on. A text that is no event with a name and a JSON object passes unchanged in the code, and is left
-- out here; so is the text format. Dropping an event gives no events.
pub mod Upstream
pub mod Branches
pub mod Tracks
pub mod Starts
pub mod Deltas
pub mod Stops
pub mod Only
pub mod Accepted
mod Tests
use bailian_free_claude_code.Base.{
  ℕ, zero, suc, ◌+◌, ◌-◌, ◌*◌, ◌^◌, ◌≤◌, ◌<◌, String, ◌≡◌, refl, sym, ap, ◌∙◌, ◌≢◌, ◌↔◌, ◌⊎◌, inl,
  inr, Bool, true, false, not, ◌&&◌, ◌||◌, Option, none, some, List, [], ◌∷◌, ◌++◌, map, arith,
  eq_iff, ltb, leb, if◌then◌else◌, leb→le, Bool-cases, Option-cases, Eq, ◌==◌, nat_eq, string_eq,
  beq_refl, length, All, filter_by, contains, count, contains-append, Dict, keys, values, is_some,
  get, put, remove, modify, has, get-put, get-put_self, get-remove, get-modify, keys-modify,
  get-nil, dict_laws, value_error, key_error, Outcome, ok, raised, ◌>>=◌, truthy,
}
use Prim.Native.String.{◌++◌ as append_text, find, len}
use bailian_free_claude_code.Sse.Json.{
  ℤ, pos, negsuc, int_eq, Json, null, boolean, number, text, array, object, Fields, end, field,
  lookup, assign, SseEvent,
}
use bailian_free_claude_code.Sse.Builder.{block_start, content_block_stop}

-- `_UpstreamBlockState`
pub record UpstreamBlock : Type 0 where
  pub block_type : String
  pub down_index : ℕ
  pub is_open : Bool
  pub last_start_block : Option Fields

-- `NativeSseBlockPolicyState`; sets of indices are lists. `message_stopped` is left out, since the
-- function does not read it.
pub record BlockPolicy : Type 0 where
  pub next_index : ℕ
  pub by_upstream : Dict ℤ UpstreamBlock
  pub dropped_indexes : List ℤ
  pub pending_suppressed_stops : List ℤ

abbrev new_policy : BlockPolicy
new_policy = record {
  next_index = 0;
  by_upstream = [];
  dropped_indexes = [];
  pending_suppressed_stops = [];
}

-- `set.discard`
abbrev discard : List ℤ → ℤ → List ℤ
discard s i = filter_by (λ x. not (x == i)) s

abbrev starts_with : String → String → Bool
starts_with s start = find s start == 0

-- `part in s`
abbrev has_part : String → String → Bool
has_part s part = leb (find s part) (len s)

-- `isinstance(value, int)`, which `True` and `False` are too
abbrev as_index : Option Json → Option ℤ
as_index (some (number i)) = some i
as_index (some (boolean true)) = some (pos 1)
as_index (some (boolean false)) = some (pos 0)
as_index _ = none

abbrev as_dict : Option Json → Option Fields
as_dict (some (object fields)) = some fields
as_dict _ = none

abbrev as_text : Option Json → Option String
as_text (some (text s)) = some s
as_text _ = none

should_drop_block_type : Bool → Option Json → Bool
should_drop_block_type thinking_enabled block_type = elim (as_text block_type) [
  | none ↦ false
  | some t ↦
      if starts_with t "redacted_thinking"
      then not thinking_enabled
      else not thinking_enabled && has_part t "thinking"
]

delta_type_to_block_kind : Option Json → Option String
delta_type_to_block_kind delta_type = elim (as_text delta_type) [
  | none ↦ none
  | some t ↦
      if t == "thinking_delta" || t == "signature_delta"
      then some "thinking"
      else if t == "text_delta"
      then some "text"
      else if t == "input_json_delta"
      then some "tool_use"
      else none
]

abbrev or_text : Option String → String → String
or_text none other = other
or_text (some s) other = s

abbrev or_dict : Option Fields → Fields
or_dict none = end
or_dict (some fields) = fields

abbrev full_or : Option String → String → String
full_or none other = other
full_or (some s) other = if s == "" then other else s

-- `show` is Python's `str` of a value.
module _ (show : Json → String) where
  -- The block of a `tool_use`, from the stored one if it is such a block.
  unfoldable synthetic_tool_block : ℤ → Option Fields → Fields
  synthetic_tool_block upstream_index stored =
      let fallback = append_text "toolu_or_" (show (number upstream_index)) in
      let kept = or_dict stored in
      field "type" (text "tool_use") (
        field "id" (text (full_or (as_text (lookup kept "id")) fallback)) (
          field "name" (text (or_text (as_text (lookup kept "name")) ""))
            (field "input" (object (or_dict (as_dict (lookup kept "input")))) end)))

  -- `_synthetic_start_content_block`
  synthetic_start_content_block : String → ℤ → Option Fields → Fields
  unfolding synthetic_tool_block
  synthetic_start_content_block block_kind upstream_index stored_tool_block =
      if block_kind == "tool_use"
      then synthetic_tool_block upstream_index stored_tool_block
      else if block_kind == "thinking"
      then field "type" (text "thinking") (field "thinking" (text "") end)
      else field "type" (text "text") (field "text" (text "") end)

-- `_synthetic_close_other_open_blocks`: the blocks afterwards, the stops, and the indices whose stop
-- is to be suppressed.
pub close_others : Dict ℤ UpstreamBlock → ℤ → Dict ℤ UpstreamBlock × (List SseEvent × List ℤ)
close_others [] current = ([], ([], []))
close_others ((upstream, seg) ∷ d) current =
    let rest = close_others d current in
    if upstream == current || not seg.is_open then ((upstream, seg) ∷ rest.0, rest.1) else (
      (upstream, record seg { is_open = false }) ∷ rest.0,
      (content_block_stop (pos seg.down_index) ∷ rest.1.0, upstream ∷ rest.1.1),
    )

pub synthetic_close_other_open_blocks : BlockPolicy → ℤ → BlockPolicy × List SseEvent
unfolding close_others
synthetic_close_other_open_blocks s current =
    let (blocks, (stops, upstreams)) = close_others s.by_upstream current in
    (
      record s {
        by_upstream = blocks;
        pending_suppressed_stops = upstreams ++ s.pending_suppressed_stops;
      },
      stops,
    )

-- `_allocate_new_segment`, which gives `next_index`
pub allocate_new_segment : BlockPolicy → ℤ → String → Option Fields → BlockPolicy
allocate_new_segment s upstream_index block_type last_start_block = record s {
  next_index = suc s.next_index;
  by_upstream = put s.by_upstream upstream_index (record {
    block_type = block_type;
    down_index = s.next_index;
    is_open = true;
    last_start_block = last_start_block;
  });
}

-- `payload["index"] = idx`
abbrev with_index : SseEvent → ℕ → SseEvent
with_index event idx = record event {
  data_fields = assign event.data_fields "index" (number (pos idx));
}

pub transform_start : Bool → BlockPolicy → SseEvent → BlockPolicy × List SseEvent
unfolding assign should_drop_block_type synthetic_close_other_open_blocks allocate_new_segment
transform_start thinking_enabled s event =
    elim (as_dict (lookup event.data_fields "content_block")) [
      | none ↦ (s, event ∷ [])
      | some block ↦ elim (as_index (lookup event.data_fields "index")) [
        | none ↦ (s, event ∷ [])
        | some upstream_index ↦
            if should_drop_block_type thinking_enabled (lookup block "type")
            then (record s { dropped_indexes = upstream_index ∷ s.dropped_indexes }, [])
            else elim (as_text (lookup block "type")) [
              | none ↦ (s, event ∷ [])
              | some block_type ↦
                  let (s1, stops) = synthetic_close_other_open_blocks s upstream_index in
                  (
                    allocate_new_segment s1 upstream_index block_type (some block),
                    stops ++ with_index event s1.next_index ∷ [],
                  )
            ]
      ]
    ]

-- A synthetic start at the next index, and the delta there.
abbrev reopen :
    BlockPolicy → SseEvent → ℤ → String → Fields → Option Fields → BlockPolicy × List SseEvent
reopen s event upstream_index block_kind block stored = (
  allocate_new_segment s upstream_index block_kind stored,
  block_start (pos s.next_index) block ∷ with_index event s.next_index ∷ [],
)

-- The stored block, where it is one of a tool.
abbrev stored_tool : Option Fields → Option Fields
stored_tool none = none
stored_tool (some block) =
    if or_text (as_text (lookup block "type")) "" == "tool_use" then some block else none

module _ (show : Json → String) where
  -- A delta of a known kind that is not dropped.
  place_delta : BlockPolicy → SseEvent → ℤ → String → BlockPolicy × List SseEvent
  unfolding synthetic_start_content_block allocate_new_segment assign block_start
  place_delta s event upstream_index block_kind = elim (get s.by_upstream upstream_index) [
    | some seg ↦
        if seg.is_open
        then (s, with_index event seg.down_index ∷ [])
        else reopen
            (record s {
              pending_suppressed_stops = discard s.pending_suppressed_stops upstream_index;
            })
            event upstream_index block_kind
            (synthetic_start_content_block show block_kind upstream_index
              (stored_tool seg.last_start_block))
            seg.last_start_block
    | none ↦
        let block = synthetic_start_content_block show block_kind upstream_index none in
        if block_kind == "text" || block_kind == "tool_use"
        then reopen s event upstream_index block_kind block (some block)
        else (s, event ∷ [])
  ]

  pub transform_delta : Bool → BlockPolicy → SseEvent → BlockPolicy × List SseEvent
  unfolding should_drop_block_type delta_type_to_block_kind place_delta
  transform_delta thinking_enabled s event = elim (as_dict (lookup event.data_fields "delta")) [
    | none ↦ (s, event ∷ [])
    | some delta ↦ elim (as_index (lookup event.data_fields "index")) [
      | none ↦ (s, event ∷ [])
      | some upstream_index ↦
          if contains s.dropped_indexes upstream_index
            || should_drop_block_type thinking_enabled (lookup delta "type")
          then (s, [])
          else elim (delta_type_to_block_kind (lookup delta "type")) [
            | none ↦ (s, event ∷ [])
            | some block_kind ↦ place_delta s event upstream_index block_kind
          ]
    ]
  ]

close_segment :
    Bool → BlockPolicy → SseEvent → ℤ → Option UpstreamBlock → BlockPolicy × List SseEvent
unfolding assign
close_segment thinking_enabled s event upstream_index none =
    (s, if thinking_enabled then event ∷ [] else [])
close_segment thinking_enabled s event upstream_index (some seg) =
    if seg.is_open
    then (
      record s { by_upstream = put s.by_upstream upstream_index (record seg { is_open = false }) },
      with_index event seg.down_index ∷ [],
    )
    else (s, [])

pub transform_stop : Bool → BlockPolicy → SseEvent → BlockPolicy × List SseEvent
unfolding close_segment
transform_stop thinking_enabled s event = elim (as_index (lookup event.data_fields "index")) [
  | none ↦ (s, event ∷ [])
  | some upstream_index ↦
      if contains s.dropped_indexes upstream_index
      then (s, [])
      else if contains s.pending_suppressed_stops upstream_index
      then (
        record s { pending_suppressed_stops = discard s.pending_suppressed_stops upstream_index },
        [],
      )
      else close_segment thinking_enabled s event upstream_index (get s.by_upstream upstream_index)
]

module _ (show : Json → String) where
  pub transform : Bool → BlockPolicy → SseEvent → BlockPolicy × List SseEvent
  unfolding transform_start transform_delta transform_stop
  transform thinking_enabled s event =
      if event.event == "content_block_start"
      then transform_start thinking_enabled s event
      else if event.event == "content_block_delta"
      then transform_delta show thinking_enabled s event
      else if event.event == "content_block_stop"
      then transform_stop thinking_enabled s event
      else (s, event ∷ [])

  -- The events of a stream, one after the other.
  pub transform_all : Bool → BlockPolicy → List SseEvent → BlockPolicy × List SseEvent
  unfolding transform
  transform_all thinking_enabled s [] = (s, [])
  transform_all thinking_enabled s (event ∷ events) =
      let first = transform thinking_enabled s event in
      let rest = transform_all thinking_enabled first.0 events in (rest.0, first.1 ++ rest.1)
