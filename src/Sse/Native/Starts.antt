-- ===== src/Sse/Native/Starts.antt =====
-- core/anthropic/native_sse_block_policy.py: the start of a block, and the delta that reopens one, pass
-- the contract's loop.
use bailian_free_claude_code.Base.{
  String, ◌≡◌, refl, ◌∙◌, Bool, true, false, some, List, [], ◌∷◌, ◌++◌, arith, nat_eq, string_eq,
  Dict, put, ok,
}
use bailian_free_claude_code.Sse.Json.{
  ℤ, pos, int_eq, Json, text, object, Fields, end, field, lookup, assign, SseEvent,
}
use bailian_free_claude_code.Sse.Builder.{block_start, start_thinking, start_text, start_tool_use}
use bailian_free_claude_code.Sse.Contract.{Ledger, check_event, check_events}
use bailian_free_claude_code.Sse.Contract.Steps
use bailian_free_claude_code.Sse.Conforms.Sends.{check-append}
use bailian_free_claude_code.Sse.Native.{
  BlockPolicy, should_drop_block_type, synthetic_close_other_open_blocks, allocate_new_segment,
  transform_start,
}
use bailian_free_claude_code.Base.{ℕ, Option, none, is_some, has, get}
use bailian_free_claude_code.Sse.Native.{UpstreamBlock}
use bailian_free_claude_code.Sse.Native.Upstream.{old_at}
use bailian_free_claude_code.Sse.Native.Upstream.{
  BlockKind, a_text, a_thought, a_tool, opens, kind_name, render,
}
use bailian_free_claude_code.Sse.Native.Tracks.{Tracks, Passes, allocate-Tracks, closed-Tracks}

abbrev pub block_of : BlockKind → Fields
block_of a_text = field "type" (text "text") (field "text" (text "") end)
block_of a_thought = field "type" (text "thinking") (field "thinking" (text "") end)
block_of (a_tool id name) =
    field "type" (text "tool_use")
      (field "id" (text id) (field "name" (text name) (field "input" (object end) end)))

-- The start of a block at the next index, once the others are closed.
abbrev pub started : BlockPolicy → ℤ → BlockKind → BlockPolicy × List SseEvent
started s i kind =
    let (s1, closes) = synthetic_close_other_open_blocks s i in
    (
      allocate_new_segment s1 i (kind_name kind) (some (block_of kind)),
      closes ++ render (opens (pos s1.next_index) kind) ∷ [],
    )

module _ (show : Json → String) (neat : Bool) (types : Dict ℤ String) (s : BlockPolicy) (l : Ledger)
    (i : ℤ) (t : Tracks neat types s l) where
  pub check-opens :
      (kind : BlockKind)
      → check_event show true l (render (opens (pos s.next_index) kind))
        ≡ ok (Steps.opened show l (pos s.next_index) (kind_name kind))
  check-opens a_text =
      let (shut, unseen) = t.fresh s.next_index (omega arith) in
      Steps.check-start_text show l (pos s.next_index) shut unseen
  check-opens a_thought =
      let (shut, unseen) = t.fresh s.next_index (omega arith) in
      Steps.check-start_thinking show l (pos s.next_index) shut unseen
  check-opens (a_tool id name) =
      let (shut, unseen) = t.fresh s.next_index (omega arith) in
      Steps.check-start_tool_use show l (pos s.next_index) shut unseen id name

pub none_old : (o : Option UpstreamBlock) (n : ℕ) → is_some o ≡ false → old_at o n ≡ 0
none_old none n e = refl
none_old (some seg) n e = absurd (ground (arith, e))

pub started-Passes :
    (show : Json → String) (neat neat1 : Bool) (types : Dict ℤ String) (s : BlockPolicy)
    (l : Ledger) (i : ℤ)
    → Tracks neat types s l
    → (neat1 ≡ true → (neat ≡ true) × (has types i ≡ false))
    → (kind : BlockKind) → Passes show neat1 (put types i (kind_name kind)) l (started s i kind)
unfolding check_events
started-Passes show neat neat1 types s l i t once kind =
    let r = synthetic_close_other_open_blocks s i in
    let (l1, passed, t1) = closed-Tracks show neat types s l i t in
    let start = render (opens (pos r.0.next_index) kind) in
    let checked = check-opens show neat types r.0 l1 i t1 kind in
    (
      Steps.opened show l1 (pos r.0.next_index) (kind_name kind),
      check-append show r.1 (start ∷ []) l l1 passed ∙ rw checked refl,
      allocate-Tracks show types r.0 l1 i (kind_name kind) (some (block_of kind)) neat neat1 t1
          (λ e.
            ((once e).0, λ n. none_old (get r.0.by_upstream i) n (t1.started_only i (once e).1))),
    )

pub start-text :
    (thinking_enabled : Bool) (s : BlockPolicy) (i : ℤ)
    → transform_start thinking_enabled s (start_text i) ≡ started s i a_text
unfolding transform_start should_drop_block_type start_text block_start lookup assign
start-text true s i = refl
start-text false s i = refl

pub start-tool :
    (thinking_enabled : Bool) (s : BlockPolicy) (i : ℤ) (id name : String)
    → transform_start thinking_enabled s (start_tool_use i id name) ≡ started s i (a_tool id name)
unfolding transform_start should_drop_block_type start_tool_use block_start lookup assign
start-tool true s i id name = refl
start-tool false s i id name = refl

pub start-thought :
    (s : BlockPolicy) (i : ℤ) → transform_start true s (start_thinking i) ≡ started s i a_thought
unfolding transform_start should_drop_block_type start_thinking block_start lookup assign
start-thought s i = refl

pub start-dropped :
    (s : BlockPolicy) (i : ℤ)
    → transform_start false s (start_thinking i)
      ≡ (record s { dropped_indexes = i ∷ s.dropped_indexes }, [])
unfolding transform_start should_drop_block_type start_thinking block_start lookup assign
start-dropped s i = refl
