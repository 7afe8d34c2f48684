-- ===== src/Sse/Conforms/Blocks.antt =====
-- core/anthropic/sse.py and providers/openai_compat.py: a block that is sent whole, of an error or of
-- a tool found in the text, passes the contract's loop.
use bailian_free_claude_code.Base.{
  suc, String, ◌≡◌, refl, true, false, Option, none, some, List, [], ◌∷◌, arith, nat_eq, string_eq,
  contains, get, remove, has, get-put, get-put_self, get-remove, ok,
}
use bailian_free_claude_code.Sse.Json.{pos, int_eq, int_beq_iff, Json, SseEvent}
use bailian_free_claude_code.Sse.Builder.{
  SseBuilder, start_text, start_tool_use, content_block_delta, content_block_stop,
}
use bailian_free_claude_code.Sse.Builder.Emissions.{close_content_blocks, emit_error}
use bailian_free_claude_code.Sse.Builder.ToolArgs.{JsonCodec}
use bailian_free_claude_code.Sse.Contract.{Ledger, check_event, check_events}
use bailian_free_claude_code.Sse.Contract.Steps
use bailian_free_claude_code.Sse.Transport.{
  ToolUse, task_input, tool_use_block, heuristic_tool_use, heuristic_tool_uses,
}
use bailian_free_claude_code.Sse.Conforms.{Sends}
use bailian_free_claude_code.Sse.Conforms.Sends.{
  skip-Sends, and_then-Sends, next_fresh, start_fresh, start_unopened,
}
use bailian_free_claude_code.Sse.Conforms.Texts.{close_content_blocks-Sends}

module _ (json : JsonCodec) (watch : Option JsonCodec) (show : Json → String) where
  -- A start, a delta and the stop of a block at the next index.
  whole_block :
      (b : SseBuilder) (kind : String) (x1 x2 : SseEvent)
      → ((l : Ledger)
          → has l.open_blocks (pos b.next_index) ≡ false
          → contains l.seen_blocks (pos b.next_index) ≡ false
          → check_event show true l x1 ≡ ok (Steps.opened show l (pos b.next_index) kind))
      → ((l : Ledger)
          → get l.open_blocks (pos b.next_index) ≡ some kind
          → check_event show true l x2 ≡ ok l)
      → Sends watch show b (record {
        sse = record b { next_index = suc b.next_index };
        events = x1 ∷ x2 ∷ content_block_stop (pos b.next_index) ∷ [];
        failure = none;
      })
  unfolding check_events
  whole_block b kind x1 x2 first second l c =
      let n = pos b.next_index in
      let (shut, fresh) = next_fresh watch show b l c in
      let l1 = Steps.opened show l n kind in
      let open_now = get-put_self l.open_blocks n kind in
      (
        record l1 { open_blocks = remove l1.open_blocks n },
        ground (
          arith,
          first l shut fresh,
          second l1 open_now,
          Steps.check-stop show l1 n (ground (arith, open_now)),
        ),
        record {
          kinds = λ i. ground (
            arith,
            get-remove l1.open_blocks n i,
            get-put l.open_blocks n kind i,
            int_beq_iff n i,
            c.kinds i,
            shut,
          );
          once = c.once;
          fresh = start_fresh watch show b l kind c;
          unopened = λ i e.
              ground
                (arith, get-remove l1.open_blocks n i, start_unopened watch show b l kind c i e);
          used = λ e. ground arith;
          begun = λ e. refl;
          calm = c.calm;
        },
      )

  pub emit_error-Sends :
      (b : SseBuilder) (error_message : String) → Sends watch show b (emit_error b error_message)
  unfolding emit_error
  emit_error-Sends b error_message =
      let n = pos b.next_index in
      whole_block b "text" (start_text n) (content_block_delta n "text_delta" error_message)
        (λ l shut fresh. Steps.check-start_text show l n shut fresh)
        (λ l e. Steps.check-text_delta show l n error_message e)

  heuristic_tool_use-Sends :
      (b : SseBuilder) (tool_use : ToolUse)
      → Sends watch show b (heuristic_tool_use json b tool_use)
  unfolding heuristic_tool_use tool_use_block
  heuristic_tool_use-Sends b tool_use =
      let b1 = (close_content_blocks b).sse in
      let n = pos b1.next_index in
      let content = json.dumps (task_input json tool_use) in
      and_then-Sends watch show b (close_content_blocks b) (λ b2. tool_use_block json b2 tool_use)
        (close_content_blocks-Sends watch show b)
        (whole_block b1 "tool_use" (start_tool_use n tool_use.id tool_use.name)
          (content_block_delta n "input_json_delta" content)
          (λ l shut fresh. Steps.check-start_tool_use show l n shut fresh tool_use.id tool_use.name)
          (λ l e. Steps.check-json_delta show l n content e))

  pub heuristic_tool_uses-Sends :
      (tool_uses : List ToolUse) (b : SseBuilder)
      → Sends watch show b (heuristic_tool_uses json b tool_uses)
  unfolding heuristic_tool_uses
  heuristic_tool_uses-Sends [] b = skip-Sends watch show b
  heuristic_tool_uses-Sends (tool_use ∷ tool_uses) b =
      and_then-Sends watch show b (heuristic_tool_use json b tool_use)
        (λ b1. heuristic_tool_uses json b1 tool_uses) (heuristic_tool_use-Sends b tool_use)
        (heuristic_tool_uses-Sends tool_uses (heuristic_tool_use json b tool_use).sse)
