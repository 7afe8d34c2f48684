-- ===== src/Sse/Conforms/Finish.antt =====
-- providers/openai_compat.py: what follows the loop of `_stream_response_impl` completes the stream.
use bailian_free_claude_code.Base.{
  ℕ, String, ◌≡◌, refl, ap, ◌∙◌, inl, inr, Bool, true, not, ◌&&◌, Option, none, some, List, [], ◌∷◌,
  arith, ltb, Bool-cases, Option-cases, ◌==◌, nat_eq, string_eq, Dict, get, Outcome, ok, raised,
}
use bailian_free_claude_code.Base.{Exception, ◌⊎◌, ◌>>=◌, false}
use bailian_free_claude_code.Sse.Json.{ℤ, pos, negsuc, int_eq, int_beq_iff, Json}
use bailian_free_claude_code.Sse.Builder.{ToolCallState, SseBuilder}
use bailian_free_claude_code.Sse.Builder.Emissions.{
  Emission, failed, and_then, emit_tool_delta, close_content_blocks, close_all_blocks,
}
use bailian_free_claude_code.Sse.Builder.ToolArgs.{JsonCodec, any_started, flush_states}
use bailian_free_claude_code.Sse.Contract.{Ledger, check_events, is_empty}
use bailian_free_claude_code.Sse.Strings.{strip}
use bailian_free_claude_code.Sse.Transport.{
  ToolUse, heuristic_tool_use, heuristic_tool_uses, emit_tool_deltas, flush_task_arg_buffers,
}
use bailian_free_claude_code.Sse.Conforms.{is_allocated, Conforms, Sends}
use bailian_free_claude_code.Sse.Conforms.Sends.{skip-Sends}
use bailian_free_claude_code.Sse.Conforms.Texts.{send_thinking-Sends, send_text-Sends}
use bailian_free_claude_code.Sse.Builder.{map_stop_reason}
use bailian_free_claude_code.Sse.Builder.Emissions.{
  ensure_text_block, emit_text_delta, start_text_block, stop_thinking_block, stop_text_block,
}
use bailian_free_claude_code.Sse.Builder.ToolArgs.{
  accumulated_text, accumulated_reasoning, estimate_output_tokens,
}
use bailian_free_claude_code.Sse.Transport.{ContentChunk, plain, thinking, ThinkParser, ToolParser}
use bailian_free_claude_code.Sse.Transport.Stream.{
  Locals, has_content_blocks, finish_stream, send_remaining, send_minimal_text, send_text,
  send_thinking, output_tokens, last_two,
}
use bailian_free_claude_code.Sse.Conforms.Texts.{send_text-Sends, send_thinking-Sends}
use bailian_free_claude_code.Sse.Conforms.Blocks.{heuristic_tool_uses-Sends}
use bailian_free_claude_code.Sse.Conforms.Flush.{Runs, flush-Runs}
use bailian_free_claude_code.Sse.Conforms.Close.{close_all-Runs, close_keeps}
use mathlib.Core.Path.{subst}
use bailian_free_claude_code.Sse.Conforms.{after}
use bailian_free_claude_code.Sse.Builder.Emissions.{
  ensure_thinking_block, emit_thinking_delta, start_thinking_block,
}
use bailian_free_claude_code.Sse.Transport.{tool_use_block}
use bailian_free_claude_code.Sse.Conforms.Endings.{Ends, and_then-Ends, last_two-Completes}

and_then_succeeds :
    (e : Emission) (rest : SseBuilder → Emission)
    → e.failure ≡ none
    → (rest e.sse).failure ≡ none
    → (and_then e rest).failure ≡ none
unfolding and_then
and_then_succeeds e rest first second = rw (and_then, first) second

send_text_succeeds :
    (b : SseBuilder) (content : String)
    → ((send_text b content).failure ≡ none) × ((send_text b content).sse.text_started ≡ true)
unfolding send_text ensure_text_block emit_text_delta start_text_block stop_thinking_block and_then
send_text_succeeds b content = (ground arith, ground arith)

send_thinking_succeeds :
    (b : SseBuilder) (content : String) → (send_thinking b content).failure ≡ none
unfolding send_thinking ensure_thinking_block emit_thinking_delta start_thinking_block
    stop_text_block and_then
send_thinking_succeeds b content = ground arith

tool_use_succeeds :
    (json : JsonCodec) (b : SseBuilder) (tool_use : ToolUse)
    → (heuristic_tool_use json b tool_use).failure ≡ none
unfolding heuristic_tool_use tool_use_block close_content_blocks stop_thinking_block stop_text_block
    and_then
tool_use_succeeds json b tool_use = ground arith

tool_uses_succeed :
    (json : JsonCodec) (tool_uses : List ToolUse) (b : SseBuilder)
    → (heuristic_tool_uses json b tool_uses).failure ≡ none
unfolding heuristic_tool_uses
tool_uses_succeed json [] b = refl
tool_uses_succeed json (tool_use ∷ tool_uses) b =
    and_then_succeeds (heuristic_tool_use json b tool_use)
      (λ b1. heuristic_tool_uses json b1 tool_uses) (tool_use_succeeds json b tool_use)
      (tool_uses_succeed json tool_uses (heuristic_tool_use json b tool_use).sse)

allocated_some : (n : ℕ) (i : ℤ) → is_allocated n i ≡ true → ltb 0 n ≡ true
allocated_some n (pos i) e = ground (arith, e)
allocated_some n (negsuc i) e = ground (arith, e)

-- A builder with an open text block has allocated an index.
text_next :
    (watch : Option JsonCodec) (b : SseBuilder) (l : Ledger)
    → Conforms watch b l
    → b.text_started ≡ true
    → ltb 0 b.next_index ≡ true
text_next watch b l c on = elim (Bool-cases (is_allocated b.next_index b.text_index)) [
  | inl given ↦ allocated_some b.next_index b.text_index given
  | inr never ↦
      let i = b.text_index in
      absurd (ground (arith, c.unopened i never, c.kinds i, on, (int_beq_iff i i).1 refl))
]

delta_next :
    (b : SseBuilder) (k : ℕ) (out : String)
    → (emit_tool_delta b k out).sse.next_index ≡ b.next_index
unfolding emit_tool_delta
delta_next b k out = ground (arith, Option-cases (get b.tool_states k))

and_then_next :
    (e : Emission) (rest : SseBuilder → Emission)
    → (rest e.sse).sse.next_index ≡ e.sse.next_index
    → (and_then e rest).sse.next_index ≡ e.sse.next_index
unfolding and_then
and_then_next e rest same = elim (Option-cases e.failure) [
  | inl none_failed ↦ rw (and_then, none_failed) same
  | inr (x, some_failed) ↦ rw (and_then, some_failed) refl
]

deltas_next :
    (results : List (ℕ × String)) (b : SseBuilder)
    → (emit_tool_deltas b results).sse.next_index ≡ b.next_index
unfolding emit_tool_deltas
deltas_next [] b = refl
deltas_next ((k, out) ∷ results) b =
    and_then_next (emit_tool_delta b k out) (λ b1. emit_tool_deltas b1 results)
      (deltas_next results (emit_tool_delta b k out).sse)
    ∙ delta_next b k out

flush_next :
    (json : JsonCodec) (b : SseBuilder)
    → (flush_task_arg_buffers json b).sse.next_index ≡ b.next_index
unfolding flush_task_arg_buffers
flush_next json b = by_result (flush_states json b.tool_states)
  where
    by_result :
        (r : Outcome (Dict ℕ ToolCallState × List (ℕ × String)))
        → (elim r as (λ _. Emission) [
          | raised x ↦ failed b x
          | ok flushed ↦ emit_tool_deltas (record b { tool_states = flushed.0 }) flushed.1
        ]).sse.next_index
          ≡ b.next_index
    by_result (raised x) = refl
    by_result (ok flushed) = deltas_next flushed.1 (record b { tool_states = flushed.0 })

-- An emission that sends and has not failed.
run_of :
    (watch : Option JsonCodec) (show : Json → String) (b : SseBuilder) (e : Emission) (l : Ledger)
    → Sends watch show b e
    → e.failure ≡ none
    → Conforms watch b l
    → (l1 : Ledger) × Runs show l e l1 × Conforms watch e.sse l1
run_of watch show b e l sends succeeds c =
    let (l1, passed, c1) = sends l c in
    (l1, (succeeds, passed), subst (λ w. Conforms w e.sse l1) (ap (after watch) succeeds) c1)

-- What the minimal text is asked to do: an index is allocated after it.
abbrev Begins : JsonCodec → (Json → String) → Ledger → Emission → Type 0
Begins json show l e =
    (l1 : Ledger) × Runs show l e l1
    × Conforms (some json) e.sse l1
    × (ltb 0 e.sse.next_index ≡ true)

text-Begins :
    (json : JsonCodec) (show : Json → String) (b : SseBuilder) (l : Ledger)
    → Conforms (some json) b l
    → Begins json show l (send_text b " ")
text-Begins json show b l c =
    let sent = send_text_succeeds b " " in
    let (l1, runs, c1) =
      run_of (some json) show b (send_text b " ") l (send_text-Sends (some json) show b " ") sent.0
        c in
    (l1, runs, c1, text_next (some json) (send_text b " ").sse l1 c1 sent.1)

minimal_text-Begins :
    (json : JsonCodec) (show : Json → String) (b : SseBuilder) (l : Ledger)
    → Conforms (some json) b l
    → Begins json show l (send_minimal_text b)
unfolding send_minimal_text check_events
minimal_text-Begins json show b l c =
    let only_thoughts =
      not (any_started b.tool_states)
      && strip (accumulated_text b) == ""
      && not (strip (accumulated_reasoning b) == "") in
    elim (Bool-cases (has_content_blocks b)) [
      | inr empty ↦ rw empty (text-Begins json show b l c)
      | inl begun ↦ elim (Bool-cases only_thoughts) [
        | inl silent ↦ rw (begun, silent) (text-Begins json show b l c)
        | inr enough ↦ rw (begun, enough) (l, (refl, refl), c, c.used begun)
      ]
    ]

module _ (json : JsonCodec) (think : ThinkParser) (tools : ToolParser)
    (encoder : Option (String → Outcome ℕ)) (message_of : Exception → String)
    (thinking_enabled : Bool) (show : Json → String) where
  send_remaining-Sends :
      (b : SseBuilder) (rest : Option ContentChunk)
      → Sends
          (some json)
          show
          b
          (send_remaining json think tools encoder message_of thinking_enabled b rest)
        × ((send_remaining json think tools encoder message_of thinking_enabled b rest).failure
            ≡ none)
  unfolding send_remaining
  send_remaining-Sends b none = (skip-Sends (some json) show b, refl)
  send_remaining-Sends b (some (plain content)) =
      (send_text-Sends (some json) show b content, (send_text_succeeds b content).0)
  send_remaining-Sends b (some (thinking content)) = elim (Bool-cases thinking_enabled) [
    | inl on ↦
        rw on (send_thinking-Sends (some json) show b content, send_thinking_succeeds b content)
    | inr off ↦ rw off (skip-Sends (some json) show b, refl)
  ]

  Outcome-cases :
      {A : Type 0} (r : Outcome A) → ((a : A) × (r ≡ ok a)) ⊎ ((x : Exception) × (r ≡ raised x))
  Outcome-cases (ok a) = inl (a, refl)
  Outcome-cases (raised x) = inr (x, refl)

  estimated :
      (b : SseBuilder)
      → ((n : ℤ) × ((estimate_output_tokens encoder b >>= λ m. ok (pos m)) ≡ ok n))
        ⊎ ((x : Exception) × (((estimate_output_tokens encoder b >>= λ m. ok (pos m)) ≡ raised x)
              × (estimate_output_tokens encoder b ≡ raised x)))
  estimated b = elim (Outcome-cases (estimate_output_tokens encoder b)) [
    | inl (m, e) ↦ inl (pos m, rw e refl)
    | inr (x, e) ↦ inr (x, (rw e refl, e))
  ]

  counted :
      (b : SseBuilder) (usage_info : Option (Option ℤ))
      → ((n : ℤ) × (output_tokens json think tools encoder message_of thinking_enabled b usage_info
            ≡ ok n))
        ⊎ ((x : Exception) × ((output_tokens json think tools encoder message_of thinking_enabled b
                  usage_info
                ≡ raised x)
              × (estimate_output_tokens encoder b ≡ raised x)))
  unfolding output_tokens
  counted b (some (some n)) = inl (n, refl)
  counted b (some none) = estimated b
  counted b none = estimated b

  -- The last two events close the stream, unless the count of the tokens raises.
  last_two-Ends :
      (b : SseBuilder) (v : Locals think tools) (l : Ledger)
      → is_empty l.open_blocks ≡ true
      → is_empty l.seen_blocks ≡ false
      → Ends encoder show l (
          last_two json think tools encoder message_of thinking_enabled b v.finish_reason
            (output_tokens json think tools encoder message_of thinking_enabled b v.usage_info))
  unfolding last_two
  last_two-Ends b v l closed nonempty = elim (counted b v.usage_info) [
    | inl (n, e) ↦ inl (
        rw (last_two, e)
          (last_two-Completes show b (map_stop_reason v.finish_reason) (some n) l closed nonempty))
    | inr (x, (e, raises)) ↦ inr (x, rw (last_two, e) raises)
  ]

  -- What follows the loop closes the stream.
  pub finish_stream-Ends :
      (caught : (buffer : String) → json.escapes buffer ≡ none) (b : SseBuilder)
      (v : Locals think tools) (l : Ledger)
      → Conforms (some json) b l
      → Ends encoder show l (finish_stream json think tools encoder message_of thinking_enabled b v)
  unfolding finish_stream
  finish_stream-Ends caught b v l c =
      let e1 =
        send_remaining json think tools encoder message_of thinking_enabled b
          (think.flush v.think_state) in
      let (sends1, ok1) = send_remaining-Sends b (think.flush v.think_state) in
      let (l1, runs1, c1) = run_of (some json) show b e1 l sends1 ok1 c in
      let uses = tools.flush v.tool_state in
      let e2 = heuristic_tool_uses json e1.sse uses in
      let (l2, runs2, c2) =
        run_of (some json) show e1.sse e2 l1
          (heuristic_tool_uses-Sends json (some json) show uses e1.sse)
          (tool_uses_succeed json uses e1.sse) c1 in
      let e3 = send_minimal_text e2.sse in
      let (l3, runs3, c3, begun) = minimal_text-Begins json show e2.sse l2 c2 in
      let e4 = flush_task_arg_buffers json e3.sse in
      let (l4, runs4, c4) = flush-Runs json show caught e3.sse l3 c3 in
      let e5 = close_all_blocks e4.sse in
      let (l5, runs5, closed, c5) = close_all-Runs none show e4.sse l4 c4 in
      let next : e5.sse.next_index ≡ e3.sse.next_index =
        (close_keeps e4.sse).1 ∙ flush_next json e3.sse in
      let ending : SseBuilder → Emission = λ b5.
        last_two json think tools encoder message_of thinking_enabled b5 v.finish_reason
          (output_tokens json think tools encoder message_of thinking_enabled b5 v.usage_info) in
      let closing : SseBuilder → Emission = λ b4. and_then (close_all_blocks b4) ending in
      let flushing : SseBuilder → Emission =
        λ b3. and_then (flush_task_arg_buffers json b3) closing in
      let filling : SseBuilder → Emission = λ b2. and_then (send_minimal_text b2) flushing in
      let using : SseBuilder → Emission =
        λ b1. and_then (heuristic_tool_uses json b1 uses) filling in
      and_then-Ends encoder show l l1 e1 using runs1 (
        and_then-Ends encoder show l1 l2 e2 filling runs2 (
          and_then-Ends encoder show l2 l3 e3 flushing runs3 (
            and_then-Ends encoder show l3 l4 e4 closing runs4 (
              and_then-Ends encoder show l4 l5 e5 ending runs5
                (last_two-Ends e5.sse v l5 closed (c5.begun (ap (ltb 0) next ∙ begun)))))))
