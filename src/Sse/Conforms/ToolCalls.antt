-- ===== src/Sse/Conforms/ToolCalls.antt =====
-- core/anthropic/sse.py and providers/openai_compat.py: the events of tool calls pass the contract's
-- loop.
use bailian_free_claude_code.Base.{
  ℕ, String, ◌≡◌, refl, inl, inr, true, false, Option, none, some, [], ◌∷◌, ◌++◌, arith, Bool-cases,
  Option-cases, ◌==◌, nat_eq, string_eq, get, put, get-put,
}
use bailian_free_claude_code.Sse.Json.{ℤ, pos, int_eq, int_beq_iff, Json}
use bailian_free_claude_code.Sse.Builder.{
  ToolCallState, SseBuilder, start_tool_use, content_block_delta,
}
use bailian_free_claude_code.Sse.Builder.Emissions.{start_tool_block, started_tool, emit_tool_delta}
use bailian_free_claude_code.Sse.Builder.ToolArgs.{JsonCodec, any_started}
use bailian_free_claude_code.Sse.Contract.{Ledger}
use bailian_free_claude_code.Sse.Contract.Steps
use bailian_free_claude_code.Sse.Transport.{is_started}
use bailian_free_claude_code.Sse.Conforms.{bit, stands_at, Conforms, Sends, is_calm, calm_tools}
use bailian_free_claude_code.Sse.Conforms.Tools.{
  old_at, tools_at-put, any_started-put, started-get, calm-get, calm-put, tools_at-get,
}
use bailian_free_claude_code.Sse.Conforms.Sends.{
  yielded-Sends, next_fresh, start_fresh, start_unopened,
}

module _ (watch : Option JsonCodec) (show : Json → String) where
  -- An assignment to a tool's state that moves no block.
  pub put_quiet :
      (b : SseBuilder) (k : ℕ) (s : ToolCallState) (l : Ledger)
      → ((i : ℤ) → bit (stands_at s i) ≡ old_at (get b.tool_states k) i)
      → (s.started ≡ true → is_started (get b.tool_states k) ≡ true)
      → (calm_tools watch b.tool_states ≡ true → is_calm watch s ≡ true)
      → Conforms watch b l
      → Conforms watch (record b { tool_states = put b.tool_states k s }) l
  put_quiet b k s l same on ok_now c =
      let moved = λ (i : ℤ). tools_at-put b.tool_states k s i in
      record {
        kinds = λ i. ground (arith, c.kinds i, moved i, same i);
        once = λ i. ground (arith, c.once i, moved i, same i);
        fresh = c.fresh;
        unopened = c.unopened;
        used = λ e. c.used (elim (Bool-cases (any_started (put b.tool_states k s))) [
          | inl some_on ↦ elim (any_started-put b.tool_states k s some_on) [
            | inl mine ↦ ground (arith, started-get b.tool_states k (on mine))
            | inr old ↦ ground (arith, old)
          ]
          | inr none_on ↦ ground (arith, e, none_on)
        ]);
        begun = c.begun;
        calm = calm-put watch b.tool_states k s c.calm (ok_now c.calm);
      }

  pub start_tool_block-Sends :
      (b : SseBuilder) (k : ℕ) (tool_id name : String)
      → is_started (get b.tool_states k) ≡ false
      → Sends watch show b (start_tool_block b k tool_id name)
  unfolding start_tool_block
  start_tool_block-Sends b k tool_id name off =
      let n = pos b.next_index in
      let s = started_tool n tool_id name (get b.tool_states k) in
      yielded-Sends watch show b (start_tool_block b k tool_id name).sse
        (start_tool_use n tool_id name)
        (λ l c.
          let (shut, fresh) = next_fresh watch show b l c in
          let moved = λ (i : ℤ). tools_at-put b.tool_states k s i in
          let new = λ (i : ℤ). started_at n tool_id name (get b.tool_states k) i in
          (
            Steps.opened show l n "tool_use",
            Steps.check-start_tool_use show l n shut fresh tool_id name,
            record {
              kinds = λ i. ground (
                arith,
                get-put l.open_blocks n "tool_use" i,
                c.kinds i,
                moved i,
                new i,
                off,
                int_beq_iff n i,
                shut,
                Option-cases (get b.tool_states k),
              );
              once = λ i. ground (
                arith,
                c.once i,
                c.kinds i,
                moved i,
                new i,
                off,
                int_beq_iff n i,
                shut,
                Option-cases (get b.tool_states k),
              );
              fresh = start_fresh watch show b l "tool_use" c;
              unopened = start_unopened watch show b l "tool_use" c;
              used = λ e. ground arith;
              begun = λ e. refl;
              calm = calm-put watch b.tool_states k s c.calm (
                  started_calm n tool_id name (get b.tool_states k)
                    (λ r e. calm-get watch b.tool_states k r c.calm e));
            },
          ))
    where
      started_at :
          (n : ℤ) (tool_id name : String) (r : Option ToolCallState) (i : ℤ)
          → stands_at (started_tool n tool_id name r) i ≡ (n == i)
      started_at n tool_id name none i = refl
      started_at n tool_id name (some r) i = refl

      started_calm :
          (n : ℤ) (tool_id name : String) (r : Option ToolCallState)
          → ((s : ToolCallState) → r ≡ some s → is_calm watch s ≡ true)
          → is_calm watch (started_tool n tool_id name r) ≡ true
      started_calm n tool_id name none h = ground (arith, Option-cases watch)
      started_calm n tool_id name (some r) h = ground (arith, h r refl, Option-cases watch)

  pub emit_tool_delta-Sends :
      (b : SseBuilder) (k : ℕ) (partial_json : String)
      → is_started (get b.tool_states k) ≡ true
      → Sends watch show b (emit_tool_delta b k partial_json)
  unfolding emit_tool_delta
  emit_tool_delta-Sends b k partial_json on = elim (Option-cases (get b.tool_states k)) [
    | inl none_there ↦ absurd (ground (arith, on, none_there))
    | inr (s, there) ↦
        let n = s.block_index in
        let s1 = record s { contents = s.contents ++ partial_json ∷ [] } in
        let b1 = record b { tool_states = put b.tool_states k s1 } in
        rw (emit_tool_delta, there)
          (yielded-Sends watch show b b1 (content_block_delta n "input_json_delta" partial_json)
            (λ l c. (
              l,
              Steps.check-json_delta show l n partial_json (
                  ground (
                    arith,
                    c.kinds n,
                    c.once n,
                    tools_at-get b.tool_states k s there (ground (arith, on, there)),
                  )),
              put_quiet b k s1 l (λ i. ground (arith, there)) (λ e. on)
                  (λ e.
                    ground (arith, calm-get watch b.tool_states k s e there, Option-cases watch))
                  c,
            )))
  ]
