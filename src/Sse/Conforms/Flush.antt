-- ===== src/Sse/Conforms/Flush.antt =====
-- core/anthropic/sse.py: `flush_task_arg_buffers` and `close_all_blocks` at the end of a stream.
use bailian_free_claude_code.Base.{
  ℕ, String, ◌≡◌, refl, sym, ap, ◌∙◌, ◌⊎◌, inl, inr, true, false, ◌||◌, Option, none, some, List,
  [], ◌∷◌, arith, ltb, if◌then◌else◌, Bool-cases, Option-cases, ◌==◌, nat_eq, string_eq, beq_refl,
  Dict, get, has, ok,
}
use bailian_free_claude_code.Sse.Json.{ℤ, int_eq, Json}
use bailian_free_claude_code.Sse.Builder.{ToolCallState, SseBuilder}
use bailian_free_claude_code.Sse.Builder.Emissions.{Emission, and_then, emit_tool_delta}
use bailian_free_claude_code.Sse.Builder.ToolArgs.{
  JsonCodec, any_started, read_args, flush_states, flushed_args,
}
use bailian_free_claude_code.Sse.Contract.{Ledger, check_events}
use bailian_free_claude_code.Sse.Transport.{is_started, emit_tool_deltas, flush_task_arg_buffers}
use bailian_free_claude_code.Sse.Conforms.{
  tools_at, thinking_at, text_at_index, Conforms, is_calm, calm_tools,
}
use bailian_free_claude_code.Sse.Conforms.Sends.{check-append}
use mathlib.Core.Path.{subst}
use bailian_free_claude_code.Base.{nat_beq_iff}
use bailian_free_claude_code.Sse.Conforms.{after}
use bailian_free_claude_code.Sse.Conforms.ToolCalls.{emit_tool_delta-Sends}
use bailian_free_claude_code.Sse.Conforms.Calls.{delta_keeps, calm_none}

-- An emission that ends without an exception and whose events pass the contract's loop.
abbrev pub Runs : (Json → String) → Ledger → Emission → Ledger → Type 0
Runs show l e l1 = (e.failure ≡ none) × (check_events show true l e.events ≡ ok l1)

pub and_then-Runs :
    (show : Json → String) (l l1 l2 : Ledger) (e : Emission) (rest : SseBuilder → Emission)
    → Runs show l e l1
    → Runs show l1 (rest e.sse) l2
    → Runs show l (and_then e rest) l2
unfolding and_then
and_then-Runs show l l1 l2 e rest (none_failed, passed) (none_failed2, passed2) =
    subst (λ f. Runs show l (and_then (record e { failure = f }) rest) l2) (sym none_failed)
      (none_failed2, check-append show e.events (rest e.sse).events l l1 passed ∙ passed2)

abbrev AllStarted : Dict ℕ ToolCallState → List (ℕ × String) → Type 0
AllStarted d [] = Unit
AllStarted d ((k, out) ∷ results) = (is_started (get d k) ≡ true) × AllStarted d results

-- What flushing makes of the states.
record Flushed (json : JsonCodec) (d d1 : Dict ℕ ToolCallState) (results : List (ℕ × String))
    : Type 0 where
  pub tools : (i : ℤ) → tools_at d1 i ≡ tools_at d i
  pub any : any_started d1 ≡ any_started d
  pub calm : calm_tools (some json) d1 ≡ true
  pub keys : (k : ℕ) → has d1 k ≡ has d k
  pub started : AllStarted d1 results

started_under :
    (d : Dict ℕ ToolCallState) (k : ℕ) (s : ToolCallState) (results : List (ℕ × String))
    → has d k ≡ false
    → AllStarted d results
    → AllStarted ((k, s) ∷ d) results
unfolding get
started_under d k s [] absent h = tt
started_under d k s ((j, out) ∷ results) absent (on, h) =
    (ground (arith, absent, on, nat_beq_iff k j), started_under d k s results absent h)

module _ (json : JsonCodec) (show : Json → String)
    (caught : (buffer : String) → json.escapes buffer ≡ none) where
  flushed_cases :
      (s : ToolCallState)
      → is_calm (some json) s ≡ true
      → (flushed_args json s ≡ ok none)
        ⊎ ((flushed_args json s ≡ ok (some "{}")) × (s.started ≡ true))
  unfolding flushed_args read_args
  flushed_cases s calm = elim (Bool-cases (s.task_arg_buffer == "" || s.task_args_emitted)) [
    | inl settled ↦ inl (ground (arith, settled))
    | inr open_buffer ↦ inr (
      ground (
        arith,
        open_buffer,
        calm,
        Option-cases (json.loads s.task_arg_buffer),
        caught s.task_arg_buffer,
      ),
      ground (arith, open_buffer, calm),
    )
  ]

  flush_kept :
      (k : ℕ) (s : ToolCallState) (d d1 : Dict ℕ ToolCallState) (results : List (ℕ × String))
      → flushed_args json s ≡ ok none
      → flush_states json d ≡ ok (d1, results)
      → flush_states json ((k, s) ∷ d) ≡ ok ((k, s) ∷ d1, results)
  unfolding flush_states
  flush_kept k s d d1 results kept same = ground (arith, kept, same)

  flush_sent :
      (k : ℕ) (s : ToolCallState) (d d1 : Dict ℕ ToolCallState) (results : List (ℕ × String))
      (out : String)
      → flushed_args json s ≡ ok (some out)
      → flush_states json d ≡ ok (d1, results)
      → flush_states json ((k, s) ∷ d)
        ≡ ok (
          (k, record s { task_args_emitted = true; task_arg_buffer = "" }) ∷ d1,
          (k, out) ∷ results,
        )
  unfolding flush_states
  flush_sent k s d d1 results out sent same = ground (arith, sent, same)

  Flushed-cons :
      (k : ℕ) (s s1 : ToolCallState) (d d1 : Dict ℕ ToolCallState) (results : List (ℕ × String))
      → s1.started ≡ s.started
      → s1.block_index ≡ s.block_index
      → is_calm (some json) s1 ≡ true
      → has d k ≡ false
      → Flushed json d d1 results
      → Flushed json ((k, s) ∷ d) ((k, s1) ∷ d1) results
  unfolding calm_tools tools_at get
  Flushed-cons k s s1 d d1 results on moved calm absent f =
      let tools = f.tools in
      let any = f.any in
      let calm1 = f.calm in
      let keys = f.keys in
      let started = f.started in
      record {
        tools = λ i. rw (on, moved, tools i) refl;
        any = rw (on, any) refl;
        calm = rw (calm, keys k, absent, calm1) refl;
        keys = λ j. elim (Bool-cases (k == j)) [
          | inl here ↦ rw here refl
          | inr there ↦ rw there (keys j)
        ];
        started = started_under d1 k s1 results (keys k ∙ absent) started;
      }

  flush_states-Flushed :
      (d : Dict ℕ ToolCallState)
      → calm_tools (some json) d ≡ true
      → (d1 : Dict ℕ ToolCallState) × (results : List (ℕ × String)) × (flush_states json d
          ≡ ok (d1, results))
        × Flushed json d d1 results
  unfolding flush_states calm_tools tools_at get
  flush_states-Flushed [] calm = (
    [],
    [],
    refl,
    record { tools = λ i. refl; any = refl; calm = refl; keys = λ k. refl; started = tt },
  )
  flush_states-Flushed ((k, s) ∷ d) calm =
      let calm_s : is_calm (some json) s ≡ true = ground (arith, calm) in
      let absent : has d k ≡ false = ground (arith, calm) in
      let (d1, results, same, f) = flush_states-Flushed d (ground (arith, calm)) in
      elim (flushed_cases s calm_s) [
        | inl kept ↦ (
          (k, s) ∷ d1,
          results,
          flush_kept k s d d1 results kept same,
          Flushed-cons k s s d d1 results refl refl calm_s absent f,
        )
        | inr (sent, on) ↦
            let s1 = record s { task_args_emitted = true; task_arg_buffer = "" } in
            let g = Flushed-cons k s s1 d d1 results refl refl refl absent f in
            (
              (k, s1) ∷ d1,
              (k, "{}") ∷ results,
              flush_sent k s d d1 results "{}" sent same,
              record {
                tools = g.tools;
                any = g.any;
                calm = g.calm;
                keys = g.keys;
                started = (rw (beq_refl k) on, g.started);
              },
            )
      ]

all_keep :
    (b : SseBuilder) (k : ℕ) (out : String) (results : List (ℕ × String))
    → AllStarted b.tool_states results
    → AllStarted (emit_tool_delta b k out).sse.tool_states results
all_keep b k out [] h = tt
all_keep b k out ((j, s) ∷ results) (on, h) = (delta_keeps b k j out on, all_keep b k out results h)

delta_succeeds :
    (b : SseBuilder) (k : ℕ) (out : String)
    → is_started (get b.tool_states k) ≡ true
    → (emit_tool_delta b k out).failure ≡ none
unfolding emit_tool_delta
delta_succeeds b k out on = ground (arith, on, Option-cases (get b.tool_states k))

pub and_then_sse :
    (e : Emission) (rest : SseBuilder → Emission)
    → e.failure ≡ none
    → (and_then e rest).sse ≡ (rest e.sse).sse
unfolding and_then
and_then_sse e rest none_failed = rw (and_then, none_failed) refl

emit_tool_deltas-Runs :
    (show : Json → String) (results : List (ℕ × String)) (b : SseBuilder) (l : Ledger)
    → AllStarted b.tool_states results
    → Conforms none b l
    → (l1 : Ledger) × Runs show l (emit_tool_deltas b results) l1
      × Conforms none (emit_tool_deltas b results).sse l1
unfolding emit_tool_deltas check_events
emit_tool_deltas-Runs show [] b l h c = (l, (refl, refl), c)
emit_tool_deltas-Runs show ((k, out) ∷ results) b l (on, h) c =
    let first = emit_tool_delta b k out in
    let succeeds = delta_succeeds b k out on in
    let (l1, passed, c1) = emit_tool_delta-Sends none show b k out on l c in
    let (l2, runs, c2) =
      emit_tool_deltas-Runs show results first.sse l1 (all_keep b k out results h)
        (subst (λ w. Conforms w first.sse l1) (ap (after none) succeeds) c1) in
    (
      l2,
      and_then-Runs show l l1 l2 first (λ b1. emit_tool_deltas b1 results) (succeeds, passed) runs,
      subst (λ b2. Conforms none b2 l2)
          (sym (and_then_sse first (λ b1. emit_tool_deltas b1 results) succeeds)) c2,
    )

pub flush-Runs :
    (json : JsonCodec) (show : Json → String)
    (caught : (buffer : String) → json.escapes buffer ≡ none) (b : SseBuilder) (l : Ledger)
    → Conforms (some json) b l
    → (l1 : Ledger) × Runs show l (flush_task_arg_buffers json b) l1
      × Conforms none (flush_task_arg_buffers json b).sse l1
unfolding flush_task_arg_buffers
flush-Runs json show caught b l c =
    let (d1, results, same, f) = flush_states-Flushed json show caught b.tool_states c.calm in
    let b1 = record b { tool_states = d1 } in
    let c1 : Conforms none b1 l = record {
      kinds = λ i. c.kinds i ∙ ap (λ n. kind_of n i) (sym (f.tools i));
      once = λ i. rw (f.tools i) (c.once i);
      fresh = c.fresh;
      unopened = c.unopened;
      used = λ e. c.used (ground (arith, e, f.any));
      begun = c.begun;
      calm = calm_none json d1 f.calm;
    } in
    rw (flush_task_arg_buffers, same) (emit_tool_deltas-Runs show results b1 l f.started c1)
  where
    kind_of : ℕ → ℤ → Option String
    kind_of n i =
        if thinking_at b i
        then some "thinking"
        else if text_at_index b i
        then some "text"
        else if ltb 0 n
        then some "tool_use"
        else none
