-- ===== src/Sse/Conforms/Calls.antt =====
-- providers/openai_compat.py: the events of `_process_tool_call` pass the contract's loop.
use bailian_free_claude_code.Base.{
  ℕ, String, ◌≡◌, refl, sym, inl, inr, true, false, Option, none, some, [], ◌∷◌, ◌++◌, arith,
  Bool-cases, Option-cases, ◌==◌, nat_eq, string_eq, Dict, is_some, get, put, get-put, get-put_self,
  Outcome, ok, raised,
}
use mathlib.Core.Path.{subst}
use bailian_free_claude_code.Base.{Exception, nat_beq_iff}
use Prim.Native.String.{◌++◌ as append_text}
use bailian_free_claude_code.Sse.Json.{int_eq, Json}
use bailian_free_claude_code.Sse.Builder.{ToolCallState, SseBuilder}
use bailian_free_claude_code.Sse.Builder.Emissions.{emit_tool_delta}
use bailian_free_claude_code.Sse.Builder.ToolArgs.{JsonCodec, buffer_task_args, read_args}
use bailian_free_claude_code.Sse.Contract.{Ledger, check_events}
use bailian_free_claude_code.Sse.Transport.{is_started, send_task_args, emit_tool_arg_delta}
use bailian_free_claude_code.Sse.Conforms.{Conforms, Sends, is_calm, calm_tools}
use bailian_free_claude_code.Sse.Conforms.Sends.{skip-Sends}
use bailian_free_claude_code.Sse.Builder.ToolArgs.{buffer_read}
use bailian_free_claude_code.Sse.Conforms.{after}
use bailian_free_claude_code.Sse.Conforms.ToolCalls.{put_quiet, emit_tool_delta-Sends}

abbrev failure_of {ℓ} : {A : Type ℓ} → Outcome A → Option Exception
failure_of (ok a) = none
failure_of (raised x) = some x

-- A delta stops no tool.
pub delta_keeps :
    (b : SseBuilder) (k j : ℕ) (partial_json : String)
    → is_started (get b.tool_states j) ≡ true
    → is_started (get (emit_tool_delta b k partial_json).sse.tool_states j) ≡ true
unfolding emit_tool_delta
delta_keeps b k j partial_json on = elim (Option-cases (get b.tool_states k)) [
  | inl none_there ↦ rw (emit_tool_delta, none_there) on
  | inr (s, there) ↦
      let s1 = record s { contents = s.contents ++ partial_json ∷ [] } in
      rw (emit_tool_delta, there)
        (ground (arith, get-put b.tool_states k s1 j, on, there, nat_beq_iff k j))
]

pub calm_none :
    (json : JsonCodec) (d : Dict ℕ ToolCallState)
    → calm_tools (some json) d ≡ true
    → calm_tools none d ≡ true
unfolding calm_tools
calm_none json [] e = refl
calm_none json ((j, s) ∷ d) e = ground (arith, e, calm_none json d (ground (arith, e)))

module _ (json : JsonCodec) (show : Json → String) where
  -- What a builder keeps of another while a started tool's arguments are handled.
  record Handles (b b1 : SseBuilder) (k : ℕ) (failure : Option Exception) : Type 0 where
    pub conforms :
        (l : Ledger) → Conforms (some json) b l → Conforms (after (some json) failure) b1 l
    pub started : is_started (get b1.tool_states k) ≡ true

  pub forget : (b : SseBuilder) (l : Ledger) → Conforms (some json) b l → Conforms none b l
  forget b l c = record {
    kinds = c.kinds;
    once = c.once;
    fresh = c.fresh;
    unopened = c.unopened;
    used = c.used;
    begun = c.begun;
    calm = calm_none json b.tool_states c.calm;
  }

  read_none : (buffer : String) → read_args json buffer ≡ none → is_some (json.loads buffer) ≡ false
  unfolding read_args
  read_none buffer e = ground (arith, e, Option-cases (json.loads buffer))

  -- A state that is written for a started tool.
  rewritten :
      (b : SseBuilder) (k : ℕ) (s s1 : ToolCallState)
      → get b.tool_states k ≡ some s
      → s.started ≡ true
      → s1.started ≡ true
      → s1.block_index ≡ s.block_index
      → ((calm_tools (some json) b.tool_states ≡ true) → is_calm (some json) s1 ≡ true)
      → Handles b (record b { tool_states = put b.tool_states k s1 }) k none
  rewritten b k s s1 there on on1 moved calm_now = record {
    conforms = λ l c.
        put_quiet (some json) show b k s1 l (λ i. ground (arith, there, on, on1, moved))
          (λ e. ground (arith, there, on)) calm_now c;
    started = ground (arith, get-put_self b.tool_states k s1, on1);
  }

  buffer_read-Handles :
      (b : SseBuilder) (k : ℕ) (s : ToolCallState) (buffer : String) (r : Option (Outcome Json))
      → get b.tool_states k ≡ some s
      → s.started ≡ true
      → (r ≡ none → is_some (json.loads buffer) ≡ false)
      → Handles b (buffer_read b k s buffer r).0 k (failure_of (buffer_read b k s buffer r).1)
  unfolding buffer_read
  buffer_read-Handles b k s buffer none there on unread =
      rewritten b k s (record s { task_arg_buffer = buffer }) there on on refl
        (λ c. ground (arith, unread refl, on))
  buffer_read-Handles b k s buffer (some (ok args_json)) there on unread =
      rewritten b k s (record s { task_args_emitted = true; task_arg_buffer = "" }) there on on refl
        (λ c. refl)
  buffer_read-Handles b k s buffer (some (raised x)) there on unread =
      let s1 = record s { task_arg_buffer = buffer } in
      record {
        conforms = λ l c.
            put_quiet none show b k s1 l (λ i. ground (arith, there, on))
              (λ e. ground (arith, there, on)) (λ e. refl) (forget b l c);
        started = ground (arith, get-put_self b.tool_states k s1, on);
      }

  untouched :
      (b : SseBuilder) (k : ℕ) → is_started (get b.tool_states k) ≡ true → Handles b b k none
  untouched b k on = record { conforms = λ l c. c; started = on }

  buffer_task_args-Handles :
      (b : SseBuilder) (k : ℕ) (args : String)
      → is_started (get b.tool_states k) ≡ true
      → Handles b
          (buffer_task_args json b k args).0
          k
          (failure_of (buffer_task_args json b k args).1)
  unfolding buffer_task_args
  buffer_task_args-Handles b k args on = elim (Option-cases (get b.tool_states k)) [
    | inl none_there ↦ absurd (ground (arith, on, none_there))
    | inr (s, there) ↦ elim (Bool-cases s.task_args_emitted) [
      | inl sent ↦
          let same : buffer_task_args json b k args ≡ (b, ok none) = ground (arith, there, sent) in
          subst (λ v. Handles b v.0 k (failure_of v.1)) (sym same) (untouched b k on)
      | inr unsent ↦
          let buffer = append_text s.task_arg_buffer args in
          let same : buffer_task_args json b k args
              ≡ buffer_read b k s buffer (read_args json buffer) =
            ground (arith, there, unsent) in
          subst (λ v. Handles b v.0 k (failure_of v.1)) (sym same)
            (buffer_read-Handles b k s buffer (read_args json buffer) there
              (ground (arith, on, there)) (read_none buffer))
    ]
  ]

  send_task_args-Sends :
      (b b1 : SseBuilder) (k : ℕ) (r : Outcome (Option Json))
      → Handles b b1 k (failure_of r)
      → Sends (some json) show b (send_task_args json b1 k r)
        × (is_started (get (send_task_args json b1 k r).sse.tool_states k) ≡ true)
  unfolding send_task_args check_events
  send_task_args-Sends b b1 k (raised x) h = (λ l c. (l, refl, h.conforms l c), h.started)
  send_task_args-Sends b b1 k (ok none) h = (λ l c. (l, refl, h.conforms l c), h.started)
  send_task_args-Sends b b1 k (ok (some parsed)) h = (
    λ l c.
        emit_tool_delta-Sends (some json) show b1 k (json.dumps parsed) h.started l
          (h.conforms l c),
    delta_keeps b1 k k (json.dumps parsed) h.started,
  )

  pub emit_tool_arg_delta-Sends :
      (b : SseBuilder) (k : ℕ) (args : String)
      → is_started (get b.tool_states k) ≡ true
      → Sends (some json) show b (emit_tool_arg_delta json b k args)
        × (is_started (get (emit_tool_arg_delta json b k args).sse.tool_states k) ≡ true)
  unfolding emit_tool_arg_delta
  emit_tool_arg_delta-Sends b k args on = elim (Option-cases (get b.tool_states k)) [
    | inl none_there ↦ absurd (ground (arith, on, none_there))
    | inr (s, there) ↦ elim (Bool-cases (args == "")) [
      | inl nothing ↦ rw (emit_tool_arg_delta, nothing) (skip-Sends (some json) show b, on)
      | inr something ↦ elim (Bool-cases (s.name == "Task")) [
        | inl task ↦
            let r = buffer_task_args json b k args in
            rw (emit_tool_arg_delta, something, there, task)
              (send_task_args-Sends b r.0 k r.1 (buffer_task_args-Handles b k args on))
        | inr other ↦
            rw (emit_tool_arg_delta, something, there, other)
              (emit_tool_delta-Sends (some json) show b k args on, delta_keeps b k k args on)
      ]
    ]
  ]
