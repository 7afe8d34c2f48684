-- ===== src/Sse/Conforms/Processed.antt =====
-- providers/openai_compat.py: the events of `_process_tool_call` pass the contract's loop, whatever
-- the deltas are.
use bailian_free_claude_code.Base.{
  ℕ, String, ◌≡◌, refl, sym, ◌⊎◌, inl, inr, true, false, ◌||◌, Option, none, some, List, [], ◌∷◌,
  arith, eq_iff, if◌then◌else◌, Bool-cases, Option-cases, ◌==◌, nat_eq, string_eq, get, put,
  get-put_self,
}
use mathlib.Core.Path.{subst}
use Prim.Native.String.{◌++◌ as append_text}
use bailian_free_claude_code.Sse.Json.{pos, negsuc, int_eq, Json}
use bailian_free_claude_code.Sse.Builder.{ToolCallState, new_tool_call, SseBuilder}
use bailian_free_claude_code.Sse.Builder.Emissions.{skip, and_then, start_tool_block, started_tool}
use bailian_free_claude_code.Sse.Builder.ToolArgs.{
  JsonCodec, set_stream_tool_id, register_tool_name,
}
use bailian_free_claude_code.Sse.Contract.{Ledger, check_events}
use bailian_free_claude_code.Sse.Strings.{strip}
use bailian_free_claude_code.Sse.Transport.{
  ToolDelta, is_started, state_name, or_empty, emit_tool_arg_delta, send_pre_start_args,
  start_named_tool, resolved_tool_id, send_arguments, tool_call_index, note_tool_call,
  process_tool_call, process_tool_calls,
}
use bailian_free_claude_code.Sse.Conforms.{Conforms, Sends}
use bailian_free_claude_code.Sse.Conforms.Tools.{calm-get}
use bailian_free_claude_code.Sse.Conforms.Sends.{skip-Sends, and_then-Sends, unless-Sends}
use bailian_free_claude_code.Sse.Builder.ToolArgs.{merged_name}
use bailian_free_claude_code.Sse.Conforms.ToolCalls.{put_quiet, start_tool_block-Sends}
use bailian_free_claude_code.Sse.Conforms.Calls.{emit_tool_arg_delta-Sends}

module _ (json : JsonCodec) (show : Json → String) where
  -- An assignment of a tool's id, name or early arguments.
  noted :
      (b : SseBuilder) (k : ℕ) (s : ToolCallState) (l : Ledger)
      → ((get b.tool_states k ≡ none) × (s.started ≡ false) × (s.task_arg_buffer ≡ ""))
        ⊎ ((r : ToolCallState) × (get b.tool_states k ≡ some r)
            × (s.started ≡ r.started)
            × (s.block_index ≡ r.block_index)
            × (s.task_arg_buffer ≡ r.task_arg_buffer)
            × (s.task_args_emitted ≡ r.task_args_emitted))
      → Conforms (some json) b l
      → Conforms (some json) (record b { tool_states = put b.tool_states k s }) l
  noted b k s l (inl (absent, off, empty)) c =
      put_quiet (some json) show b k s l (λ i. ground (arith, absent, off))
        (λ e. ground (arith, e, off)) (λ e. ground (arith, empty, eq_iff s.task_arg_buffer "")) c
  noted b k s l (inr (r, there, on, moved, buffer, sent)) c =
      put_quiet (some json) show b k s l (λ i. ground (arith, there, on, moved))
        (λ e. ground (arith, e, on, there))
        (λ e. ground (arith, calm-get (some json) b.tool_states k r e there, on, buffer, sent)) c

  set_stream_tool_id-Conforms :
      (b : SseBuilder) (k : ℕ) (tool_id : Option String) (l : Ledger)
      → Conforms (some json) b l
      → Conforms (some json) (set_stream_tool_id b k tool_id) l
  unfolding set_stream_tool_id
  set_stream_tool_id-Conforms b k none l c = c
  set_stream_tool_id-Conforms b k (some tool_id) l c = elim (Bool-cases (tool_id == "")) [
    | inl empty ↦ rw empty c
    | inr given ↦ elim (Option-cases (get b.tool_states k)) [
      | inl absent ↦
          rw (given, absent)
            (noted b k (record (new_tool_call (negsuc 0) "" "" false) { tool_id = tool_id }) l
              (inl (absent, refl, refl)) c)
      | inr (r, there) ↦
          rw (given, there)
            (noted b k (record r { tool_id = tool_id }) l (inr (r, there, refl, refl, refl, refl))
              c)
    ]
  ]

  register_tool_name-Conforms :
      (b : SseBuilder) (k : ℕ) (name : String) (l : Ledger)
      → Conforms (some json) b l
      → Conforms (some json) (register_tool_name b k name) l
  unfolding register_tool_name
  register_tool_name-Conforms b k name l c = elim (Option-cases (get b.tool_states k)) [
    | inl absent ↦
        rw (register_tool_name, absent)
          (noted b k (new_tool_call (negsuc 0) "" name false) l (inl (absent, refl, refl)) c)
    | inr (r, there) ↦
        rw (register_tool_name, there)
          (noted b k (record r { name = merged_name r.name name }) l
            (inr (r, there, refl, refl, refl, refl)) c)
  ]

  note_tool_call-Conforms :
      (b : SseBuilder) (k : ℕ) (tc : ToolDelta) (l : Ledger)
      → Conforms (some json) b l
      → Conforms (some json) (note_tool_call b k tc) l
  unfolding note_tool_call
  note_tool_call-Conforms b k tc l c =
      let c1 = set_stream_tool_id-Conforms b k tc.id l c in
      elim (Option-cases tc.name) [
        | inl absent ↦ rw absent c1
        | inr (name, there) ↦
            rw there (register_tool_name-Conforms (set_stream_tool_id b k tc.id) k name l c1)
      ]

  send_pre_start_args-Sends :
      (b : SseBuilder) (k : ℕ)
      → is_started (get b.tool_states k) ≡ true
      → Sends (some json) show b (send_pre_start_args json b k)
        × (is_started (get (send_pre_start_args json b k).sse.tool_states k) ≡ true)
  unfolding send_pre_start_args
  send_pre_start_args-Sends b k on = elim (Option-cases (get b.tool_states k)) [
    | inl absent ↦ absurd (ground (arith, on, absent))
    | inr (s, there) ↦ elim (Bool-cases (s.pre_start_args == "")) [
      | inl nothing ↦
          let same : send_pre_start_args json b k ≡ skip b = ground (arith, there, nothing) in
          subst (λ e. Sends (some json) show b e × (is_started (get e.sse.tool_states k) ≡ true))
            (sym same) (skip-Sends (some json) show b, on)
      | inr early ↦
          let s1 = record s { pre_start_args = "" } in
          let b1 = record b { tool_states = put b.tool_states k s1 } in
          let same : send_pre_start_args json b k ≡ emit_tool_arg_delta json b1 k s.pre_start_args =
            ground (arith, there, early) in
          let sent =
            emit_tool_arg_delta-Sends json show b1 k s.pre_start_args
              (ground (arith, get-put_self b.tool_states k s1, on, there)) in
          subst (λ e. Sends (some json) show b e × (is_started (get e.sse.tool_states k) ≡ true))
            (sym same)
            (λ l c. sent.0 l (noted b k s1 l (inr (s, there, refl, refl, refl, refl)) c), sent.1)
    ]
  ]

  now_started :
      (b : SseBuilder) (k : ℕ) (tool_id name : String)
      → is_started (get (start_tool_block b k tool_id name).sse.tool_states k) ≡ true
  unfolding start_tool_block started_tool
  now_started b k tool_id name = ground (
    arith,
    get-put_self b.tool_states k
        (started_tool (pos b.next_index) tool_id name (get b.tool_states k)),
    Option-cases (get b.tool_states k),
  )

  -- A tool whose name is known is started, and its early arguments are sent.
  start_named_tool-Sends :
      (b : SseBuilder) (k : ℕ) (tc : ToolDelta)
      → Sends (some json) show b (start_named_tool json b k tc)
        × ((strip (state_name (get b.tool_states k)) == "") ≡ false
            → is_started (get (start_named_tool json b k tc).sse.tool_states k) ≡ true)
  unfolding start_named_tool and_then start_tool_block
  start_named_tool-Sends b k tc =
      let state = get b.tool_states k in
      let name = strip (state_name state) in
      elim (Bool-cases (is_started state || name == "")) [
        | inl idle ↦ rw idle (skip-Sends (some json) show b, λ named. ground (arith, idle, named))
        | inr starts ↦
            let tool_id = resolved_tool_id state tc in
            let first = start_tool_block b k tool_id name in
            let early = send_pre_start_args-Sends first.sse k (now_started b k tool_id name) in
            rw starts (
              and_then-Sends (some json) show b first (λ b1. send_pre_start_args json b1 k)
                  (start_tool_block-Sends (some json) show b k tool_id name
                    (ground (arith, starts)))
                  early.0,
              λ named. early.1,
            )
      ]

  send_arguments-Sends :
      (b : SseBuilder) (k : ℕ) (name arguments : String)
      → ((strip name == "") ≡ false → is_started (get b.tool_states k) ≡ true)
      → Sends (some json) show b (send_arguments json b k name arguments)
  unfolding send_arguments check_events
  send_arguments-Sends b k name arguments on =
      elim (Bool-cases (is_started (get b.tool_states k))) [
        | inl going ↦ rw going (emit_tool_arg_delta-Sends json show b k arguments going).0
        | inr off ↦ elim (Bool-cases (strip name == "")) [
          | inr named ↦ absurd (ground (arith, off, on named))
          | inl unnamed ↦ elim (Option-cases (get b.tool_states k)) [
            | inl absent ↦
                let r = new_tool_call (negsuc 0) "" "" false in
                rw (off, unnamed, absent)
                  (λ l c. (
                    l,
                    refl,
                    noted b k (record r { pre_start_args = append_text r.pre_start_args arguments })
                        l (inl (absent, refl, refl)) c,
                  ))
            | inr (r, there) ↦
                rw (off, unnamed, there)
                  (λ l c. (
                    l,
                    refl,
                    noted b k (record r { pre_start_args = append_text r.pre_start_args arguments })
                        l (inr (r, there, refl, refl, refl, refl)) c,
                  ))
          ]
        ]
      ]

  process_tool_call-Sends :
      (b : SseBuilder) (tc : ToolDelta) → Sends (some json) show b (process_tool_call json b tc)
  unfolding process_tool_call
  process_tool_call-Sends b tc l c =
      let k = tool_call_index b tc.index in
      let b1 = note_tool_call b k tc in
      let name = state_name (get b1.tool_states k) in
      let arguments = or_empty tc.arguments in
      let first = start_named_tool-Sends b1 k tc in
      let b2 = (start_named_tool json b1 k tc).sse in
      and_then-Sends (some json) show b1 (start_named_tool json b1 k tc)
        (λ b3. if arguments == "" then skip b3 else send_arguments json b3 k name arguments) first.0
        (unless-Sends (some json) show b2 (arguments == "")
          (send_arguments json b2 k name arguments)
          (λ given. send_arguments-Sends b2 k name arguments first.1))
        l (note_tool_call-Conforms b k tc l c)

  pub process_tool_calls-Sends :
      (tcs : List ToolDelta) (b : SseBuilder)
      → Sends (some json) show b (process_tool_calls json b tcs)
  unfolding process_tool_calls
  process_tool_calls-Sends [] b = skip-Sends (some json) show b
  process_tool_calls-Sends (tc ∷ tcs) b =
      and_then-Sends (some json) show b (process_tool_call json b tc)
        (λ b1. process_tool_calls json b1 tcs) (process_tool_call-Sends b tc)
        (process_tool_calls-Sends tcs (process_tool_call json b tc).sse)
