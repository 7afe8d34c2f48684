-- ===== src/Sse/Conforms/Close.antt =====
-- core/anthropic/sse.py: `close_all_blocks` leaves no block open.
use bailian_free_claude_code.Base.{
  ℕ, ◌≤◌, String, ◌≡◌, refl, sym, ap, ◌∙◌, inl, inr, true, false, Option, none, some, [], ◌∷◌,
  arith, ltb, if◌then◌else◌, Bool-cases, nat_eq, string_eq, contains, Dict, is_some, get, remove,
  get-remove, ok, ◌>>=◌,
}
use bailian_free_claude_code.Sse.Json.{ℤ, int_eq, int_beq_iff, Json}
use bailian_free_claude_code.Sse.Builder.{ToolCallState, SseBuilder}
use bailian_free_claude_code.Sse.Builder.Emissions.{
  Emission, and_then, close_content_blocks, stop_thinking_block, stop_text_block, stop_tools,
  close_all_blocks,
}
use bailian_free_claude_code.Sse.Builder.ToolArgs.{JsonCodec}
use bailian_free_claude_code.Sse.Contract.{Ledger, check_events, is_empty}
use bailian_free_claude_code.Sse.Contract.Steps
use bailian_free_claude_code.Sse.Conforms.{tools_at, Conforms, calm_tools}
use bailian_free_claude_code.Sse.Conforms.Texts.{close_content_blocks-Sends}
use bailian_free_claude_code.Sse.Conforms.Flush.{Runs, and_then-Runs, and_then_sse}
use mathlib.Core.Path.{subst}

stop_tools-Runs :
    (show : Json → String) (d : Dict ℕ ToolCallState) (l : Ledger)
    → ((i : ℤ) → get l.open_blocks i ≡ (if ltb 0 (tools_at d i) then some "tool_use" else none))
    → ((i : ℤ) → tools_at d i ≤ 1)
    → (l1 : Ledger) × (check_events show true l (stop_tools d) ≡ ok l1)
      × ((i : ℤ) → get l1.open_blocks i ≡ none)
      × (l1.seen_blocks ≡ l.seen_blocks)
unfolding tools_at stop_tools check_events
stop_tools-Runs show [] l kinds once = (l, refl, kinds, refl)
stop_tools-Runs show ((k, s) ∷ d) l kinds once = elim (Bool-cases s.started) [
  | inr off ↦
      let (l1, passed, shut, seen) =
        stop_tools-Runs show d l (λ i. ground (arith, kinds i, off))
          (λ i. ground (arith, once i, off)) in
      (l1, rw off passed, shut, seen)
  | inl on ↦
      let n = s.block_index in
      let l0 = record l { open_blocks = remove l.open_blocks n } in
      let there = (int_beq_iff n n).1 refl in
      let (l1, passed, shut, seen) =
        stop_tools-Runs show d l0
          (λ i. ground (arith, get-remove l.open_blocks n i, kinds i, once i, on, int_beq_iff n i))
          (λ i. ground (arith, once i, on)) in
      let stopped = Steps.check-stop show l n (ground (arith, kinds n, on, there)) in
      (
        l1,
        rw on (
            ap (λ first. first >>= λ l2. check_events show true l2 (stop_tools d)) stopped
            ∙ passed),
        shut,
        seen,
      )
]

pub none_empty : (d : Dict ℤ String) → ((i : ℤ) → get d i ≡ none) → is_empty d ≡ true
unfolding get
none_empty [] h = refl
none_empty ((i, kind) ∷ d) h = absurd (ground (arith, h i, (int_beq_iff i i).1 refl))

both_closed :
    (b : SseBuilder)
    → ((close_content_blocks b).sse.thinking_started ≡ false)
      × ((close_content_blocks b).sse.text_started ≡ false)
      × ((close_content_blocks b).failure ≡ none)
unfolding close_content_blocks and_then stop_thinking_block stop_text_block
both_closed b = (ground arith, ground arith, ground arith)

-- The builder without its blocks.
abbrev pub bare : SseBuilder → SseBuilder
bare b = record b { tool_states = []; thinking_started = false; text_started = false }

pub close_all-Runs :
    (watch : Option JsonCodec) (show : Json → String) (b : SseBuilder) (l : Ledger)
    → Conforms watch b l
    → (l1 : Ledger) × Runs show l (close_all_blocks b) l1
      × (is_empty l1.open_blocks ≡ true)
      × Conforms none (bare (close_all_blocks b).sse) l1
unfolding close_all_blocks calm_tools tools_at
close_all-Runs watch show b l c =
    let first = close_content_blocks b in
    let (thinking_off, text_off, succeeds) = both_closed b in
    let (l1, passed, c1) = close_content_blocks-Sends watch show b l c in
    let b2 = first.sse in
    let (l2, passed2, shut, seen) =
      stop_tools-Runs show b2.tool_states l1
        (λ i. ground (arith, c1.kinds i, thinking_off, text_off))
        (λ i. ground (arith, c1.once i)) in
    let closing : SseBuilder → Emission =
      λ b1. record { sse = b1; events = stop_tools b1.tool_states; failure = none } in
    (
      l2,
      and_then-Runs show l l1 l2 first closing (succeeds, passed) (refl, passed2),
      none_empty l2.open_blocks shut,
      subst (λ b3. Conforms none (bare b3) l2) (sym (and_then_sse first closing succeeds))
          (record {
            kinds = λ i. shut i;
            once = λ i. ground arith;
            fresh = λ i e. ap (λ s. contains s i) seen ∙ c1.fresh i e;
            unopened = λ i e. ap is_some (shut i);
            used = λ e. c1.used (ground (arith, e));
            begun = λ e. ap is_empty seen ∙ c1.begun e;
            calm = refl;
          }),
    )

pub close_keeps :
    (b : SseBuilder)
    → ((close_all_blocks b).sse.tool_states ≡ b.tool_states)
      × ((close_all_blocks b).sse.next_index ≡ b.next_index)
      × ((close_all_blocks b).failure ≡ none)
unfolding close_all_blocks close_content_blocks and_then stop_thinking_block stop_text_block
close_keeps b = (ground arith, ground arith, ground arith)
