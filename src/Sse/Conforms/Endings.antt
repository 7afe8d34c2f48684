-- ===== src/Sse/Conforms/Endings.antt =====
-- providers/openai_compat.py: the two ends of a stream complete it.
use bailian_free_claude_code.Base.{
  String, ◌≡◌, refl, sym, ap, ◌∙◌, inl, inr, true, false, Option, none, some, List, [], ◌∷◌, ◌++◌,
  arith, ltb, if◌then◌else◌, Bool-cases, nat_eq, string_eq,
}
use bailian_free_claude_code.Sse.Json.{ℤ, pos, int_eq, Json, SseEvent}
use bailian_free_claude_code.Sse.Builder.{SseBuilder}
use bailian_free_claude_code.Sse.Builder.Emissions.{
  Emission, yielded, and_then, emit_error, close_all_blocks,
}
use bailian_free_claude_code.Sse.Builder.ToolArgs.{JsonCodec}
use bailian_free_claude_code.Sse.Contract.{Ledger, check_event, check_events, is_empty}
use bailian_free_claude_code.Sse.Conforms.{tools_at, Conforms}
use bailian_free_claude_code.Sse.Builder.{message_delta, message_stop, emit_top_level_error}
use bailian_free_claude_code.Sse.Builder.ToolArgs.{has_emitted_tool_block, estimate_output_tokens}
use bailian_free_claude_code.Sse.Contract.{last_name, event_names}
use bailian_free_claude_code.Sse.Transport.Stream.{report_failure}
use bailian_free_claude_code.Sse.Conforms.Blocks.{emit_error-Sends}
use bailian_free_claude_code.Sse.Conforms.Flush.{Runs, and_then-Runs, and_then_sse}
use bailian_free_claude_code.Base.{ℕ, ◌⊎◌, Exception, Outcome, raised}
use bailian_free_claude_code.Sse.Conforms.Close.{bare, close_all-Runs, close_keeps, none_empty}
use mathlib.Core.Path.{subst}

-- An emission that closes a stream: from this ledger it ends without an exception, its last event is
-- `message_stop`, its events pass, no block is open at the end, and some block was started.
pub record Completes (show : Json → String) (l : Ledger) (e : Emission) : Type 0 where
  pub ledger : Ledger
  pub runs : Runs show l e ledger
  pub last : last_name (event_names e.events) ≡ some "message_stop"
  pub closed : is_empty ledger.open_blocks ≡ true
  pub nonempty : is_empty ledger.seen_blocks ≡ false

pub last-append :
    (xs ys : List SseEvent) (name : String)
    → last_name (event_names ys) ≡ some name
    → last_name (event_names (xs ++ ys)) ≡ some name
unfolding last_name
last-append [] ys name e = e
last-append (x ∷ xs) ys name e =
    last_cons x.event (event_names (xs ++ ys)) name (last-append xs ys name e)
  where
    last_cons :
        (first : String) (names : List String) (name : String)
        → last_name names ≡ some name
        → last_name (first ∷ names) ≡ some name
    last_cons first [] name e = absurd (ground (arith, e))
    last_cons first (next ∷ names) name e = e

and_then-events :
    (e : Emission) (rest : SseBuilder → Emission)
    → e.failure ≡ none
    → (and_then e rest).events ≡ e.events ++ (rest e.sse).events
unfolding and_then
and_then-events e rest none_failed = rw (and_then, none_failed) refl

and_then-Completes :
    (show : Json → String) (l l1 : Ledger) (e : Emission) (rest : SseBuilder → Emission)
    → Runs show l e l1
    → Completes show l1 (rest e.sse)
    → Completes show l (and_then e rest)
and_then-Completes show l l1 e rest runs done = record {
  ledger = done.ledger;
  runs = and_then-Runs show l l1 done.ledger e rest runs done.runs;
  last =
      ap (λ xs. last_name (event_names xs)) (and_then-events e rest runs.0)
      ∙ last-append e.events (rest e.sse).events "message_stop" done.last;
  closed = done.closed;
  nonempty = done.nonempty;
}

-- `message_delta` and `message_stop`, the last two events.
-- A stream's rest that closes the stream, unless the count of its tokens raises at its end.
abbrev pub Ends : Option (String → Outcome ℕ) → (Json → String) → Ledger → Emission → Type 0
Ends encoder show l e =
    Completes show l e ⊎ ((x : Exception) × (estimate_output_tokens encoder e.sse ≡ raised x))

pub and_then-Ends :
    (encoder : Option (String → Outcome ℕ)) (show : Json → String) (l l1 : Ledger) (e : Emission)
    (rest : SseBuilder → Emission)
    → Runs show l e l1
    → Ends encoder show l1 (rest e.sse)
    → Ends encoder show l (and_then e rest)
and_then-Ends encoder show l l1 e rest runs (inl done) =
    inl (and_then-Completes show l l1 e rest runs done)
and_then-Ends encoder show l l1 e rest runs (inr (x, raises)) =
    inr (x, ap (estimate_output_tokens encoder) (and_then_sse e rest runs.0) ∙ raises)

pub last_two-Completes :
    (show : Json → String) (b : SseBuilder) (reason : String) (tokens : Option ℤ) (l : Ledger)
    → is_empty l.open_blocks ≡ true
    → is_empty l.seen_blocks ≡ false
    → Completes show l (record {
      sse = b;
      events = message_delta b reason tokens ∷ message_stop ∷ [];
      failure = none;
    })
unfolding check_events check_event message_delta message_stop last_name
last_two-Completes show b reason tokens l closed nonempty = record {
  ledger = l;
  runs = (refl, refl);
  last = refl;
  closed = closed;
  nonempty = nonempty;
}

top_level-Runs :
    (show : Json → String) (b : SseBuilder) (message : String) (l : Ledger)
    → Runs show l (yielded b (emit_top_level_error message)) l
unfolding check_events check_event emit_top_level_error
top_level-Runs show b message l = (refl, refl)

-- The error's own text block, which is closed again.
emit_error-Runs :
    (json : JsonCodec) (show : Json → String) (b : SseBuilder) (message : String) (l : Ledger)
    → Conforms none (bare b) l
    → (l1 : Ledger) × Runs show l (emit_error b message) l1
      × (is_empty l1.open_blocks ≡ true)
      × (is_empty l1.seen_blocks ≡ false)
unfolding emit_error tools_at
emit_error-Runs json show b message l c =
    let (l1, passed, c1) = emit_error-Sends json none show (bare b) message l c in
    (l1, (refl, passed), none_empty l1.open_blocks c1.kinds, c1.begun (ground arith))

pub report_failure-Completes :
    (json : JsonCodec) (watch : Option JsonCodec) (show : Json → String) (b : SseBuilder)
    (message : String) (l : Ledger)
    → Conforms watch b l
    → Completes show l (report_failure b message)
unfolding report_failure
report_failure-Completes json watch show b message l c =
    let first = close_all_blocks b in
    let (l1, runs, closed, c1) = close_all-Runs watch show b l c in
    let (tools_kept, next_kept, _) = close_keeps b in
    let ending =
      λ (b2 : SseBuilder) (l2 : Ledger). last_two-Completes show b2 "end_turn" (some (pos 1)) l2 in
    let last_two : SseBuilder → Emission = λ b2. record {
      sse = b2;
      events = message_delta b2 "end_turn" (some (pos 1)) ∷ message_stop ∷ [];
      failure = none;
    } in
    let notice : SseBuilder → Emission = λ b1.
      if has_emitted_tool_block b1
      then yielded b1 (emit_top_level_error message)
      else emit_error b1 message in
    and_then-Completes show l l1 first (λ b1. and_then (notice b1) last_two) runs
      (elim (Bool-cases (has_emitted_tool_block first.sse)) [
        | inl emitted ↦
            let e = yielded first.sse (emit_top_level_error message) in
            let same : notice first.sse ≡ e = ground (arith, emitted) in
            subst (λ v. Completes show l1 (and_then v last_two)) (sym same)
              (and_then-Completes show l1 l1 e last_two (top_level-Runs show first.sse message l1) (
                ending first.sse l1 closed
                  (c1.begun (ap (ltb 0) next_kept ∙ c.used (ground (arith, emitted, tools_kept))))))
        | inr silent ↦
            let e = emit_error first.sse message in
            let same : notice first.sse ≡ e = ground (arith, silent) in
            let (l2, runs2, closed2, nonempty) =
              emit_error-Runs json show first.sse message l1 c1 in
            subst (λ v. Completes show l1 (and_then v last_two)) (sym same)
              (and_then-Completes show l1 l2 e last_two runs2 (ending e.sse l2 closed2 nonempty))
      ])
