-- ===== src/Sse/Tracker/Tail.antt =====
-- core/anthropic/emitted_sse_tracker.py: a stream that broke off is completed by the closing events
-- and the error tail.
use bailian_free_claude_code.Base.{
  String, ◌≡◌, refl, ap, ◌∙◌, inl, inr, true, false, Option, none, some, List, [], ◌∷◌, ◌++◌, map,
  arith, if◌then◌else◌, Bool-cases, Option-cases, ◌==◌, nat_eq, string_eq, contains, count, is_some,
  get, remove, has, get-put, get-put_self, get-remove, ok,
}
use mathlib.Core.List.{reverse, reverse-cons}
use bailian_free_claude_code.Sse.Json.{ℤ, pos, int_eq, int_beq_iff, Json, SseEvent}
use bailian_free_claude_code.Sse.Builder.{message_delta, message_stop, content_block_stop}
use bailian_free_claude_code.Sse.Builder.Emissions.{emit_error}
use bailian_free_claude_code.Sse.Contract.{
  Ledger, no_blocks, check_event, check_events, event_names, last_name, is_empty,
  assert_anthropic_stream_contract,
}
use bailian_free_claude_code.Sse.Contract.Steps
use bailian_free_claude_code.Sse.Conforms.Sends.{check-append}
use bailian_free_claude_code.Sse.Conforms.Close.{none_empty}
use bailian_free_claude_code.Sse.Conforms.Endings.{last-append}
use bailian_free_claude_code.Sse.Tracker.{
  Tracker, new_tracker, observe_all, next_content_index, close_unclosed_blocks,
  midstream_error_tail,
}
use bailian_free_claude_code.Sse.Tracker.Stack.{count_append}
use bailian_free_claude_code.Sse.Tracker.Follows.{new-Follows, observe_all-Follows, next-fresh}

-- Stops for a list that holds each open block once close all blocks.
stops_close :
    (show : Json → String) (xs : List ℤ) (l : Ledger)
    → ((i : ℤ) → count i xs ≡ (if has l.open_blocks i then 1 else 0))
    → (l1 : Ledger) × (check_events show true l (map content_block_stop xs) ≡ ok l1)
      × ((i : ℤ) → get l1.open_blocks i ≡ none)
      × (l1.seen_blocks ≡ l.seen_blocks)
unfolding check_events
stops_close show [] l h =
    (l, refl, λ i. ground (arith, h i, Option-cases (get l.open_blocks i)), refl)
stops_close show (x ∷ xs) l h =
    let l0 = record l { open_blocks = remove l.open_blocks x } in
    let (l1, passed, shut, seen) =
      stops_close show xs l0
        (λ i. ground (arith, h i, get-remove l.open_blocks x i, int_beq_iff x i)) in
    let stopped =
      Steps.check-stop show l x
        (ground (arith, h x, int_beq_iff x x, Option-cases (get l.open_blocks x))) in
    (l1, rw stopped passed, shut, seen)

count-reverse : (xs : List ℤ) (i : ℤ) → count i (reverse xs) ≡ count i xs
count-reverse [] i = refl
count-reverse (x ∷ xs) i =
    ap (count i) (reverse-cons x xs)
    ∙ ground (arith, count_append (reverse xs) (x ∷ []) i, count-reverse xs i)

-- The parts of the contract.
contract_of :
    (show : Json → String) (events : List SseEvent) (l : Ledger)
    → contains (event_names events) "message_start" ≡ true
    → last_name (event_names events) ≡ some "message_stop"
    → check_events show true no_blocks events ≡ ok l
    → is_empty l.open_blocks ≡ true
    → is_empty l.seen_blocks ≡ false
    → assert_anthropic_stream_contract show true events ≡ ok tt
unfolding assert_anthropic_stream_contract
contract_of show [] l starts last passed closed nonempty = absurd (ground (arith, starts))
contract_of show (x ∷ xs) l starts last passed closed nonempty =
    ground (arith, starts, last, passed, closed, nonempty)

-- The error's block and the end of the message, from a ledger with no open block.
tail_passes :
    (show : Json → String) (t : Tracker) (fresh_id request_model : String) (tokens : Option ℤ)
    (message : String) (l : Ledger)
    → ((i : ℤ) → get l.open_blocks i ≡ none)
    → contains l.seen_blocks (pos (next_content_index t)) ≡ false
    → (l1 : Ledger) × (check_events show true l
          (midstream_error_tail t fresh_id request_model tokens message)
        ≡ ok l1)
      × (is_empty l1.open_blocks ≡ true)
      × (is_empty l1.seen_blocks ≡ false)
      × (last_name (event_names (midstream_error_tail t fresh_id request_model tokens message))
          ≡ some "message_stop")
unfolding midstream_error_tail emit_error check_events check_event message_delta message_stop
    last_name
tail_passes show t fresh_id request_model tokens message l shut fresh =
    let n = pos (next_content_index t) in
    let l1 = Steps.opened show l n "text" in
    let open_now = get-put_self l.open_blocks n "text" in
    let l2 = record l1 { open_blocks = remove l1.open_blocks n } in
    (
      l2,
      ground (
        arith,
        Steps.check-start_text show l n (ap is_some (shut n)) fresh,
        Steps.check-text_delta show l1 n message open_now,
        Steps.check-stop show l1 n (ap is_some open_now),
      ),
      none_empty l2.open_blocks (λ i. ground (
        arith,
        get-remove l1.open_blocks n i,
        get-put l.open_blocks n "text" i,
        int_beq_iff n i,
        shut i,
      )),
      refl,
      refl,
    )

-- A stream that was accepted so far, with its `message_start`, and then broke off: the tracker has
-- raised nothing on its events, and what it closes and the error tail make it a stream that the
-- contract accepts, with errors allowed.
pub midstream_tail_accepted :
    (show : Json → String) (events : List SseEvent) (l : Ledger) (fresh_id request_model : String)
    (tokens : Option ℤ) (message : String)
    → check_events show true no_blocks events ≡ ok l
    → contains (event_names events) "message_start" ≡ true
    → (t : Tracker) × (observe_all new_tracker events ≡ ok t)
      × (assert_anthropic_stream_contract show true (
            events
            ++ (close_unclosed_blocks t
                ++ midstream_error_tail t fresh_id request_model tokens message))
          ≡ ok tt)
unfolding close_unclosed_blocks
midstream_tail_accepted show events l fresh_id request_model tokens message passed starts =
    let (t, observed, f) =
      observe_all-Follows show true events no_blocks l new_tracker passed new-Follows in
    let closing = close_unclosed_blocks t in
    let tail = midstream_error_tail t fresh_id request_model tokens message in
    let (l1, closed, shut, seen) =
      stops_close show (reverse t.open_stack) l (λ i. count-reverse t.open_stack i ∙ f.stack i) in
    let (l2, ended, open_none, nonempty, last) =
      tail_passes show t fresh_id request_model tokens message l1 shut
        (ap (λ s. contains s (pos (next_content_index t))) seen ∙ next-fresh l t f) in
    (
      t,
      observed,
      contract_of show (events ++ (closing ++ tail)) l2
          (names_append events (closing ++ tail) starts)
          (last-append events (closing ++ tail) "message_stop"
            (last-append closing tail "message_stop" last))
          (check-append show events (closing ++ tail) no_blocks l passed
            ∙ check-append show closing tail l l1 closed
            ∙ ended)
          open_none nonempty,
    )
  where
    names_append :
        (xs ys : List SseEvent)
        → contains (event_names xs) "message_start" ≡ true
        → contains (event_names (xs ++ ys)) "message_start" ≡ true
    names_append [] ys h = absurd (ground (arith, h))
    names_append (x ∷ xs) ys h = elim (Bool-cases (x.event == "message_start")) [
      | inl here ↦ rw here refl
      | inr there ↦ rw there (names_append xs ys (ground (arith, h, there)))
    ]
