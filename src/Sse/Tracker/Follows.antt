-- ===== src/Sse/Tracker/Follows.antt =====
-- core/anthropic/emitted_sse_tracker.py: the tracker keeps up with the contract's loop.
use bailian_free_claude_code.Base.{
  ℕ, suc, String, ◌≡◌, refl, ap, ◌∙◌, ◌≢◌, ◌⊎◌, inl, inr, Bool, true, false, Option, none, some,
  List, [], ◌∷◌, ◌++◌, arith, eq_iff, leb, if◌then◌else◌, Bool-cases, ◌==◌, nat_eq, string_eq,
  contains, count, get, has, get-put, get-remove, ok,
}
use mathlib.Core.Path.{subst}
use bailian_free_claude_code.Sse.Json.{
  ℤ, pos, negsuc, int_eq, int_beq_iff, Json, null, boolean, number, text, array, object, lookup,
  SseEvent,
}
use bailian_free_claude_code.Sse.Contract.{Ledger, no_blocks, check_event, check_events}
use bailian_free_claude_code.Sse.Tracker.{
  Tracker, new_tracker, max_int, close_index, note_message, observe, observe_all,
  next_content_index,
}
use bailian_free_claude_code.Sse.Tracker.Stack.{count_append, count-close_index}
use bailian_free_claude_code.Sse.Tracker.Checks.{Outcome-cases, check_cases}

-- The greatest index is at least the one given.
abbrev at_most : ℤ → ℤ → Bool
at_most (pos a) (pos b) = leb a b
at_most (pos a) (negsuc b) = false
at_most (negsuc a) (pos b) = true
at_most (negsuc a) (negsuc b) = leb b a

at_most-max :
    (m i j : ℤ) → ((j == i) ≡ true) ⊎ (at_most j m ≡ true) → at_most j (max_int m i) ≡ true
at_most-max (pos m) (pos i) (pos j) h = ground (arith, h)
at_most-max (pos m) (pos i) (negsuc j) h = ground (arith, h)
at_most-max (pos m) (negsuc i) (pos j) h = ground (arith, h)
at_most-max (pos m) (negsuc i) (negsuc j) h = ground (arith, h)
at_most-max (negsuc m) (pos i) (pos j) h = ground (arith, h)
at_most-max (negsuc m) (pos i) (negsuc j) h = ground (arith, h)
at_most-max (negsuc m) (negsuc i) (pos j) h = ground (arith, h)
at_most-max (negsuc m) (negsuc i) (negsuc j) h = ground (arith, h)

-- The stack holds each open block once, and no started block has an index above the greatest.
pub record Follows (l : Ledger) (t : Tracker) : Type 0 where
  pub stack : (i : ℤ) → count i t.open_stack ≡ (if has l.open_blocks i then 1 else 0)
  pub greatest : (i : ℤ) → contains l.seen_blocks i ≡ true → at_most i t.max_index ≡ true
  pub started : (i : ℤ) → has l.open_blocks i ≡ true → contains l.seen_blocks i ≡ true

pub new-Follows : Follows no_blocks new_tracker
unfolding get
new-Follows = record {
  stack = λ i. refl;
  greatest = λ i e. ground (arith, e);
  started = λ i e. ground (arith, e);
}

note_keeps :
    (t : Tracker) (message : Option Json)
    → ((note_message t message).open_stack ≡ t.open_stack)
      × ((note_message t message).max_index ≡ t.max_index)
note_keeps t none = (refl, refl)
note_keeps t (some null) = (refl, refl)
note_keeps t (some (boolean b)) = (refl, refl)
note_keeps t (some (number n)) = (refl, refl)
note_keeps t (some (text s)) = (refl, refl)
note_keeps t (some (array xs)) = (refl, refl)
note_keeps t (some (object fields)) = (refl, refl)

-- What an event that opens no block and closes none does to the tracker.
keeps_observed :
    (t : Tracker) (e : SseEvent)
    → (e.event == "content_block_start") ≡ false
    → (e.event == "content_block_stop") ≡ false
    → (t1 : Tracker) × (observe t e ≡ ok t1)
      × (t1.open_stack ≡ t.open_stack)
      × (t1.max_index ≡ t.max_index)
unfolding observe
keeps_observed t e no_start no_stop = elim (Bool-cases (e.event == "message_start")) [
  | inl starts ↦
      let message = lookup e.data_fields "message" in
      let (stack, greatest) = note_keeps t message in
      (note_message t message, ground (arith, starts), stack, greatest)
  | inr other ↦ (t, ground (arith, other, no_start, no_stop), refl, refl)
]

not_message :
    (name : String)
    → ((name == "content_block_start") ≡ true) ⊎ ((name == "content_block_stop") ≡ true)
    → (name == "message_start") ≡ false
not_message name (inl starts) =
    let same : name ≡ "content_block_start" = (eq_iff name "content_block_start").0 starts in
    rw same refl
not_message name (inr stops) =
    let same : name ≡ "content_block_stop" = (eq_iff name "content_block_stop").0 stops in
    rw same refl

not_start :
    (name : String)
    → (name == "content_block_stop") ≡ true
    → (name == "content_block_start") ≡ false
not_start name stops =
    let same : name ≡ "content_block_stop" = (eq_iff name "content_block_stop").0 stops in
    rw same refl

-- On an event that the contract accepts, the tracker raises nothing and follows the ledger.
observe-Follows :
    (show : Json → String) (allow : Bool) (l l1 : Ledger) (t : Tracker) (e : SseEvent)
    → check_event show allow l e ≡ ok l1
    → Follows l t
    → (t1 : Tracker) × (observe t e ≡ ok t1) × Follows l1 t1
unfolding observe
observe-Follows show allow l l1 t e passed f = elim (check_cases show allow l l1 e passed) [
  | inl (i, kind, starts, index, shut, same) ↦ (
    record t { max_index = max_int t.max_index i; open_stack = t.open_stack ++ i ∷ [] },
    ground (arith, starts, index, not_message e.event (inl starts)),
    rw same (record {
      stack = λ j. ground (
        arith,
        count_append t.open_stack (i ∷ []) j,
        f.stack j,
        get-put l.open_blocks i kind j,
        int_beq_iff i j,
        shut,
      );
      greatest = λ j h. at_most-max t.max_index i j (elim (Bool-cases (j == i)) [
        | inl mine ↦ inl mine
        | inr other ↦
            inr (f.greatest j (ground (arith, h, int_beq_iff i j, int_beq_iff j i, other)))
      ]);
      started =
          λ j h. ground (arith, h, f.started j, get-put l.open_blocks i kind j, int_beq_iff i j);
    }),
  )
  | inr (inl (i, stops, index, there, same)) ↦ (
    record t { open_stack = close_index t.open_stack i },
    ground (arith, stops, index, not_message e.event (inr stops), not_start e.event stops),
    rw same (record {
      stack = λ j. ground (
        arith,
        count-close_index t.open_stack i j,
        f.stack j,
        get-remove l.open_blocks i j,
        int_beq_iff i j,
        there,
      );
      greatest = f.greatest;
      started =
          λ j h. ground (arith, h, f.started j, get-remove l.open_blocks i j, int_beq_iff i j);
    }),
  )
  | inr (inr (no_start, no_stop, same)) ↦
      let (t1, observed, stack, greatest) = keeps_observed t e no_start no_stop in
      (
        t1,
        observed,
        rw same (record {
          stack = λ j. ap (count j) stack ∙ f.stack j;
          greatest = λ j h. ap (at_most j) greatest ∙ f.greatest j h;
          started = f.started;
        }),
      )
]

pub observe_all-Follows :
    (show : Json → String) (allow : Bool) (events : List SseEvent) (l l1 : Ledger) (t : Tracker)
    → check_events show allow l events ≡ ok l1
    → Follows l t
    → (t1 : Tracker) × (observe_all t events ≡ ok t1) × Follows l1 t1
unfolding check_events observe_all
observe_all-Follows show allow [] l l1 t passed f =
    let same : l ≡ l1 = ground (arith, passed) in (t, refl, subst (λ l2. Follows l2 t) same f)
observe_all-Follows show allow (e ∷ events) l l1 t passed f =
    elim (Outcome-cases (check_event show allow l e)) [
      | inr (x, bad) ↦ absurd (ground (arith, passed, bad))
      | inl (l2, here) ↦
          let (t2, observed, f2) = observe-Follows show allow l l2 t e here f in
          let (t1, rest, f1) =
            observe_all-Follows show allow events l2 l1 t2 (rw here at passed) f2 in
          (t1, rw observed rest, f1)
    ]

-- The next index is that of no started block.
pub next-fresh :
    (l : Ledger) (t : Tracker)
    → Follows l t
    → contains l.seen_blocks (pos (next_content_index t)) ≡ false
unfolding next_content_index
next-fresh l t f = elim (Bool-cases (contains l.seen_blocks (pos (next_content_index t)))) [
  | inr absent ↦ absent
  | inl there ↦ absurd (above t.max_index (f.greatest (pos (next_content_index t)) there))
]
  where
    above : (m : ℤ) → at_most (pos (elim m as (λ _. ℕ) [ pos i ↦ suc i | negsuc i ↦ 0 ])) m ≢ true
    above (pos i) h = ground (arith, h)
    above (negsuc i) h = ground (arith, h)
