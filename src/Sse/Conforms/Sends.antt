-- ===== src/Sse/Conforms/Sends.antt =====
-- core/anthropic/sse.py: the events of the builder's operations on text and thinking blocks pass the
-- contract's loop.
use bailian_free_claude_code.Base.{
  ℕ, suc, String, ◌≡◌, refl, ◌∙◌, Bool, true, false, Option, none, some, List, [], ◌∷◌, ◌++◌, arith,
  if◌then◌else◌, ◌==◌, nat_eq, string_eq, contains, remove, has, get-put, get-remove, Outcome, ok,
  raised, ◌>>=◌,
}
use bailian_free_claude_code.Base.{Exception}
use bailian_free_claude_code.Sse.Json.{ℤ, pos, negsuc, int_eq, int_beq_iff, Json, SseEvent}
use bailian_free_claude_code.Sse.Builder.{
  SseBuilder, start_thinking, start_text, content_block_stop,
}
use bailian_free_claude_code.Sse.Builder.Emissions.{
  Emission, yielded, skip, and_then, start_thinking_block, stop_thinking_block, start_text_block,
  stop_text_block,
}
use bailian_free_claude_code.Sse.Builder.ToolArgs.{JsonCodec}
use bailian_free_claude_code.Sse.Contract.{Ledger, check_event, check_events}
use bailian_free_claude_code.Sse.Contract.Steps
use bailian_free_claude_code.Sse.Conforms.{is_allocated, Conforms, Sends}

-- The rounds on `ys` after those on `xs`.
append_step :
    (show : Json → String) (xs ys : List SseEvent) (l1 : Ledger) (first : Outcome Ledger)
    → ((l2 : Ledger)
        → check_events show true l2 xs ≡ ok l1
        → check_events show true l2 (xs ++ ys) ≡ check_events show true l1 ys)
    → (first >>= λ l2. check_events show true l2 xs) ≡ ok l1
    → (first >>= λ l2. check_events show true l2 (xs ++ ys)) ≡ check_events show true l1 ys
append_step show xs ys l1 (ok l2) rest e = rest l2 e
append_step show xs ys l1 (raised y) rest e = absurd (ground (arith, e))

pub check-append :
    (show : Json → String) (xs ys : List SseEvent) (l l1 : Ledger)
    → check_events show true l xs ≡ ok l1
    → check_events show true l (xs ++ ys) ≡ check_events show true l1 ys
unfolding check_events
check-append show [] ys l l1 e = ground (arith, e)
check-append show (x ∷ xs) ys l l1 e =
    append_step show xs ys l1 (check_event show true l x) (λ l2. check-append show xs ys l2 l1) e

-- An index that is not allocated after `allocate_index` was not before, and is not the one given.
older :
    (n : ℕ) (i : ℤ)
    → is_allocated (suc n) i ≡ false
    → (is_allocated n i ≡ false) × ((pos n == i) ≡ false)
older n (pos i) e = (ground (arith, e), ground (arith, e))
older n (negsuc i) e = (refl, refl)

-- What the start of a block at the next index keeps.
module _ (watch : Option JsonCodec) (show : Json → String) (b : SseBuilder) (l : Ledger)
    (kind : String) (c : Conforms watch b l) where
  pub start_fresh :
      (i : ℤ)
      → is_allocated (suc b.next_index) i ≡ false
      → contains (Steps.opened show l (pos b.next_index) kind).seen_blocks i ≡ false
  start_fresh i e =
      let (before, other) = older b.next_index i e in ground (arith, other, c.fresh i before)

  pub start_unopened :
      (i : ℤ)
      → is_allocated (suc b.next_index) i ≡ false
      → has (Steps.opened show l (pos b.next_index) kind).open_blocks i ≡ false
  start_unopened i e =
      let (before, other) = older b.next_index i e in
      ground (
        arith,
        get-put l.open_blocks (pos b.next_index) kind i,
        other,
        c.unopened i before,
        int_beq_iff (pos b.next_index) i,
      )

module _ (watch : Option JsonCodec) (show : Json → String) where
  pub skip-Sends : (b : SseBuilder) → Sends watch show b (skip b)
  unfolding check_events
  skip-Sends b l c = (l, refl, c)

  pub and_then-Sends :
      (b : SseBuilder) (e : Emission) (rest : SseBuilder → Emission)
      → Sends watch show b e
      → Sends watch show e.sse (rest e.sse)
      → Sends watch show b (and_then e rest)
  unfolding and_then
  and_then-Sends b e rest first next = by_failure e.sse e.events e.failure first next
    where
      by_failure :
          (b1 : SseBuilder) (events : List SseEvent) (failure : Option Exception)
          → Sends watch show b (record { sse = b1; events = events; failure = failure })
          → Sends watch show b1 (rest b1)
          → Sends watch show b
              (and_then (record { sse = b1; events = events; failure = failure }) rest)
      by_failure b1 events (some x) s n = s
      by_failure b1 events none s n = λ l c.
          let (l1, passed, c1) = s l c in
          let (l2, passed2, c2) = n l1 c1 in
          (l2, check-append show events (rest b1).events l l1 passed ∙ passed2, c2)

  -- One event that passes, and after which the builder conforms.
  pub yielded-Sends :
      (b b1 : SseBuilder) (x : SseEvent)
      → ((l : Ledger)
          → Conforms watch b l
          → (l1 : Ledger) × (check_event show true l x ≡ ok l1) × Conforms watch b1 l1)
      → Sends watch show b (yielded b1 x)
  unfolding check_events
  yielded-Sends b b1 x one l c = let (l1, passed, c1) = one l c in (l1, ground (arith, passed), c1)

  -- A conforming builder whose next index is used for a block: it is no index of the ledger.
  pub next_fresh :
      (b : SseBuilder) (l : Ledger)
      → Conforms watch b l
      → (has l.open_blocks (pos b.next_index) ≡ false)
        × (contains l.seen_blocks (pos b.next_index) ≡ false)
  next_fresh b l c =
      (c.unopened (pos b.next_index) (ground arith), c.fresh (pos b.next_index) (ground arith))

  pub start_thinking_block-Sends :
      (b : SseBuilder)
      → b.thinking_started ≡ false
      → b.text_started ≡ false
      → Sends watch show b (start_thinking_block b)
  unfolding start_thinking_block
  start_thinking_block-Sends b off text_off =
      yielded-Sends b (start_thinking_block b).sse (start_thinking (pos b.next_index)) (λ l c.
        let (shut, fresh) = next_fresh b l c in
        let n = pos b.next_index in
        (
          Steps.opened show l n "thinking",
          Steps.check-start_thinking show l n shut fresh,
          record {
            kinds = λ i.
                ground
                  (arith, get-put l.open_blocks n "thinking" i, c.kinds i, int_beq_iff n i, off);
            once = λ i. ground (arith, c.once i, c.kinds i, int_beq_iff n i, off, text_off, shut);
            fresh = start_fresh watch show b l "thinking" c;
            unopened = start_unopened watch show b l "thinking" c;
            used = λ e. ground arith;
            begun = λ e. refl;
            calm = c.calm;
          },
        ))

  pub start_text_block-Sends :
      (b : SseBuilder)
      → b.thinking_started ≡ false
      → b.text_started ≡ false
      → Sends watch show b (start_text_block b)
  unfolding start_text_block
  start_text_block-Sends b thinking_off off =
      yielded-Sends b (start_text_block b).sse (start_text (pos b.next_index)) (λ l c.
        let (shut, fresh) = next_fresh b l c in
        let n = pos b.next_index in
        (
          Steps.opened show l n "text",
          Steps.check-start_text show l n shut fresh,
          record {
            kinds = λ i. ground (
              arith,
              get-put l.open_blocks n "text" i,
              c.kinds i,
              int_beq_iff n i,
              off,
              thinking_off,
            );
            once =
                λ i. ground (arith, c.once i, c.kinds i, int_beq_iff n i, off, thinking_off, shut);
            fresh = start_fresh watch show b l "text" c;
            unopened = start_unopened watch show b l "text" c;
            used = λ e. ground arith;
            begun = λ e. refl;
            calm = c.calm;
          },
        ))

  pub stop_thinking_block-Sends :
      (b : SseBuilder) → b.thinking_started ≡ true → Sends watch show b (stop_thinking_block b)
  unfolding stop_thinking_block
  stop_thinking_block-Sends b on =
      yielded-Sends b (stop_thinking_block b).sse (content_block_stop b.thinking_index) (λ l c.
        let n = b.thinking_index in
        let there = (int_beq_iff n n).1 refl in
        (
          record l { open_blocks = remove l.open_blocks n },
          Steps.check-stop show l n (ground (arith, c.kinds n, on, there)),
          record {
            kinds = λ i. ground (
              arith,
              get-remove l.open_blocks n i,
              c.kinds i,
              int_beq_iff n i,
              on,
              there,
              c.once i,
            );
            once = λ i. ground (arith, c.once i);
            fresh = c.fresh;
            unopened = λ i e.
                ground (arith, get-remove l.open_blocks n i, c.unopened i e, int_beq_iff n i);
            used = c.used;
            begun = c.begun;
            calm = c.calm;
          },
        ))

  pub stop_text_block-Sends :
      (b : SseBuilder) → b.text_started ≡ true → Sends watch show b (stop_text_block b)
  unfolding stop_text_block
  stop_text_block-Sends b on =
      yielded-Sends b (stop_text_block b).sse (content_block_stop b.text_index) (λ l c.
        let n = b.text_index in
        let there = (int_beq_iff n n).1 refl in
        (
          record l { open_blocks = remove l.open_blocks n },
          Steps.check-stop show l n (ground (arith, c.kinds n, on, there)),
          record {
            kinds = λ i. ground (
              arith,
              get-remove l.open_blocks n i,
              c.kinds i,
              int_beq_iff n i,
              on,
              there,
              c.once i,
            );
            once = λ i. ground (arith, c.once i);
            fresh = c.fresh;
            unopened = λ i e.
                ground (arith, get-remove l.open_blocks n i, c.unopened i e, int_beq_iff n i);
            used = c.used;
            begun = c.begun;
            calm = c.calm;
          },
        ))

  -- Steps that are taken if a flag is set.
  pub when-Sends :
      (b : SseBuilder) (flag : Bool) (e : Emission)
      → (flag ≡ true → Sends watch show b e)
      → Sends watch show b (if flag then e else skip b)
  when-Sends b true e h = h refl
  when-Sends b false e h = skip-Sends b

  pub unless-Sends :
      (b : SseBuilder) (flag : Bool) (e : Emission)
      → (flag ≡ false → Sends watch show b e)
      → Sends watch show b (if flag then skip b else e)
  unless-Sends b true e h = skip-Sends b
  unless-Sends b false e h = h refl
