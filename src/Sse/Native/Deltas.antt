-- ===== src/Sse/Native/Deltas.antt =====
-- core/anthropic/native_sse_block_policy.py: a delta passes the contract's loop, also one that reopens
-- its block.
use bailian_free_claude_code.Base.{
  ℕ, String, ◌≡◌, refl, sym, ap, ◌∙◌, ◌⊎◌, inl, inr, Bool, true, false, Option, some, List, [], ◌∷◌,
  arith, Bool-cases, Option-cases, nat_eq, string_eq, contains, Dict, is_some, get, put, has,
  get-put, get-put_self, ok,
}
use mathlib.Core.Path.{subst}
use bailian_free_claude_code.Sse.Strings.{strip}
use bailian_free_claude_code.Sse.Json.{
  ℤ, pos, int_eq, int_beq_iff, Json, Fields, lookup, assign, SseEvent,
}
use bailian_free_claude_code.Sse.Builder.{block_start, content_block_delta, delta_content}
use bailian_free_claude_code.Sse.Contract.{
  Ledger, check_event, check_events, event_index, dict_at, text_at, open_block,
}
use bailian_free_claude_code.Sse.Contract.Steps
use bailian_free_claude_code.Sse.Native.{
  UpstreamBlock, BlockPolicy, discard, should_drop_block_type, delta_type_to_block_kind,
  synthetic_start_content_block, allocate_new_segment, with_index, stored_tool, place_delta,
  transform_delta,
}
use bailian_free_claude_code.Sse.Native.Upstream.{
  DeltaKind, some_text, some_thought, some_json, old_at, sends, delta_kind, render, Owned-get,
}
use bailian_free_claude_code.Sse.Native.Tracks.{Tracks, Passes, allocate-Tracks}
use bailian_free_claude_code.Sse.Native.{reopen}

abbrev sent : ℤ → DeltaKind → String → SseEvent
sent i d content = render (sends i d content)

same-Tracks :
    (neat : Bool) (types types1 : Dict ℤ String) (s : BlockPolicy) (l : Ledger)
    → ((k : ℤ) → get types k ≡ get types1 k)
    → Tracks neat types s l
    → Tracks neat types1 s l
same-Tracks neat types types1 s l same t = record {
  started_only = λ k h. t.started_only k (ap is_some (same k) ∙ h);
  tight = t.tight;
  typed = λ k seg e on kept. sym (same k) ∙ t.typed k seg e on kept;
  known = λ k h kept. t.known k (ap is_some (same k) ∙ h) kept;
  owned = t.owned;
  once = t.once;
  fresh = t.fresh;
}

check-sent :
    (show : Json → String) (l : Ledger) (i : ℤ) (d : DeltaKind) (content : String)
    → get l.open_blocks i ≡ some (delta_kind d)
    → check_event show true l (sent i d content) ≡ ok l
check-sent show l i some_text content e = Steps.check-text_delta show l i content e
check-sent show l i some_thought content e = Steps.check-thinking_delta show l i content e
check-sent show l i some_json content e = Steps.check-json_delta show l i content e

sent-index :
    (i : ℤ) (n : ℕ) (d : DeltaKind) (content : String)
    → with_index (sent i d content) n ≡ sent (pos n) d content
unfolding assign content_block_delta
sent-index i n some_text content = refl
sent-index i n some_thought content = refl
sent-index i n some_json content = refl

-- The synthetic start of a block passes where no block has its index.
check-synthetic :
    (show : Json → String) (l : Ledger) (n : ℕ) (i : ℤ) (d : DeltaKind) (stored : Option Fields)
    → has l.open_blocks (pos n) ≡ false
    → contains l.seen_blocks (pos n) ≡ false
    → check_event show true l
        (block_start (pos n) (synthetic_start_content_block show (delta_kind d) i stored))
      ≡ ok (Steps.opened show l (pos n) (delta_kind d))
unfolding check_event block_start synthetic_start_content_block event_index dict_at text_at
    open_block lookup strip
check-synthetic show l n i some_text stored shut fresh = ground (arith, shut, fresh)
check-synthetic show l n i some_thought stored shut fresh = ground (arith, shut, fresh)
check-synthetic show l n i some_json stored shut fresh = ground (arith, shut, fresh)

module _ (show : Json → String) (neat : Bool) (types : Dict ℤ String) (s : BlockPolicy) (l : Ledger)
    (i : ℤ) (d : DeltaKind) (content : String) (t : Tracks neat types s l)
    (fits : get types i ≡ some (delta_kind d)) where
  reopen-Passes :
      (stored stored1 : Option Fields)
      → ((n : ℕ) → old_at (get s.by_upstream i) n ≡ 0)
      → Passes show neat types l (
          reopen s
            (sent i d content)
            i
            (delta_kind d)
            (synthetic_start_content_block show (delta_kind d) i stored)
            stored1)
  unfolding check_events content_block_delta put
  reopen-Passes stored stored1 no_old =
      let n = s.next_index in
      let (shut, unseen) = t.fresh n (omega arith) in
      let l1 = Steps.opened show l (pos n) (delta_kind d) in
      (
        l1,
        rw
            (
              check-synthetic show l n i d stored shut unseen,
              sent-index i n d content,
              check-sent show l1 (pos n) d content
                  (get-put_self l.open_blocks (pos n) (delta_kind d)),
            )
            refl,
        same-Tracks neat (put types i (delta_kind d)) types
            (allocate_new_segment s i (delta_kind d) stored1) l1
            (λ k. ground (arith, get-put types i (delta_kind d) k, fits, int_beq_iff i k))
            (allocate-Tracks show types s l i (delta_kind d) stored1 neat neat t
              (λ e. (e, no_old))),
      )

  module _ (kept : contains s.dropped_indexes i ≡ false) where
    sent-Passes :
        (seg : UpstreamBlock)
        → get s.by_upstream i ≡ some seg
        → seg.is_open ≡ true
        → Passes show neat types l (s, with_index (sent i d content) seg.down_index ∷ [])
    unfolding check_events content_block_delta
    sent-Passes seg e on =
        let typed = t.typed i seg e on kept in
        let open_there = Owned-get l s.by_upstream i seg t.owned e on in
        (
          l,
          rw
              (
                sent-index i seg.down_index d content,
                check-sent show l (pos seg.down_index) d content (open_there ∙ sym typed ∙ fits),
              )
              refl,
          t,
        )

pub forget_stop-Tracks :
    (neat : Bool) (types : Dict ℤ String) (s : BlockPolicy) (l : Ledger) (i : ℤ)
    → Tracks neat types s l
    → Tracks neat types
        (record s { pending_suppressed_stops = discard s.pending_suppressed_stops i })
        l
forget_stop-Tracks neat types s l i t = record {
  started_only = t.started_only;
  tight = t.tight;
  typed = t.typed;
  known = t.known;
  owned = t.owned;
  once = t.once;
  fresh = t.fresh;
}

module _ (show : Json → String) (s : BlockPolicy) (event : SseEvent) (i : ℤ) (kind : String)
    (seg : UpstreamBlock) (e : get s.by_upstream i ≡ some seg) where
  place-open :
      seg.is_open ≡ true
      → place_delta show s event i kind ≡ (s, with_index event seg.down_index ∷ [])
  unfolding place_delta
  place-open on = rw (place_delta, e, on) refl

  place-shut :
      seg.is_open ≡ false
      → place_delta show s event i kind
        ≡ reopen
            (record s { pending_suppressed_stops = discard s.pending_suppressed_stops i })
            event
            i
            kind
            (synthetic_start_content_block show kind i (stored_tool seg.last_start_block))
            seg.last_start_block
  unfolding place_delta
  place-shut off = rw (place_delta, e, off) refl

shut_old : (seg : UpstreamBlock) (n : ℕ) → seg.is_open ≡ false → old_at (some seg) n ≡ 0
shut_old seg n off = ground (arith, off)

place_delta-Passes :
    (show : Json → String) (neat : Bool) (types : Dict ℤ String) (s : BlockPolicy) (l : Ledger)
    (i : ℤ) (d : DeltaKind) (content : String)
    → Tracks neat types s l
    → get types i ≡ some (delta_kind d)
    → contains s.dropped_indexes i ≡ false
    → Passes show neat types l (place_delta show s (sent i d content) i (delta_kind d))
place_delta-Passes show neat types s l i d content t fits kept =
    elim (Option-cases (get s.by_upstream i)) [
      | inl none_there ↦ absurd (ground (arith, t.known i (ap is_some fits) kept, none_there))
      | inr (seg, e) ↦ elim (Bool-cases seg.is_open) [
        | inl on ↦
            subst (λ r. Passes show neat types l r)
              (sym (place-open show s (sent i d content) i (delta_kind d) seg e on))
              (sent-Passes show neat types s l i d content t fits kept seg e on)
        | inr off ↦
            subst (λ r. Passes show neat types l r)
              (sym (place-shut show s (sent i d content) i (delta_kind d) seg e off))
              (reopen-Passes show neat types
                (record s { pending_suppressed_stops = discard s.pending_suppressed_stops i }) l i d
                content (forget_stop-Tracks neat types s l i t) fits
                (stored_tool seg.last_start_block) seg.last_start_block
                (λ n. subst (λ o. old_at o n ≡ 0) (sym e) (shut_old seg n off)))
      ]
    ]

delta-dropped :
    (show : Json → String) (te : Bool) (s : BlockPolicy) (i : ℤ) (d : DeltaKind) (content : String)
    → contains s.dropped_indexes i ≡ true
    → transform_delta show te s (sent i d content) ≡ (s, [])
unfolding transform_delta content_block_delta delta_content lookup
delta-dropped show te s i some_text content e = rw e refl
delta-dropped show te s i some_thought content e = rw e refl
delta-dropped show te s i some_json content e = rw e refl

-- A delta of an index that is not dropped is dropped itself, or it is placed.
delta-kept :
    (show : Json → String) (te : Bool) (s : BlockPolicy) (i : ℤ) (d : DeltaKind) (content : String)
    → contains s.dropped_indexes i ≡ false
    → (transform_delta show te s (sent i d content) ≡ (s, []))
      ⊎ (transform_delta show te s (sent i d content)
          ≡ place_delta show s (sent i d content) i (delta_kind d))
unfolding transform_delta content_block_delta delta_content lookup should_drop_block_type
    delta_type_to_block_kind
delta-kept show true s i some_text content e = inr (rw e refl)
delta-kept show false s i some_text content e = inr (rw e refl)
delta-kept show true s i some_thought content e = inr (rw e refl)
delta-kept show false s i some_thought content e = inl (rw e refl)
delta-kept show true s i some_json content e = inr (rw e refl)
delta-kept show false s i some_json content e = inr (rw e refl)

pub delta-Passes :
    (show : Json → String) (te neat : Bool) (types : Dict ℤ String) (s : BlockPolicy) (l : Ledger)
    (i : ℤ) (d : DeltaKind) (content : String)
    → Tracks neat types s l
    → get types i ≡ some (delta_kind d)
    → Passes show neat types l (transform_delta show te s (sent i d content))
unfolding check_events
delta-Passes show te neat types s l i d content t fits =
    let P : BlockPolicy × List SseEvent → Type 0 = λ r. Passes show neat types l r in
    elim (Bool-cases (contains s.dropped_indexes i)) [
      | inl dropped ↦ subst P (sym (delta-dropped show te s i d content dropped)) (l, refl, t)
      | inr kept ↦ elim (delta-kept show te s i d content kept) [
        | inl nothing ↦ subst P (sym nothing) (l, refl, t)
        | inr placed ↦
            subst P (sym placed) (place_delta-Passes show neat types s l i d content t fits kept)
      ]
    ]
