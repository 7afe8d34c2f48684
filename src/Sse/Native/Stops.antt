-- ===== src/Sse/Native/Stops.antt =====
-- core/anthropic/native_sse_block_policy.py: a stop passes the contract's loop.
use bailian_free_claude_code.Base.{
  ℕ, String, ◌≡◌, refl, sym, ap, inl, inr, Bool, true, false, some, List, [], ◌∷◌, arith,
  Bool-cases, Option-cases, nat_eq, string_eq, contains, Dict, is_some, get, put, remove, has,
  get-put, get-remove,
}
use mathlib.Core.Path.{subst}
use bailian_free_claude_code.Base.{nat_beq_iff}
use bailian_free_claude_code.Sse.Json.{
  ℤ, pos, negsuc, int_eq, int_beq_iff, Json, lookup, assign, SseEvent,
}
use bailian_free_claude_code.Sse.Builder.{content_block_stop}
use bailian_free_claude_code.Sse.Contract.{Ledger, check_events}
use bailian_free_claude_code.Sse.Contract.Steps
use bailian_free_claude_code.Sse.Native.{
  UpstreamBlock, BlockPolicy, discard, with_index, close_segment, transform_stop,
}
use bailian_free_claude_code.Sse.Native.Upstream.{
  held, Owned, open_at-put, Owned-put, Owned-get, Owned-move,
}
use bailian_free_claude_code.Sse.Native.Branches.{shut_block}
use bailian_free_claude_code.Sse.Native.Tracks.{Tracks, Passes}
use bailian_free_claude_code.Sse.Native.Deltas.{forget_stop-Tracks}

stop-index : (i : ℤ) (n : ℕ) → with_index (content_block_stop i) n ≡ content_block_stop (pos n)
unfolding assign content_block_stop
stop-index i n = refl

module _ (show : Json → String) (neat : Bool) (types : Dict ℤ String) (s : BlockPolicy) (l : Ledger)
    (i : ℤ) (t : Tracks neat types s l) (seg : UpstreamBlock) (e : get s.by_upstream i ≡ some seg)
    (on : seg.is_open ≡ true) where
  shut_tight :
      ((j : ℤ) → has l.open_blocks j ≡ true → held s.by_upstream j ≡ true)
      → (j : ℤ) → has (remove l.open_blocks (pos seg.down_index)) j ≡ true
      → held (put s.by_upstream i (shut_block seg)) j ≡ true
  shut_tight before (negsuc n) h = absurd (
      ground
        (arith, h, get-remove l.open_blocks (pos seg.down_index) (negsuc n), before (negsuc n)))
  shut_tight before (pos n) h = ground (
    arith,
    h,
    e,
    on,
    get-remove l.open_blocks (pos seg.down_index) (pos n),
    before (pos n),
    open_at-put s.by_upstream i (shut_block seg) n,
    nat_beq_iff seg.down_index n,
  )

  -- Closing an open block.
  shut-Passes : Passes show neat types l (
    record s { by_upstream = put s.by_upstream i (shut_block seg) },
    content_block_stop (pos seg.down_index) ∷ [],
  )
  unfolding check_events
  shut-Passes =
      let m = pos seg.down_index in
      let blocks = put s.by_upstream i (shut_block seg) in
      let l1 = record l { open_blocks = remove l.open_blocks m } in
      let there = Owned-get l s.by_upstream i seg t.owned e on in
      let at_new = get-put s.by_upstream i (shut_block seg) in
      let counts = open_at-put s.by_upstream i (shut_block seg) in
      let self = nat_beq_iff seg.down_index in
      let owned0 : Owned l blocks =
        Owned-put l s.by_upstream i (shut_block seg) t.owned
          (λ bad. absurd (ground (arith, bad))) in
      (
        l1,
        rw (Steps.check-stop show l m (ap is_some there)) refl,
        record {
          started_only = λ j h. ground (arith, at_new j, t.started_only j h, e, int_beq_iff i j);
          tight = λ neatly j h. shut_tight (t.tight neatly) j h;
          typed = λ j r e1 on1 kept.
              ground (arith, at_new j, e1, on1, kept, t.typed j r, int_beq_iff i j);
          known = λ j h kept. ground (arith, at_new j, h, kept, t.known j, int_beq_iff i j);
          owned =
              Owned-move l l1 blocks
                (λ n h.
                  ground (
                    arith,
                    get-remove l.open_blocks m (pos n),
                    counts n,
                    e,
                    on,
                    h,
                    t.once n,
                    self n,
                  ))
                owned0;
          once = λ n. ground (arith, counts n, e, on, t.once n);
          fresh = λ n h.
              let old = t.fresh n h in
              (
                ground (arith, get-remove l.open_blocks m (pos n), old.0, int_beq_iff m (pos n)),
                old.1,
              );
        },
      )

stop-dropped :
    (te : Bool) (s : BlockPolicy) (i : ℤ)
    → contains s.dropped_indexes i ≡ true
    → transform_stop te s (content_block_stop i) ≡ (s, [])
unfolding transform_stop content_block_stop lookup
stop-dropped te s i e = rw e refl

stop-suppressed :
    (te : Bool) (s : BlockPolicy) (i : ℤ)
    → contains s.dropped_indexes i ≡ false
    → contains s.pending_suppressed_stops i ≡ true
    → transform_stop te s (content_block_stop i)
      ≡ (record s { pending_suppressed_stops = discard s.pending_suppressed_stops i }, [])
unfolding transform_stop content_block_stop lookup
stop-suppressed te s i kept e = rw (kept, e) refl

module _ (te : Bool) (s : BlockPolicy) (i : ℤ) (kept : contains s.dropped_indexes i ≡ false)
    (wanted : contains s.pending_suppressed_stops i ≡ false) (seg : UpstreamBlock)
    (e : get s.by_upstream i ≡ some seg) where
  stop-open :
      seg.is_open ≡ true
      → transform_stop te s (content_block_stop i) ≡ (
        record s { by_upstream = put s.by_upstream i (shut_block seg) },
        content_block_stop (pos seg.down_index) ∷ [],
      )
  unfolding transform_stop content_block_stop lookup close_segment assign
  stop-open on = rw (kept, wanted, e, on) refl

  stop-shut : seg.is_open ≡ false → transform_stop te s (content_block_stop i) ≡ (s, [])
  unfolding transform_stop content_block_stop lookup close_segment
  stop-shut off = rw (kept, wanted, e, off) refl

pub stop-Passes :
    (show : Json → String) (te neat : Bool) (types : Dict ℤ String) (s : BlockPolicy) (l : Ledger)
    (i : ℤ)
    → Tracks neat types s l
    → has types i ≡ true
    → Passes show neat types l (transform_stop te s (content_block_stop i))
unfolding check_events
stop-Passes show te neat types s l i t there =
    let P : BlockPolicy × List SseEvent → Type 0 = λ r. Passes show neat types l r in
    elim (Bool-cases (contains s.dropped_indexes i)) [
      | inl dropped ↦ subst P (sym (stop-dropped te s i dropped)) (l, refl, t)
      | inr kept ↦ elim (Bool-cases (contains s.pending_suppressed_stops i)) [
        | inl pending ↦
            subst P (sym (stop-suppressed te s i kept pending))
              (l, refl, forget_stop-Tracks neat types s l i t)
        | inr wanted ↦ elim (Option-cases (get s.by_upstream i)) [
          | inl none_there ↦ absurd (ground (arith, t.known i there kept, none_there))
          | inr (seg, e) ↦ elim (Bool-cases seg.is_open) [
            | inl on ↦
                subst P (sym (stop-open te s i kept wanted seg e on))
                  (shut-Passes show neat types s l i t seg e on)
            | inr off ↦ subst P (sym (stop-shut te s i kept wanted seg e off)) (l, refl, t)
          ]
        ]
      ]
    ]
