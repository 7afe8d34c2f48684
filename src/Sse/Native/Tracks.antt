-- ===== src/Sse/Native/Tracks.antt =====
-- core/anthropic/native_sse_block_policy.py and core/anthropic/stream_contracts.py: what the policy
-- and the ledger of what it sent downstream have in common.
use bailian_free_claude_code.Base.{
  ℕ, ◌≤◌, String, ◌≡◌, ap, ◌∙◌, inl, inr, Bool, true, false, Option, some, List, arith, leb,
  Bool-cases, Option-cases, nat_eq, string_eq, contains, Dict, get, put, has, get-put, get-put_self,
  ok,
}
use bailian_free_claude_code.Base.{nat_beq_iff}
use bailian_free_claude_code.Sse.Json.{ℤ, pos, negsuc, int_eq, int_beq_iff, Json, Fields, SseEvent}
use bailian_free_claude_code.Sse.Contract.{Ledger, check_events}
use bailian_free_claude_code.Sse.Contract.Steps
use bailian_free_claude_code.Sse.Native.{
  UpstreamBlock, BlockPolicy, synthetic_close_other_open_blocks, allocate_new_segment, close_others,
}
use bailian_free_claude_code.Sse.Native.Upstream.{
  held, old_at, open_at, Owned, open_at-put, Owned-put, Owned-move, Owned-has,
}
use bailian_free_claude_code.Sse.Native.Branches.{get-close_others, close_others-Shuts}

-- The types of the last starts, the policy and the ledger of what was sent downstream. While no index
-- was started twice, which `neat` says, every block that is open in the ledger is an open block of the
-- policy.
pub record Tracks (neat : Bool) (types : Dict ℤ String) (s : BlockPolicy) (l : Ledger)
    : Type 0 where
  pub started_only : (k : ℤ) → has types k ≡ false → has s.by_upstream k ≡ false
  pub tight : neat ≡ true → (i : ℤ) → has l.open_blocks i ≡ true → held s.by_upstream i ≡ true
  pub typed :
      (k : ℤ) (seg : UpstreamBlock)
      → get s.by_upstream k ≡ some seg
      → seg.is_open ≡ true
      → contains s.dropped_indexes k ≡ false
      → get types k ≡ some seg.block_type
  pub known :
      (k : ℤ)
      → has types k ≡ true
      → contains s.dropped_indexes k ≡ false
      → has s.by_upstream k ≡ true
  pub owned : Owned l s.by_upstream
  pub once : (n : ℕ) → open_at s.by_upstream n ≤ 1
  pub fresh :
      (n : ℕ)
      → s.next_index ≤ n
      → (has l.open_blocks (pos n) ≡ false) × (contains l.seen_blocks (pos n) ≡ false)

-- A step that tracks: its events pass, and the ledger is tracked again.
abbrev pub Passes :
    (Json → String) → Bool → Dict ℤ String → Ledger → BlockPolicy × List SseEvent → Type 0
Passes show neat types l r =
    (l1 : Ledger) × (check_events show true l r.1 ≡ ok l1) × Tracks neat types r.0 l1

-- A new segment at an upstream index with no open block, and its start.
module _ (show : Json → String) (types : Dict ℤ String) (s : BlockPolicy) (l : Ledger) (k : ℤ)
    (kind : String) (stored : Option Fields) (neat neat1 : Bool) (t : Tracks neat types s l)
    (stays : neat1 ≡ true → (neat ≡ true) × ((n : ℕ) → old_at (get s.by_upstream k) n ≡ 0)) where
  allocated_tight :
      ((n : ℕ) → old_at (get s.by_upstream k) n ≡ 0)
      → ((i : ℤ) → has l.open_blocks i ≡ true → held s.by_upstream i ≡ true)
      → (i : ℤ) → has (Steps.opened show l (pos s.next_index) kind).open_blocks i ≡ true
      → held (allocate_new_segment s k kind stored).by_upstream i ≡ true
  unfolding allocate_new_segment
  allocated_tight no_old before (negsuc m) h = absurd (
      ground
        (arith, h, get-put l.open_blocks (pos s.next_index) kind (negsuc m), before (negsuc m)))
  allocated_tight no_old before (pos m) h =
      let new : UpstreamBlock = record {
        block_type = kind;
        down_index = s.next_index;
        is_open = true;
        last_start_block = stored;
      } in
      ground (
        arith,
        h,
        get-put l.open_blocks (pos s.next_index) kind (pos m),
        before (pos m),
        no_old m,
        open_at-put s.by_upstream k new m,
        nat_beq_iff s.next_index m,
      )

  pub allocate-Tracks :
      Tracks neat1
        (put types k kind)
        (allocate_new_segment s k kind stored)
        (Steps.opened show l (pos s.next_index) kind)
  unfolding allocate_new_segment
  allocate-Tracks =
      let n = s.next_index in
      let l1 = Steps.opened show l (pos n) kind in
      let (shut, unseen) = t.fresh n (omega arith) in
      let none_there : open_at s.by_upstream n ≡ 0 =
        elim (Bool-cases (leb (open_at s.by_upstream n) 0)) [
          | inl zero_there ↦ ground (arith, zero_there)
          | inr more ↦
              absurd
                (ground (arith, Owned-has l s.by_upstream n t.owned (ground (arith, more)), shut))
        ] in
      let new : UpstreamBlock = record {
        block_type = kind;
        down_index = n;
        is_open = true;
        last_start_block = stored;
      } in
      let at_new = get-put s.by_upstream k new in
      record {
        started_only = λ j h.
            ground (arith, at_new j, get-put types k kind j, h, t.started_only j, int_beq_iff k j);
        tight = λ e i h. allocated_tight (stays e).1 (t.tight (stays e).0) i h;
        typed = λ j seg e on kept.
            ground (
              arith,
              at_new j,
              get-put types k kind j,
              e,
              on,
              kept,
              t.typed j seg,
              int_beq_iff k j,
            );
        known = λ j h kept.
            ground (arith, at_new j, get-put types k kind j, h, kept, t.known j, int_beq_iff k j);
        owned =
            Owned-put l1 s.by_upstream k new
              (Owned-move l l1 s.by_upstream
                (λ m h. ground (
                  arith,
                  get-put l.open_blocks (pos n) kind (pos m),
                  none_there,
                  h,
                  nat_beq_iff n m,
                ))
                t.owned)
              (λ on. get-put_self l.open_blocks (pos n) kind);
        once = λ m.
            ground
              (arith, open_at-put s.by_upstream k new m, t.once m, none_there, nat_beq_iff n m);
        fresh = λ m h.
            let old = t.fresh m (omega (arith, h)) in
            (
              ground (arith, get-put l.open_blocks (pos n) kind (pos m), old.0, h, nat_beq_iff n m),
              ground (arith, old.1, h, nat_beq_iff n m),
            );
      }

still_tight :
    (d d1 : Dict ℤ UpstreamBlock) (l l1 : Ledger)
    → ((n : ℕ) → 1 ≤ open_at d n → has l1.open_blocks (pos n) ≡ true → 1 ≤ open_at d1 n)
    → ((i : ℤ) → has l.open_blocks i ≡ false → has l1.open_blocks i ≡ false)
    → ((i : ℤ) → has l.open_blocks i ≡ true → held d i ≡ true)
    → (i : ℤ) → has l1.open_blocks i ≡ true
    → held d1 i ≡ true
still_tight d d1 l l1 tight less before (negsuc n) h =
    absurd (ground (arith, h, less (negsuc n), before (negsuc n)))
still_tight d d1 l l1 tight less before (pos n) h =
    ground (arith, h, less (pos n), before (pos n), tight n)

-- Closing the blocks of the other upstream indices.
pub closed-Tracks :
    (show : Json → String) (neat : Bool) (types : Dict ℤ String) (s : BlockPolicy) (l : Ledger)
    (k : ℤ)
    → Tracks neat types s l
    → Passes show neat types l (synthetic_close_other_open_blocks s k)
unfolding synthetic_close_other_open_blocks
closed-Tracks show neat types s l k t =
    let (l1, passed, shuts) = close_others-Shuts show s.by_upstream k l t.owned t.once in
    let at_closed = get-close_others s.by_upstream k in
    (
      l1,
      passed,
      record {
        started_only = λ j h.
            ground (arith, at_closed j, t.started_only j h, Option-cases (get s.by_upstream j));
        tight = λ e i h.
            still_tight s.by_upstream (close_others s.by_upstream k).0 l l1 shuts.tight shuts.less
              (t.tight e) i h;
        typed = λ j seg e on kept.
            ground
              (arith, at_closed j, e, on, kept, t.typed j seg, Option-cases (get s.by_upstream j));
        known = λ j h kept. ground (arith, at_closed j, t.known j h kept);
        owned = shuts.owned;
        once = λ n. omega (arith, shuts.fewer n, t.once n);
        fresh = λ n h. (
          shuts.less (pos n) (t.fresh n h).0,
          ap (λ x. contains x (pos n)) shuts.seen ∙ (t.fresh n h).1,
        );
      },
    )
