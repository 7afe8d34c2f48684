-- ===== src/Sse/Native/Branches.antt =====
-- core/anthropic/native_sse_block_policy.py: what closing the other blocks does.
use bailian_free_claude_code.Base.{
  ℕ, ◌≤◌, String, ◌≡◌, refl, ap, ◌∙◌, inl, inr, true, false, not, ◌||◌, [], ◌∷◌, arith,
  if◌then◌else◌, Bool-cases, ◌==◌, nat_eq, string_eq, Dict, is_some, get, remove, has, get-remove,
  ok,
}
use mathlib.Core.Option
use bailian_free_claude_code.Base.{nat_beq_iff}
use bailian_free_claude_code.Sse.Json.{ℤ, pos, int_eq, int_beq_iff, Json}
use bailian_free_claude_code.Sse.Contract.{Ledger, check_events}
use bailian_free_claude_code.Sse.Contract.Steps
use bailian_free_claude_code.Sse.Native.{UpstreamBlock, close_others}
use bailian_free_claude_code.Sse.Native.Upstream.{open_at, Owned, Owned-move}

abbrev pub shut_block : UpstreamBlock → UpstreamBlock
shut_block seg = record seg { is_open = false }

pub get-close_others :
    (d : Dict ℤ UpstreamBlock) (current k : ℤ)
    → get (close_others d current).0 k
      ≡ (if k == current then get d k else Option.map shut_block (get d k))
unfolding close_others get
get-close_others [] current k = ground arith
get-close_others ((j, seg) ∷ d) current k = elim (Bool-cases (j == current || not seg.is_open)) [
  | inl kept ↦ rw kept (
      ground (
        arith,
        kept,
        get-close_others d current k,
        int_beq_iff j k,
        int_beq_iff j current,
        int_beq_iff k current,
        same_closed seg,
      ))
  | inr closed ↦ rw closed (
      ground (
        arith,
        closed,
        get-close_others d current k,
        int_beq_iff j k,
        int_beq_iff j current,
        int_beq_iff k current,
      ))
]
  where
    same_closed : (r : UpstreamBlock) → r.is_open ≡ false → record r { is_open = false } ≡ r
    same_closed r off = rw off refl

-- What closing other blocks makes of a ledger: the open blocks that are left are owned, and the
-- blocks at indices of no open block are as they were.
pub record Shuts (l l1 : Ledger) (d d1 : Dict ℤ UpstreamBlock) : Type 0 where
  pub owned : Owned l1 d1
  pub fewer : (n : ℕ) → open_at d1 n ≤ open_at d n
  pub frame : (n : ℕ) → open_at d n ≡ 0 → get l1.open_blocks (pos n) ≡ get l.open_blocks (pos n)
  pub less : (i : ℤ) → has l.open_blocks i ≡ false → has l1.open_blocks i ≡ false
  pub seen : l1.seen_blocks ≡ l.seen_blocks
  pub tight : (n : ℕ) → 1 ≤ open_at d n → has l1.open_blocks (pos n) ≡ true → 1 ≤ open_at d1 n

pub close_others-Shuts :
    (show : Json → String) (d : Dict ℤ UpstreamBlock) (current : ℤ) (l : Ledger)
    → Owned l d
    → ((n : ℕ) → open_at d n ≤ 1)
    → (l1 : Ledger) × (check_events show true l (close_others d current).1.0 ≡ ok l1)
      × Shuts l l1 d (close_others d current).0
unfolding close_others open_at check_events
close_others-Shuts show [] current l o once = (
  l,
  refl,
  record {
    owned = tt;
    fewer = λ n. omega arith;
    frame = λ n e. refl;
    less = λ i e. e;
    seen = refl;
    tight = λ n h e. h;
  },
)
close_others-Shuts show ((k, seg) ∷ d) current l o once =
    elim (Bool-cases (k == current || not seg.is_open)) [
      | inl kept ↦
          let (l1, passed, s) =
            close_others-Shuts show d current l o.1 (λ n. omega (arith, once n)) in
          rw kept (
            l1,
            passed,
            record {
              owned = (
                λ on.
                    s.frame seg.down_index (
                      ground
                        (arith, once seg.down_index, on, nat_beq_iff seg.down_index seg.down_index))
                    ∙ o.0 on,
                s.owned,
              );
              fewer = λ n. omega (arith, s.fewer n);
              frame = λ n e. s.frame n (omega (arith, e));
              less = s.less;
              seen = s.seen;
              tight = λ n h e. ground (arith, h, s.tight n, e);
            },
          )
      | inr closed ↦
          let m = pos seg.down_index in
          let on : seg.is_open ≡ true = ground (arith, closed) in
          let self = nat_beq_iff seg.down_index seg.down_index in
          let l0 = record l { open_blocks = remove l.open_blocks m } in
          let owned0 : Owned l0 d =
            Owned-move l l0 d
              (λ n h. ground (
                arith,
                get-remove l.open_blocks m (pos n),
                once n,
                h,
                on,
                nat_beq_iff seg.down_index n,
              ))
              o.1 in
          let (l1, passed, s) =
            close_others-Shuts show d current l0 owned0 (λ n. omega (arith, once n)) in
          let stopped = Steps.check-stop show l m (ap is_some (o.0 on)) in
          rw closed (
            l1,
            rw stopped passed,
            record {
              owned = (λ bad. absurd (ground (arith, bad)), s.owned);
              fewer = λ n. omega (arith, s.fewer n);
              frame = λ n e.
                  s.frame n (omega (arith, e))
                  ∙ ground (
                    arith,
                    get-remove l.open_blocks m (pos n),
                    e,
                    on,
                    nat_beq_iff seg.down_index n,
                  );
              less = λ i e.
                  s.less i (ground (arith, get-remove l.open_blocks m i, e, int_beq_iff m i));
              seen = s.seen;
              tight = λ n h e. ground (
                arith,
                h,
                on,
                e,
                s.tight n,
                s.less (pos n),
                get-remove l.open_blocks m (pos n),
                nat_beq_iff seg.down_index n,
                self,
              );
            },
          )
    ]
