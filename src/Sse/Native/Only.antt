-- ===== src/Sse/Native/Only.antt =====
-- core/anthropic/native_sse_block_policy.py: a start repairs the overlap of the upstream's blocks.
use bailian_free_claude_code.Base.{
  ℕ, String, ◌≡◌, refl, sym, inl, inr, Bool, true, false, not, ◌||◌, some, List, [], ◌∷◌, arith,
  Bool-cases, ◌==◌, nat_eq, string_eq, Dict, get, has,
}
use mathlib.Core.Path.{subst}
use bailian_free_claude_code.Base.{nat_beq_iff}
use bailian_free_claude_code.Sse.Json.{ℤ, pos, negsuc, int_eq, int_beq_iff, Json, SseEvent}
use bailian_free_claude_code.Sse.Contract.{Ledger}
use bailian_free_claude_code.Sse.Native.{
  UpstreamBlock, BlockPolicy, close_others, synthetic_close_other_open_blocks, allocate_new_segment,
  transform,
}
use bailian_free_claude_code.Sse.Native.Upstream.{
  BlockKind, a_text, a_thought, a_tool, opens, kind_name, render, is_kept, bit, open_at,
  open_at-put, Owned-has,
}
use bailian_free_claude_code.Sse.Native.Branches.{get-close_others}
use bailian_free_claude_code.Sse.Native.Tracks.{Tracks, Passes}
use bailian_free_claude_code.Sse.Native.Starts.{
  block_of, started, none_old, start-text, start-tool, start-thought,
}
use bailian_free_claude_code.Sse.Builder.{start_text, start_thinking, start_tool_use, block_start}

-- One block is open, and no other.
abbrev pub OnlyOpen : Ledger → Type 0
OnlyOpen l = (n : ℕ) × ((i : ℤ) → has l.open_blocks i ≡ (i == pos n))

closed_all :
    (d : Dict ℤ UpstreamBlock) (current : ℤ) (n : ℕ)
    → has d current ≡ false
    → open_at (close_others d current).0 n ≡ 0
unfolding close_others open_at get
closed_all [] current n absent = refl
closed_all ((k, seg) ∷ d) current n absent = elim (Bool-cases (k == current || not seg.is_open)) [
  | inl kept ↦ rw kept (ground (arith, kept, absent, closed_all d current n))
  | inr closed ↦ rw closed (ground (arith, closed, absent, closed_all d current n))
]

only_open :
    (types : Dict ℤ String) (s : BlockPolicy) (l : Ledger) (n : ℕ)
    → Tracks true types s l
    → ((m : ℕ) → open_at s.by_upstream m ≡ bit (n == m))
    → (i : ℤ) → has l.open_blocks i ≡ (i == pos n)
only_open types s l n t one (negsuc m) = ground (arith, t.tight refl (negsuc m))
only_open types s l n t one (pos m) = ground (
  arith,
  t.tight refl (pos m),
  one m,
  Owned-has l s.by_upstream m t.owned,
  nat_beq_iff n m,
  nat_beq_iff m n,
)

module _ (s : BlockPolicy) (i : ℤ) (absent : has s.by_upstream i ≡ false) where
  -- After a start at a new index its block is the only open one.
  one_open :
      (kind : BlockKind) (m : ℕ)
      → open_at (started s i kind).0.by_upstream m ≡ bit (s.next_index == m)
  unfolding synthetic_close_other_open_blocks allocate_new_segment
  one_open kind m =
      let d1 = (close_others s.by_upstream i).0 in
      let new : UpstreamBlock = record {
        block_type = kind_name kind;
        down_index = s.next_index;
        is_open = true;
        last_start_block = some (block_of kind);
      } in
      let gone : has d1 i ≡ false =
        ground (arith, get-close_others s.by_upstream i i, absent, int_beq_iff i i) in
      ground (
        arith,
        open_at-put d1 i new m,
        none_old (get d1 i) m gone,
        closed_all s.by_upstream i m absent,
      )

kept-started :
    (show : Json → String) (te : Bool) (s : BlockPolicy) (i : ℤ) (kind : BlockKind)
    → is_kept te kind ≡ true
    → transform show te s (render (opens i kind)) ≡ started s i kind
unfolding transform start_text start_thinking start_tool_use block_start
kept-started show te s i a_text kept = start-text te s i
kept-started show te s i (a_tool id name) kept = start-tool te s i id name
kept-started show true s i a_thought kept = start-thought s i
kept-started show false s i a_thought kept = absurd (ground (arith, kept))

-- A start that the policy keeps, at an index that was not started before.
pub last-OnlyOpen :
    (show : Json → String) (te : Bool) (types types1 : Dict ℤ String) (s : BlockPolicy) (l : Ledger)
    (i : ℤ) (kind : BlockKind)
    → Tracks true types s l
    → has types i ≡ false
    → is_kept te kind ≡ true
    → (p : Passes show true types1 l (transform show te s (render (opens i kind)))) → OnlyOpen p.0
last-OnlyOpen show te types types1 s l i kind t absent kept =
    let P : BlockPolicy × List SseEvent → Type 0 =
      λ r. (p : Passes show true types1 l r) → OnlyOpen p.0 in
    subst P (sym (kept-started show te s i kind kept)) (λ p. (
      s.next_index,
      only_open types1 (started s i kind).0 p.0 s.next_index p.2
          (one_open s i (t.started_only i absent) kind),
    ))
