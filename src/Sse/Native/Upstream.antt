-- ===== src/Sse/Native/Upstream.antt =====
-- core/anthropic/native_sse_block_policy.py: the block events of an upstream, and what the policy's
-- open blocks and the contract's ledger have in common.
use bailian_free_claude_code.Base.{
  ℕ, ◌+◌, ◌≤◌, String, ◌≡◌, ◌∙◌, inl, inr, Bool, true, false, not, ltb, ◌||◌, ◌&&◌, Option, none,
  some, List, [], ◌∷◌, arith, if◌then◌else◌, Bool-cases, ◌==◌, nat_eq, string_eq, Dict, get, put,
  has,
}
use bailian_free_claude_code.Sse.Json.{ℤ, pos, negsuc, int_eq, SseEvent}
use bailian_free_claude_code.Sse.Builder.{
  start_thinking, start_text, start_tool_use, content_block_delta, content_block_stop,
}
use bailian_free_claude_code.Sse.Contract.{Ledger}
use mathlib.Core.Path.{subst}
use bailian_free_claude_code.Base.{nat_beq_iff}
use bailian_free_claude_code.Sse.Native.{UpstreamBlock}

pub data BlockKind : Type 0 where
  a_text a_thought : BlockKind
  a_tool : String → String → BlockKind

pub data DeltaKind : Type 0 where
  some_text some_thought some_json : DeltaKind

-- A block event of an upstream: the start of a block with no content yet, a delta, or a stop.
pub data UpstreamEvent : Type 0 where
  opens : ℤ → BlockKind → UpstreamEvent
  sends : ℤ → DeltaKind → String → UpstreamEvent
  stops : ℤ → UpstreamEvent

abbrev pub kind_name : BlockKind → String
kind_name a_text = "text"
kind_name a_thought = "thinking"
kind_name (a_tool id name) = "tool_use"

abbrev pub delta_kind : DeltaKind → String
delta_kind some_text = "text"
delta_kind some_thought = "thinking"
delta_kind some_json = "tool_use"

abbrev pub delta_type : DeltaKind → String
delta_type some_text = "text_delta"
delta_type some_thought = "thinking_delta"
delta_type some_json = "input_json_delta"

-- The event as the upstream sends it.
abbrev pub render : UpstreamEvent → SseEvent
render (opens i a_text) = start_text i
render (opens i a_thought) = start_thinking i
render (opens i (a_tool id name)) = start_tool_use i id name
render (sends i d content) = content_block_delta i (delta_type d) content
render (stops i) = content_block_stop i

abbrev pub is_kind : Option String → String → Bool
is_kind none kind = false
is_kind (some t) kind = t == kind

-- Each delta has the type of the last start at its index, and each stop an index that was started.
-- Blocks may overlap, be stopped twice or never, and get deltas after their stop.
unfoldable pub is_fitting : Dict ℤ String → List UpstreamEvent → Bool
is_fitting types [] = true
is_fitting types (opens i kind ∷ events) = is_fitting (put types i (kind_name kind)) events
is_fitting types (sends i d content ∷ events) =
    is_kind (get types i) (delta_kind d) && is_fitting types events
is_fitting types (stops i ∷ events) = has types i && is_fitting types events

-- No index is started twice.
unfoldable pub is_separate : Dict ℤ String → List UpstreamEvent → Bool
is_separate types [] = true
is_separate types (opens i kind ∷ events) =
    not (has types i) && is_separate (put types i (kind_name kind)) events
is_separate types (sends i d content ∷ events) = is_separate types events
is_separate types (stops i ∷ events) = is_separate types events

-- The start of a block that the policy keeps.
abbrev pub is_kept : Bool → BlockKind → Bool
is_kept thinking_enabled a_thought = thinking_enabled
is_kept thinking_enabled a_text = true
is_kept thinking_enabled (a_tool id name) = true

abbrev is_kept_start : Bool → UpstreamEvent → Bool
is_kept_start thinking_enabled (opens i kind) = is_kept thinking_enabled kind
is_kept_start thinking_enabled (sends i d content) = false
is_kept_start thinking_enabled (stops i) = false

abbrev is_last : List UpstreamEvent → Bool
is_last [] = true
is_last (event ∷ events) = false

-- The last event is one.
unfoldable pub starts_last : Bool → List UpstreamEvent → Bool
starts_last thinking_enabled [] = false
starts_last thinking_enabled (event ∷ events) =
    starts_last thinking_enabled events || (is_last events && is_kept_start thinking_enabled event)

abbrev pub bit : Bool → ℕ
bit b = if b then 1 else 0

abbrev stands : UpstreamBlock → ℕ → Bool
stands seg n = seg.is_open && seg.down_index == n

-- How many open blocks have a downstream index.
unfoldable pub open_at : Dict ℤ UpstreamBlock → ℕ → ℕ
open_at [] n = 0
open_at ((k, seg) ∷ d) n = bit (stands seg n) + open_at d n

-- Whether an open block has a downstream index.
abbrev pub held : Dict ℤ UpstreamBlock → ℤ → Bool
held d (pos n) = ltb 0 (open_at d n)
held d (negsuc n) = false

abbrev Owns : Ledger → UpstreamBlock → Type 0
Owns l seg = seg.is_open ≡ true → get l.open_blocks (pos seg.down_index) ≡ some seg.block_type

-- Every open block is open in the ledger, with its type.
abbrev pub Owned : Ledger → Dict ℤ UpstreamBlock → Type 0
Owned l [] = Unit {0}
Owned l ((k, seg) ∷ d) = Owns l seg × Owned l d

abbrev pub old_at : Option UpstreamBlock → ℕ → ℕ
old_at none n = 0
old_at (some seg) n = bit (stands seg n)

pub open_at-put :
    (d : Dict ℤ UpstreamBlock) (k : ℤ) (seg : UpstreamBlock) (n : ℕ)
    → open_at (put d k seg) n + old_at (get d k) n ≡ open_at d n + bit (stands seg n)
unfolding open_at put get
open_at-put [] k seg n = omega arith
open_at-put ((j, r) ∷ d) k seg n = ground (arith, open_at-put d k seg n)

pub Owned-put :
    (l : Ledger) (d : Dict ℤ UpstreamBlock) (k : ℤ) (seg : UpstreamBlock)
    → Owned l d
    → Owns l seg
    → Owned l (put d k seg)
unfolding put
Owned-put l [] k seg o new = (new, tt)
Owned-put l ((j, r) ∷ d) k seg o new = elim (Bool-cases (j == k)) [
  | inl here ↦ rw here (new, o.1)
  | inr there ↦ rw there (o.0, Owned-put l d k seg o.1 new)
]

pub Owned-get :
    (l : Ledger) (d : Dict ℤ UpstreamBlock) (k : ℤ) (seg : UpstreamBlock)
    → Owned l d
    → get d k ≡ some seg
    → Owns l seg
unfolding get
Owned-get l [] k seg o e = absurd (ground (arith, e))
Owned-get l ((j, r) ∷ d) k seg o e = elim (Bool-cases (j == k)) [
  | inl here ↦ let same : r ≡ seg = ground (arith, e, here) in subst (λ x. Owns l x) same o.0
  | inr there ↦ Owned-get l d k seg o.1 (ground (arith, e, there))
]

-- Another ledger that has the same kinds at the indices of the open blocks.
pub Owned-move :
    (l l1 : Ledger) (d : Dict ℤ UpstreamBlock)
    → ((n : ℕ) → 1 ≤ open_at d n → get l1.open_blocks (pos n) ≡ get l.open_blocks (pos n))
    → Owned l d
    → Owned l1 d
unfolding open_at
Owned-move l l1 [] same o = tt
Owned-move l l1 ((k, seg) ∷ d) same o = (
  λ on.
      same seg.down_index (ground (arith, on, nat_beq_iff seg.down_index seg.down_index)) ∙ o.0 on,
  Owned-move l l1 d (λ n h. same n (omega (arith, h))) o.1,
)

-- An open block of the dict is open at its index.
open_at-get :
    (d : Dict ℤ UpstreamBlock) (k : ℤ) (seg : UpstreamBlock)
    → get d k ≡ some seg
    → seg.is_open ≡ true
    → 1 ≤ open_at d seg.down_index
unfolding open_at get
open_at-get [] k seg e on = absurd (ground (arith, e))
open_at-get ((j, r) ∷ d) k seg e on = elim (Bool-cases (j == k)) [
  | inl here ↦ ground (arith, e, here, on, nat_beq_iff seg.down_index seg.down_index)
  | inr there ↦ ground (arith, open_at-get d k seg (ground (arith, e, there)) on)
]

-- Blocks that are owned are open in the ledger.
pub Owned-has :
    (l : Ledger) (d : Dict ℤ UpstreamBlock) (n : ℕ)
    → Owned l d
    → 1 ≤ open_at d n
    → has l.open_blocks (pos n) ≡ true
unfolding open_at
Owned-has l [] n o h = absurd (omega (arith, h))
Owned-has l ((k, seg) ∷ d) n o h = elim (Bool-cases (stands seg n)) [
  | inl here ↦ ground (arith, o.0 (ground (arith, here)), here, nat_beq_iff seg.down_index n)
  | inr there ↦ Owned-has l d n o.1 (ground (arith, h, there))
]
