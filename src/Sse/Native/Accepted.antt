-- ===== src/Sse/Native/Accepted.antt =====
-- core/anthropic/native_sse_block_policy.py against core/anthropic/stream_contracts.py: what the
-- policy sends downstream passes the contract's loop.
use bailian_free_claude_code.Base.{
  String, ◌≡◌, refl, sym, ap, ◌∙◌, Bool, true, false, Option, none, some, List, [], ◌∷◌, map, arith,
  eq_iff, nat_eq, string_eq, Dict, get, put, get-put, get-nil, ok,
}
use mathlib.Core.Path.{subst}
use bailian_free_claude_code.Sse.Json.{ℤ, pos, int_eq, int_beq_iff, Json}
use bailian_free_claude_code.Sse.Builder.{
  block_start, start_thinking, start_text, start_tool_use, content_block_delta, content_block_stop,
}
use bailian_free_claude_code.Sse.Contract.{Ledger, no_blocks, check_events}
use bailian_free_claude_code.Sse.Conforms.Sends.{check-append}
use bailian_free_claude_code.Sse.Native.{
  UpstreamBlock, BlockPolicy, new_policy, transform, transform_all,
}
use bailian_free_claude_code.Sse.Native.Upstream.{
  BlockKind, a_text, a_thought, a_tool, UpstreamEvent, opens, sends, stops, kind_name, delta_kind,
  render, is_fitting, open_at,
}
use bailian_free_claude_code.Sse.Native.Tracks.{Tracks, Passes}
use bailian_free_claude_code.Base.{has, not, ◌&&◌}
use bailian_free_claude_code.Sse.Native.Only.{OnlyOpen, last-OnlyOpen}
use bailian_free_claude_code.Sse.Native.Upstream.{is_kind, is_kept, is_separate, starts_last}
use bailian_free_claude_code.Sse.Native.Starts.{
  started-Passes, start-text, start-tool, start-thought, start-dropped,
}
use bailian_free_claude_code.Sse.Native.Deltas.{delta-Passes}
use bailian_free_claude_code.Sse.Native.Stops.{stop-Passes}

dropped-Tracks :
    (neat neat1 : Bool) (types : Dict ℤ String) (s : BlockPolicy) (l : Ledger) (i : ℤ)
    (kind : String)
    → Tracks neat types s l
    → (neat1 ≡ true → neat ≡ true)
    → Tracks neat1 (put types i kind) (record s { dropped_indexes = i ∷ s.dropped_indexes }) l
dropped-Tracks neat neat1 types s l i kind t stays = record {
  started_only = λ k h. ground (arith, get-put types i kind k, h, t.started_only k);
  tight = λ e. t.tight (stays e);
  typed = λ k seg e on kept.
      ground (arith, get-put types i kind k, e, on, kept, t.typed k seg, int_beq_iff i k);
  known = λ k h kept. ground (arith, get-put types i kind k, h, kept, t.known k, int_beq_iff i k);
  owned = t.owned;
  once = t.once;
  fresh = t.fresh;
}

start-Passes :
    (show : Json → String) (te neat neat1 : Bool) (types : Dict ℤ String) (s : BlockPolicy)
    (l : Ledger) (i : ℤ) (kind : BlockKind)
    → Tracks neat types s l
    → (neat1 ≡ true → (neat ≡ true) × (has types i ≡ false))
    → Passes show neat1
        (put types i (kind_name kind))
        l
        (transform show te s (render (opens i kind)))
unfolding transform start_text start_thinking start_tool_use block_start check_events
start-Passes show te neat neat1 types s l i a_text t once =
    subst (λ r. Passes show neat1 (put types i "text") l r) (sym (start-text te s i))
      (started-Passes show neat neat1 types s l i t once a_text)
start-Passes show te neat neat1 types s l i (a_tool id name) t once =
    subst (λ r. Passes show neat1 (put types i "tool_use") l r) (sym (start-tool te s i id name))
      (started-Passes show neat neat1 types s l i t once (a_tool id name))
start-Passes show true neat neat1 types s l i a_thought t once =
    subst (λ r. Passes show neat1 (put types i "thinking") l r) (sym (start-thought s i))
      (started-Passes show neat neat1 types s l i t once a_thought)
start-Passes show false neat neat1 types s l i a_thought t once =
    subst (λ r. Passes show neat1 (put types i "thinking") l r) (sym (start-dropped s i))
      (l, refl, dropped-Tracks neat neat1 types s l i "thinking" t (λ e. (once e).0))

-- What is left of a stream after its first event passes too, to a ledger of which something holds.
rest-Passes :
    (show : Json → String) (te neat1 : Bool) (types1 : Dict ℤ String) (s : BlockPolicy) (l : Ledger)
    (event : UpstreamEvent) (events : List UpstreamEvent) (Q : Ledger → Type 0)
    → Passes show neat1 types1 l (transform show te s (render event))
    → ((s1 : BlockPolicy) (l1 : Ledger)
        → Tracks neat1 types1 s1 l1
        → (l2 : Ledger) × (check_events show true l1
              (transform_all show te s1 (map render events)).1
            ≡ ok l2)
          × Q l2)
    → (l2 : Ledger) × (check_events show true l
          (transform_all show te s (map render (event ∷ events))).1
        ≡ ok l2)
      × Q l2
unfolding transform_all
rest-Passes show te neat1 types1 s l event events Q (l1, passed, t1) rest =
    let first = transform show te s (render event) in
    let (l2, passed2, holds) = rest first.0 l1 t1 in
    (
      l2,
      check-append show first.1 (transform_all show te first.0 (map render events)).1 l l1 passed
          ∙ passed2,
      holds,
    )

fits_kind : (o : Option String) (kind : String) → is_kind o kind ≡ true → o ≡ some kind
fits_kind none kind e = absurd (ground (arith, e))
fits_kind (some t) kind e = ap some ((eq_iff t kind).0 e)

single :
    (show : Json → String) (te neat : Bool) (types : Dict ℤ String) (s : BlockPolicy) (l : Ledger)
    (i : ℤ) (kind : BlockKind)
    → Tracks neat types s l
    → (p : Passes show
        (neat && not (has types i))
        (put types i (kind_name kind))
        l
        (transform show te s (render (opens i kind))))
    → (neat && is_separate types (opens i kind ∷ [])) ≡ true
    → is_kept te kind ≡ true
    → OnlyOpen p.0
unfolding is_separate
single show te neat types s l i kind t p sep kept =
    let neatly : neat ≡ true = ground (arith, sep) in
    let absent : has types i ≡ false = ground (arith, sep) in
    let now : (neat && not (has types i)) ≡ true = ground (arith, neatly, absent) in
    let P : Bool → Type 0 = λ b.
      (q : Passes show b (put types i (kind_name kind)) l
        (transform show te s (render (opens i kind))))
      → OnlyOpen q.0 in
    subst P (sym now)
      (last-OnlyOpen show te types (put types i (kind_name kind)) s l i kind
        (subst (λ b. Tracks b types s l) neatly t) absent kept)
      p

-- Where no index was started twice, a start that is kept leaves its block as the only open one.
abbrev Repairs : Bool → Dict ℤ String → Bool → List UpstreamEvent → Ledger → Type 0
Repairs neat types te events l =
    (neat && is_separate types events) ≡ true → starts_last te events ≡ true → OnlyOpen l

all-Passes :
    (show : Json → String) (te neat : Bool) (events : List UpstreamEvent) (types : Dict ℤ String)
    (s : BlockPolicy) (l : Ledger)
    → Tracks neat types s l
    → is_fitting types events ≡ true
    → (l1 : Ledger) × (check_events show true l (transform_all show te s (map render events)).1
        ≡ ok l1)
      × Repairs neat types te events l1
unfolding is_fitting transform_all check_events transform content_block_stop content_block_delta
    is_separate starts_last
all-Passes show te neat [] types s l t fits = (l, refl, λ sep last. absurd (ground (arith, last)))
all-Passes show te neat (opens i kind ∷ []) types s l t fits =
    let neat1 = neat && not (has types i) in
    let once : neat1 ≡ true → (neat ≡ true) × (has types i ≡ false) =
      λ e. (ground (arith, e), ground (arith, e)) in
    let p = start-Passes show te neat neat1 types s l i kind t once in
    (
      p.0,
      check-append show (transform show te s (render (opens i kind))).1 [] l p.0 p.1,
      λ sep last. single show te neat types s l i kind t p sep (ground (arith, last)),
    )
all-Passes show te neat (opens i kind ∷ next ∷ events) types s l t fits =
    let neat1 = neat && not (has types i) in
    let once : neat1 ≡ true → (neat ≡ true) × (has types i ≡ false) =
      λ e. (ground (arith, e), ground (arith, e)) in
    let types1 = put types i (kind_name kind) in
    rest-Passes show te neat1 types1 s l (opens i kind) (next ∷ events)
      (Repairs neat types te (opens i kind ∷ next ∷ events))
      (start-Passes show te neat neat1 types s l i kind t once)
      (λ s1 l1 t1.
        let (l2, passed, only) = all-Passes show te neat1 (next ∷ events) types1 s1 l1 t1 fits in
        (l2, passed, λ sep last. only (ground (arith, sep)) (ground (arith, last))))
all-Passes show te neat (sends i d content ∷ events) types s l t fits =
    let here = fits_kind (get types i) (delta_kind d) (ground (arith, fits)) in
    rest-Passes show te neat types s l (sends i d content) events
      (Repairs neat types te (sends i d content ∷ events))
      (delta-Passes show te neat types s l i d content t here)
      (λ s1 l1 t1.
        let (l2, passed, only) =
          all-Passes show te neat events types s1 l1 t1 (ground (arith, fits)) in
        (l2, passed, λ sep last. only (ground (arith, sep)) (ground (arith, last))))
all-Passes show te neat (stops i ∷ events) types s l t fits =
    rest-Passes show te neat types s l (stops i) events (Repairs neat types te (stops i ∷ events))
      (stop-Passes show te neat types s l i t (ground (arith, fits)))
      (λ s1 l1 t1.
        let (l2, passed, only) =
          all-Passes show te neat events types s1 l1 t1 (ground (arith, fits)) in
        (l2, passed, λ sep last. only (ground (arith, sep)) (ground (arith, last))))

new-Tracks : Tracks true [] new_policy no_blocks
unfolding open_at
new-Tracks = record {
  started_only = λ k h. ground (arith, get-nil {V = UpstreamBlock} k);
  tight = λ e i h. absurd (ground (arith, h, get-nil {V = String} i));
  typed = λ k seg e on kept. absurd (ground (arith, e, get-nil {V = UpstreamBlock} k));
  known = λ k h kept. absurd (ground (arith, h, get-nil {V = String} k));
  owned = tt;
  once = λ n. omega arith;
  fresh = λ n h. (ground (arith, get-nil {V = String} (pos n)), refl);
}

pub native_accepted :
    (show : Json → String) (thinking_enabled : Bool) (events : List UpstreamEvent)
    → is_fitting [] events ≡ true
    → (l : Ledger) × (check_events show true no_blocks
          (transform_all show thinking_enabled new_policy (map render events)).1
        ≡ ok l)
      × (is_separate [] events ≡ true → starts_last thinking_enabled events ≡ true → OnlyOpen l)
native_accepted show thinking_enabled events fits =
    let (l, passed, only) =
      all-Passes show thinking_enabled true events [] new_policy no_blocks new-Tracks fits in
    (l, passed, λ sep last. only sep last)
