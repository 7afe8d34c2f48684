-- ===== src/Sse/Tracker/Checks.antt =====
-- core/anthropic/emitted_sse_tracker.py: what an event is that passes the contract's loop.
use bailian_free_claude_code.Base.{
  String, ◌≡◌, refl, ◌⊎◌, inl, inr, Bool, true, false, not, ◌&&◌, ◌∷◌, arith, eq_iff, if◌then◌else◌,
  Bool-cases, Option-cases, ◌==◌, nat_eq, string_eq, get, put, remove, has, Outcome, ok, raised,
  ◌>>=◌,
}
use bailian_free_claude_code.Base.{Exception}
use bailian_free_claude_code.Sse.Json.{ℤ, int_eq, Json, SseEvent}
use bailian_free_claude_code.Sse.Strings.{strip}
use bailian_free_claude_code.Sse.Contract.{
  Ledger, event_index, dict_at, text_at, open_block, check_delta, check_delta_type, close_block,
  check_event,
}

pub Outcome-cases {ℓ} :
    {A : Type ℓ} (o : Outcome A) → ((a : A) × (o ≡ ok a)) ⊎ ((x : Exception) × (o ≡ raised x))
Outcome-cases (ok a) = inl (a, refl)
Outcome-cases (raised x) = inr (x, refl)

-- What an accepted event does to the ledger.
abbrev Opens : Ledger → SseEvent → Ledger → Type 0
Opens l e l1 =
    (i : ℤ) × (kind : String) × ((e.event == "content_block_start") ≡ true)
    × (event_index e ≡ ok i)
    × (has l.open_blocks i ≡ false)
    × (l1 ≡ record { open_blocks = put l.open_blocks i kind; seen_blocks = i ∷ l.seen_blocks })

abbrev Closes : Ledger → SseEvent → Ledger → Type 0
Closes l e l1 =
    (i : ℤ) × ((e.event == "content_block_stop") ≡ true)
    × (event_index e ≡ ok i)
    × (has l.open_blocks i ≡ true)
    × (l1 ≡ record l { open_blocks = remove l.open_blocks i })

abbrev Keeps : Ledger → SseEvent → Ledger → Type 0
Keeps l e l1 =
    ((e.event == "content_block_start") ≡ false)
    × ((e.event == "content_block_stop") ≡ false)
    × (l1 ≡ l)

names_differ :
    (name : String)
    → (name == "content_block_delta") ≡ true
    → (name == "content_block_stop") ≡ false
names_differ name delta =
    let same : name ≡ "content_block_delta" = (eq_iff name "content_block_delta").0 delta in
    rw same refl

checked_keeps : (l l1 : Ledger) (r : Outcome {0} Unit) → (r >>= λ _. ok l) ≡ ok l1 → l1 ≡ l
checked_keeps l l1 (ok _) e = ground (arith, e)
checked_keeps l l1 (raised x) e = absurd (ground (arith, e))

module _ (show : Json → String) where
  pub opened_by :
      (l l1 : Ledger) (i : ℤ) (block_type block_text : String)
      → open_block show l i block_type block_text ≡ ok l1
      → (kind : String) × (has l.open_blocks i ≡ false)
        × (l1 ≡ record { open_blocks = put l.open_blocks i kind; seen_blocks = i ∷ l.seen_blocks })
  unfolding open_block
  opened_by l l1 i block_type block_text e = (
    if block_type == "text" && not (strip block_text == "") then "text_eager" else block_type,
    ground (arith, e),
    ground (arith, e),
  )

  pub delta_keeps :
      (l l1 : Ledger) (i : ℤ) (delta_type : String)
      → check_delta show l i delta_type ≡ ok l1
      → l1 ≡ l
  unfolding check_delta
  delta_keeps l l1 i delta_type e = elim (Option-cases (get l.open_blocks i)) [
    | inl shut ↦ absurd (ground (arith, e, shut))
    | inr (kind, there) ↦
        checked_keeps l l1 (check_delta_type kind delta_type) (ground (arith, e, there))
  ]

  pub closed_by :
      (l l1 : Ledger) (i : ℤ)
      → close_block show l i ≡ ok l1
      → (has l.open_blocks i ≡ true) × (l1 ≡ record l { open_blocks = remove l.open_blocks i })
  unfolding close_block
  closed_by l l1 i e = (ground (arith, e), ground (arith, e))

  pub check_cases :
      (allow : Bool) (l l1 : Ledger) (e : SseEvent)
      → check_event show allow l e ≡ ok l1
      → Opens l e l1 ⊎ Closes l e l1 ⊎ Keeps l e l1
  unfolding check_event
  check_cases allow l l1 e passed = elim (Bool-cases (e.event == "error" && not allow)) [
    | inl bad ↦ absurd (ground (arith, passed, bad))
    | inr fine ↦ elim (Bool-cases (e.event == "content_block_start")) [
      | inl starts ↦ elim (Outcome-cases (event_index e)) [
        | inr (x, bad) ↦ absurd (ground (arith, passed, fine, starts, bad))
        | inl (i, index) ↦ elim (Outcome-cases (dict_at e "content_block")) [
          | inr (x, bad) ↦ absurd (ground (arith, passed, fine, starts, index, bad))
          | inl (block, dict) ↦
              let (kind, shut, same) =
                opened_by l l1 i (text_at show block "type") (text_at show block "text")
                  (ground (arith, passed, fine, starts, index, dict)) in
              inl (i, kind, starts, index, shut, same)
        ]
      ]
      | inr no_start ↦ elim (Bool-cases (e.event == "content_block_delta")) [
        | inl delta ↦ elim (Outcome-cases (event_index e)) [
          | inr (x, bad) ↦ absurd (ground (arith, passed, fine, no_start, delta, bad))
          | inl (i, index) ↦ elim (Outcome-cases (dict_at e "delta")) [
            | inr (x, bad) ↦ absurd (ground (arith, passed, fine, no_start, delta, index, bad))
            | inl (d, dict) ↦ inr (
                inr (
                  no_start,
                  names_differ e.event delta,
                  delta_keeps l l1 i (text_at show d "type")
                      (ground (arith, passed, fine, no_start, delta, index, dict)),
                ))
          ]
        ]
        | inr no_delta ↦ elim (Bool-cases (e.event == "content_block_stop")) [
          | inl stops ↦ elim (Outcome-cases (event_index e)) [
            | inr (x, bad) ↦ absurd (ground (arith, passed, fine, no_start, no_delta, stops, bad))
            | inl (i, index) ↦
                let (there, same) =
                  closed_by l l1 i
                    (ground (arith, passed, fine, no_start, no_delta, stops, index)) in
                inr (inl (i, stops, index, there, same))
          ]
          | inr no_stop ↦
              inr
                (inr (no_start, no_stop, ground (arith, passed, fine, no_start, no_delta, no_stop)))
        ]
      ]
    ]
  ]
