-- ===== src/Providers/Bailian/Failures.antt =====
-- providers/bailian/model_state.py: a failed model stays out.
use bailian_free_claude_code.Base.{
  String, ◌≡◌, refl, ap, ◌∙◌, inl, inr, Bool, true, false, not, ◌&&◌, Option, List, [], ◌∷◌, map,
  arith, eq_iff, Bool-cases, ◌==◌, nat_eq, string_eq, filter_by, contains, contains-append,
}
use bailian_free_claude_code.Sse.Json.{Json, Fields}
use bailian_free_claude_code.Providers.Bailian.{
  BailianModelState, clean, mark_model_failed, set_working_model, remove_failed_from_available,
  Call, fails, works, filters, resets, clears, call,
}

-- The calls that do not forget failures.
abbrev keeps_failures : Call → Bool
keeps_failures resets = false
keeps_failures clears = false
keeps_failures (fails model) = true
keeps_failures (works model) = true
keeps_failures (filters models) = true

unfoldable pub all_keep_failures : List (Bool × (String × Call)) → Bool
all_keep_failures [] = true
all_keep_failures ((writable, (now, c)) ∷ cs) = keeps_failures c && all_keep_failures cs

contains-filter_by :
    (p : String → Bool) (xs : List String) (a : String)
    → contains (filter_by p xs) a ≡ (contains xs a && p a)
contains-filter_by p [] a = refl
contains-filter_by p (x ∷ xs) a =
    let rest = contains-filter_by p xs a in
    elim (Bool-cases (x == a)) [
      | inl same ↦
          let alike : p x ≡ p a = ap p ((eq_iff x a).0 same) in
          elim (Bool-cases (p x)) [
            | inl kept ↦ rw kept (ground (arith, same, alike, kept))
            | inr dropped ↦ rw dropped (rest ∙ ground (arith, same, alike, dropped))
          ]
      | inr differs ↦ elim (Bool-cases (p x)) [
        | inl kept ↦ rw (kept, differs) rest
        | inr dropped ↦ rw (dropped, differs) rest
      ]
    ]

module _ {File : Type 0} (dumps : Fields → File) (loads : File → Option Json) where
  -- Each call has its own clock, and its write may fail.
  pub all_calls : List (Bool × (String × Call)) → BailianModelState File → BailianModelState File
  unfolding call
  all_calls [] m = m
  all_calls ((writable, (now, c)) ∷ cs) m = all_calls cs (call dumps loads writable now c m)

  call-failed :
      (writable : Bool) (now : String) (c : Call) (m : BailianModelState File) (model : String)
      → keeps_failures c ≡ true
      → contains m.state.failed_models model ≡ true
      → contains (call dumps loads writable now c m).state.failed_models model ≡ true
  unfolding call mark_model_failed set_working_model remove_failed_from_available
  call-failed writable now (fails name) m model keeps failed =
      elim (Bool-cases (contains m.state.failed_models (clean name))) [
        | inl known ↦ rw (mark_model_failed, known) failed
        | inr new ↦
            rw (mark_model_failed, new)
              (ground
                (arith, failed, contains-append m.state.failed_models (clean name ∷ []) model))
      ]
  call-failed writable now (works name) m model keeps failed = failed
  call-failed writable now (filters models) m model keeps failed = failed
  call-failed writable now resets m model keeps failed = absurd (ground (arith, keeps))
  call-failed writable now clears m model keeps failed = absurd (ground (arith, keeps))

  all_calls-failed :
      (cs : List (Bool × (String × Call))) (m : BailianModelState File) (model : String)
      → all_keep_failures cs ≡ true
      → contains m.state.failed_models model ≡ true
      → contains (all_calls cs m).state.failed_models model ≡ true
  unfolding all_calls all_keep_failures
  all_calls-failed [] m model keeps failed = failed
  all_calls-failed ((writable, (now, c)) ∷ cs) m model keeps failed =
      all_calls-failed cs (call dumps loads writable now c m) model (ground (arith, keeps))
        (call-failed writable now c m model (ground (arith, keeps)) failed)

  marked :
      (writable : Bool) (now name : String) (m : BailianModelState File)
      → contains
          (mark_model_failed dumps loads writable now name m).state.failed_models
          (clean name)
        ≡ true
  unfolding mark_model_failed
  marked writable now name m = elim (Bool-cases (contains m.state.failed_models (clean name))) [
    | inl known ↦ rw (mark_model_failed, known) known
    | inr new ↦
        rw (mark_model_failed, new)
          (ground (
            arith,
            contains-append m.state.failed_models (clean name ∷ []) (clean name),
            eq_iff (clean name) (clean name),
          ))
  ]

  -- Once a model is marked as failed, and until a reset or a clearing of the state, whatever other
  -- calls are made and whether or not their writes succeed, `remove_failed_from_available` does not
  -- return the model; of the other configured models it returns exactly those, without the prefix,
  -- that are not among the failed ones, and these are the available models then.
  pub failed_stays_out :
      (writable writable1 : Bool) (now now1 name : String) (m : BailianModelState File)
      (cs : List (Bool × (String × Call))) (models : List String) (model : String)
      → all_keep_failures cs ≡ true
      → let m1 = all_calls cs (mark_model_failed dumps loads writable now name m) in
        let r = remove_failed_from_available dumps loads writable1 now1 models m1 in
        (contains r.1 (clean name) ≡ false)
        × (contains r.1 model
            ≡ (contains (map clean models) model && not (contains m1.state.failed_models model)))
        × (r.0.state.available_models ≡ r.1)
  unfolding remove_failed_from_available
  failed_stays_out writable writable1 now now1 name m cs models model keeps =
      let m1 = all_calls cs (mark_model_failed dumps loads writable now name m) in
      let is_left : String → Bool = λ x. not (contains m1.state.failed_models x) in
      let out =
        all_calls-failed cs (mark_model_failed dumps loads writable now name m) (clean name) keeps
          (marked writable now name m) in
      (
        contains-filter_by is_left (map clean models) (clean name) ∙ ground (arith, out),
        contains-filter_by is_left (map clean models) model,
        refl,
      )
