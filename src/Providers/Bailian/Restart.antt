-- ===== src/Providers/Bailian/Restart.antt =====
-- providers/bailian/model_state.py: the state survives a restart.
use bailian_free_claude_code.Base.{
  String, ◌≡◌, refl, inl, inr, true, Option, none, some, List, [], ◌∷◌, ◌++◌, Bool-cases, nat_eq,
  string_eq, contains, ok,
}
use bailian_free_claude_code.Sse.Json.{Json, object, Fields, lookup}
use bailian_free_claude_code.Sse.Json.Typed.{optional_round_trip, texts_round_trip}
use bailian_free_claude_code.Providers.Bailian.{
  ModelState, BailianModelState, default_state, clean, state_to_fields, state_of_json, load_state,
  restart, mark_model_failed, set_working_model, remove_failed_from_available, reset_failed_models,
  clear_state, Call, fails, works, filters, resets, clears, call,
}

-- An object that was made with no state file.
abbrev pub first_state : {File : Type 0} → BailianModelState File
first_state = record { state = default_state; state_file = none }

module _ {File : Type 0} (dumps : Fields → File) (loads : File → Option Json) where
  -- The calls with the clock's text of each, all writes of which succeed.
  unfoldable pub calls : List (String × Call) → BailianModelState File → BailianModelState File
  unfolding call
  calls [] m = m
  calls ((now, c) ∷ cs) m = calls cs (call dumps loads true now c m)

  module _ (loads_dumps : (d : Fields) → loads (dumps d) ≡ some (object d)) where
    state_round_trip : (s : ModelState) → state_of_json (object (state_to_fields s)) ≡ ok s
    unfolding state_of_json lookup
    state_round_trip s =
        rw
          (
            optional_round_trip s.current_working_model,
            optional_round_trip s.last_updated,
            texts_round_trip s.failed_models,
            texts_round_trip s.available_models,
          )
          refl

    saved : (s : ModelState) → load_state dumps loads (some (dumps (state_to_fields s))) ≡ ok s
    unfolding load_state
    saved s = rw (load_state, loads_dumps (state_to_fields s)) (state_round_trip s)

    abbrev IsSaved : BailianModelState File → Type 0
    IsSaved m = load_state dumps loads m.state_file ≡ ok m.state

    call-IsSaved :
        (now : String) (c : Call) (m : BailianModelState File)
        → IsSaved m
        → IsSaved (call dumps loads true now c m)
    unfolding call mark_model_failed set_working_model remove_failed_from_available
        reset_failed_models clear_state load_state
    call-IsSaved now (fails model) m kept =
        elim (Bool-cases (contains m.state.failed_models (clean model))) [
          | inl known ↦ rw (mark_model_failed, known) kept
          | inr new ↦
              rw (mark_model_failed, new)
                (saved (record m.state {
                  failed_models = m.state.failed_models ++ clean model ∷ [];
                  last_updated = some now;
                }))
        ]
    call-IsSaved now (works model) m kept = saved _
    call-IsSaved now (filters models) m kept = saved _
    call-IsSaved now resets m kept = saved _
    call-IsSaved now clears m kept = refl

    calls-IsSaved :
        (cs : List (String × Call)) (m : BailianModelState File) → IsSaved m → IsSaved (calls cs m)
    unfolding calls
    calls-IsSaved [] m kept = kept
    calls-IsSaved ((now, c) ∷ cs) m kept =
        calls-IsSaved cs (call dumps loads true now c m) (call-IsSaved now c m kept)

    -- After any calls on an object that was made with no state file, all writes of which succeed, an
    -- object made from the state file that was left has the same state, where `json.load` reads what
    -- `json.dump` writes.
    pub restart_lossless :
        (cs : List (String × Call))
        → (restart dumps loads none ≡ ok first_state)
          × (restart dumps loads (calls cs first_state).state_file ≡ ok (calls cs first_state))
    unfolding load_state
    restart_lossless cs = (refl, rw (calls-IsSaved cs first_state refl) refl)
