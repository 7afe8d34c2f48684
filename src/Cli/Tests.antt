-- ===== src/Cli/Tests.antt =====
-- The session manager on a short run.
use bailian_free_claude_code.Base.{
  ◌≡◌, refl, true, false, none, some, [], ◌∷◌, ◌==◌, nat_eq, string_eq, get, put, remove, has,
}
use bailian_free_claude_code.Cli.Manager.{
  Manager, new_manager, Given, get_or_create_session, register_real_session_id, remove_session,
}
use bailian_free_claude_code.Cli.Manager.Consistent.{IsConsistent}
use bailian_free_claude_code.Cli.Manager.Reached.{
  Reached, starts, gets, registers, removes, Reached-IsConsistent,
}
use bailian_free_claude_code.Cli.Manager.Sessions.{given_old, registered_session}

abbrev asked : Manager × Given
asked = get_or_create_session new_manager none "pending_1"

abbrev registered : Manager
registered = (register_real_session_id asked.0 "pending_1" "real").0

abbrev ended : Manager
ended = (remove_session registered "real").0

ended_stopped : ended.stopped ≡ 0 ∷ []
unfolding get_or_create_session register_real_session_id remove_session get put remove
ended_stopped = refl

free : has new_manager.pending_sessions "pending_1" ≡ false
unfolding get
free = refl

unlinked : has new_manager.temp_to_real "pending_1" ≡ false
unfolding get
unlinked = refl

real_free : has asked.0.sessions "real" ≡ false
unfolding get_or_create_session get
real_free = refl

ended-Reached : Reached ended
ended-Reached = removes registered "real" (
    registers asked.0 "pending_1" "real" (gets new_manager none "pending_1" starts free unlinked)
      real_free)

Reached-IsConsistent_example : IsConsistent ended
Reached-IsConsistent_example = Reached-IsConsistent ended ended-Reached

asked_new : asked.1.is_new ≡ true
unfolding get_or_create_session
asked_new = refl

asked_named : (asked.1.session_id == "") ≡ false
unfolding get_or_create_session
asked_named = refl

registered_session_example :
    let m1 = (register_real_session_id asked.0 asked.1.session_id "real").0 in
    get_or_create_session m1 (some asked.1.session_id) "pending_2"
    ≡ (m1, given_old asked.1.session "real")
registered_session_example =
    registered_session new_manager none "pending_1" "real" "pending_2" asked_new asked_named
