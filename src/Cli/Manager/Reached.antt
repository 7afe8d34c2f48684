-- ===== src/Cli/Manager/Reached.antt =====
-- cli/manager.py: the states that a manager reaches, and what holds in each of them.
use bailian_free_claude_code.Base.{
  ℕ, String, ◌≡◌, inl, inr, false, Option, some, ◌∷◌, arith, eq_iff, Option-cases, nat_eq,
  string_eq, get, remove, has, get-remove,
}
use bailian_free_claude_code.Keys.{IsUnique-remove}
use bailian_free_claude_code.Cli.Manager.{
  Manager, new_manager, get_or_create_session, register_real_session_id, unlink, remove_session,
  stop_all,
}
use bailian_free_claude_code.Cli.Manager.Entries.{count-remove}
use bailian_free_claude_code.Cli.Manager.Consistent.{
  IsConsistent, new_manager-IsConsistent, stop_all-IsConsistent,
}
use bailian_free_claude_code.Cli.Manager.Additions.{get-IsConsistent, register-IsConsistent}

-- The states that the calls of the manager's methods lead to. The CLI gives no session a real id that a
-- session of the manager has, and `uuid4` no id that is in use.
pub data Reached : Manager → Type 0 where
  starts : Reached new_manager
  gets :
      (m : Manager) (session_id : Option String) (pending : String)
      → Reached m
      → has m.pending_sessions pending ≡ false
      → has m.temp_to_real pending ≡ false
      → Reached (get_or_create_session m session_id pending).0
  registers :
      (m : Manager) (temp_id real_session_id : String)
      → Reached m
      → has m.sessions real_session_id ≡ false
      → Reached (register_real_session_id m temp_id real_session_id).0
  removes :
      (m : Manager) (session_id : String) → Reached m → Reached (remove_session m session_id).0
  stops_all : (m : Manager) → Reached m → Reached (stop_all m)

-- A session that waits is stopped.
pending_removed :
    (m : Manager) (session_id : String) (s : ℕ)
    → IsConsistent m
    → get m.pending_sessions session_id ≡ some s
    → IsConsistent (record m {
      pending_sessions = remove m.pending_sessions session_id;
      stopped = s ∷ m.stopped;
    })
pending_removed m session_id s c found = record {
  unique = c.unique;
  unique_pending = IsUnique-remove m.pending_sessions session_id c.unique_pending;
  placed = λ n.
      omega
        (arith, c.placed n, count-remove m.pending_sessions session_id s n c.unique_pending found);
  there = c.there;
  back = c.back;
  real = c.real;
  waiting = λ t e. ground (arith, e, c.waiting t, get-remove m.pending_sessions session_id t);
}

-- A registered session is stopped, and its ids are unlinked.
session_removed :
    (m : Manager) (session_id temp_id : String) (s : ℕ)
    → IsConsistent m
    → get m.sessions session_id ≡ some s
    → get m.real_to_temp session_id ≡ some temp_id
    → IsConsistent (record m {
      sessions = remove m.sessions session_id;
      stopped = s ∷ m.stopped;
      real_to_temp = remove m.real_to_temp session_id;
      temp_to_real = remove m.temp_to_real temp_id;
    })
session_removed m session_id temp_id s c found linked =
    let to_real = get-remove m.temp_to_real temp_id in
    let to_temp = get-remove m.real_to_temp session_id in
    let mate = c.back temp_id session_id linked in
    record {
      unique = IsUnique-remove m.sessions session_id c.unique;
      unique_pending = c.unique_pending;
      placed =
          λ n. omega (arith, c.placed n, count-remove m.sessions session_id s n c.unique found);
      there = λ t r e. ground (
        arith,
        e,
        to_real t,
        to_temp r,
        c.there t r,
        linked,
        eq_iff temp_id t,
        eq_iff session_id r,
      );
      back = λ t r e.
          ground (
            arith,
            e,
            to_real t,
            to_temp r,
            c.back t r,
            mate,
            eq_iff temp_id t,
            eq_iff session_id r,
          );
      real = λ r. ground (arith, c.real r, to_temp r, get-remove m.sessions session_id r);
      waiting = λ t e. ground (arith, c.waiting t e, to_real t);
    }

remove-IsConsistent :
    (m : Manager) (session_id : String)
    → IsConsistent m
    → IsConsistent (remove_session m session_id).0
unfolding remove_session
remove-IsConsistent m session_id c = elim (Option-cases (get m.pending_sessions session_id)) [
  | inr (s, found) ↦ rw (remove_session, found) (pending_removed m session_id s c found)
  | inl no_pending ↦ elim (Option-cases (get m.sessions session_id)) [
    | inl no_session ↦ rw (remove_session, no_pending, no_session) c
    | inr (s, found) ↦ elim (Option-cases (get m.real_to_temp session_id)) [
      | inl unlinked ↦ absurd (ground (arith, found, unlinked, c.real session_id))
      | inr (temp_id, linked) ↦
          rw (remove_session, no_pending, found, unlink, linked)
            (session_removed m session_id temp_id s c found linked)
    ]
  ]
]

-- Where the CLI gives no real id that a session of the manager has, and `uuid4` no id that a session
-- waits under or was registered for, in every state that is reached, each session that was made stands in exactly one entry of the two
-- session maps and was not stopped, or stands in none and was stopped once; the two maps between
-- temporary and real ids are inverse to each other, the ids that have a temporary one are those of the
-- registered sessions, and no id that a session waits under is registered.
pub Reached-IsConsistent : (m : Manager) → Reached m → IsConsistent m
Reached-IsConsistent m starts = new_manager-IsConsistent
Reached-IsConsistent m (gets m0 session_id pending before free unlinked) =
    get-IsConsistent m0 session_id pending (Reached-IsConsistent m0 before) free unlinked
Reached-IsConsistent m (registers m0 temp_id real_session_id before new) =
    register-IsConsistent m0 temp_id real_session_id (Reached-IsConsistent m0 before) new
Reached-IsConsistent m (removes m0 session_id before) =
    remove-IsConsistent m0 session_id (Reached-IsConsistent m0 before)
Reached-IsConsistent m (stops_all m0 before) =
    stop_all-IsConsistent m0 (Reached-IsConsistent m0 before)
