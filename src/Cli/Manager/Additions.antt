-- ===== src/Cli/Manager/Additions.antt =====
-- cli/manager.py: new and registered sessions keep a manager consistent.
use bailian_free_claude_code.Base.{
  String, ◌≡◌, ap, inl, inr, false, Option, none, some, arith, eq_iff, Bool-cases, Option-cases,
  ◌==◌, nat_eq, string_eq, is_some, get, has, get-put, get-remove,
}
use bailian_free_claude_code.Base.{nat_beq_iff}
use bailian_free_claude_code.Keys.{IsUnique-put, IsUnique-remove}
use bailian_free_claude_code.Cli.Manager.{
  Manager, find_session, create_pending, get_or_create_session, register_real_session_id,
}
use bailian_free_claude_code.Cli.Manager.Entries.{count-put, count-remove}
use bailian_free_claude_code.Cli.Manager.Consistent.{IsConsistent}

-- A new session under an id that no session waits under, and that was registered for none.
create_pending-IsConsistent :
    (m : Manager) (temp_id : String)
    → IsConsistent m
    → has m.pending_sessions temp_id ≡ false
    → has m.temp_to_real temp_id ≡ false
    → IsConsistent (create_pending m temp_id).0
create_pending-IsConsistent m temp_id c free unlinked = record {
  unique = c.unique;
  unique_pending = IsUnique-put m.pending_sessions temp_id m.created c.unique_pending;
  placed = λ n. ground (
    arith,
    c.placed n,
    count-put m.pending_sessions temp_id m.created n free,
    nat_beq_iff m.created n,
  );
  there = c.there;
  back = c.back;
  real = c.real;
  waiting = λ t e. ground (
    arith,
    e,
    unlinked,
    c.waiting t,
    get-put m.pending_sessions temp_id m.created t,
    eq_iff temp_id t,
  );
}

-- An id that leads to no session is an id that no session waits under, and was registered for none.
find_session-none :
    (m : Manager) (session_id : String)
    → IsConsistent m
    → find_session m session_id ≡ none
    → (has m.pending_sessions session_id ≡ false) × (has m.temp_to_real session_id ≡ false)
unfolding find_session
find_session-none m session_id c e = elim (Option-cases (get m.temp_to_real session_id)) [
  | inl unlinked ↦ (ground (arith, e, unlinked), ground (arith, unlinked))
  | inr (r, linked) ↦ absurd (ground (arith, e, linked, c.there session_id r linked, c.real r))
]

pub get-IsConsistent :
    (m : Manager) (session_id : Option String) (pending : String)
    → IsConsistent m
    → has m.pending_sessions pending ≡ false
    → has m.temp_to_real pending ≡ false
    → IsConsistent (get_or_create_session m session_id pending).0
unfolding get_or_create_session
get-IsConsistent m none pending c free unlinked =
    create_pending-IsConsistent m pending c free unlinked
get-IsConsistent m (some session_id) pending c free unlinked =
    elim (Bool-cases (session_id == "")) [
      | inl empty ↦ rw empty (create_pending-IsConsistent m pending c free unlinked)
      | inr full ↦ elim (Option-cases (find_session m session_id)) [
        | inl nothing ↦
            let (free1, unlinked1) = find_session-none m session_id c nothing in
            rw (full, nothing) (create_pending-IsConsistent m session_id c free1 unlinked1)
        | inr (given, found) ↦ rw (full, found) c
      ]
    ]

pub register-IsConsistent :
    (m : Manager) (temp_id real_session_id : String)
    → IsConsistent m
    → has m.sessions real_session_id ≡ false
    → IsConsistent (register_real_session_id m temp_id real_session_id).0
unfolding register_real_session_id
register-IsConsistent m temp_id real_session_id c new =
    elim (Option-cases (get m.pending_sessions temp_id)) [
      | inl nothing ↦ rw (register_real_session_id, nothing) c
      | inr (s, found) ↦
          let free = c.waiting temp_id (ap is_some found) in
          let to_real = get-put m.temp_to_real temp_id real_session_id in
          let to_temp = get-put m.real_to_temp real_session_id temp_id in
          rw (register_real_session_id, found)
            (record {
              unique = IsUnique-put m.sessions real_session_id s c.unique;
              unique_pending = IsUnique-remove m.pending_sessions temp_id c.unique_pending;
              placed = λ n. omega (
                arith,
                c.placed n,
                count-put m.sessions real_session_id s n new,
                count-remove m.pending_sessions temp_id s n c.unique_pending found,
              );
              there = λ t r e. ground (
                arith,
                e,
                to_real t,
                to_temp r,
                c.there t r,
                c.real r,
                new,
                eq_iff temp_id t,
                eq_iff real_session_id r,
              );
              back = λ t r e. ground (
                arith,
                e,
                to_real t,
                to_temp r,
                c.back t r,
                free,
                eq_iff temp_id t,
                eq_iff real_session_id r,
              );
              real =
                  λ r. ground (arith, c.real r, to_temp r, get-put m.sessions real_session_id s r);
              waiting = λ t e. ground (
                arith,
                e,
                c.waiting t,
                to_real t,
                get-remove m.pending_sessions temp_id t,
                eq_iff temp_id t,
              );
            })
    ]
