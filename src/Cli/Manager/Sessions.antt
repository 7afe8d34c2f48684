-- ===== src/Cli/Manager/Sessions.antt =====
-- cli/manager.py: the same id leads to the same session, also after its registration.
use bailian_free_claude_code.Base.{
  ℕ, String, ◌≡◌, refl, ap, inl, inr, true, false, Option, none, some, arith, Bool-cases,
  Option-cases, ◌==◌, nat_eq, string_eq, get, get-put_self,
}
use bailian_free_claude_code.Cli.Manager.{
  Manager, Given, find_session, get_or, create_pending, get_or_create_session,
  register_real_session_id,
}

abbrev pub given_old : ℕ → String → Given
given_old s id = record { session = s; session_id = id; is_new = false }

find_registered :
    (m : Manager) (temp_id real_session_id : String) (s : ℕ)
    → get m.pending_sessions temp_id ≡ some s
    → find_session (register_real_session_id m temp_id real_session_id).0 temp_id
      ≡ some (given_old s real_session_id)
unfolding find_session register_real_session_id
find_registered m temp_id real_session_id s e = ground (
  arith,
  e,
  get-put_self m.temp_to_real temp_id real_session_id,
  get-put_self m.sessions real_session_id s,
)

get_found :
    (m : Manager) (session_id pending : String) (given : Given)
    → (session_id == "") ≡ false
    → find_session m session_id ≡ some given
    → get_or_create_session m (some session_id) pending ≡ (m, given)
unfolding get_or_create_session
get_found m session_id pending given full found = rw (get_or_create_session, full, found) refl

created_pending :
    (m : Manager) (temp_id : String)
    → let r = create_pending m temp_id in get r.0.pending_sessions r.1.session_id ≡ some r.1.session
created_pending m temp_id = get-put_self m.pending_sessions temp_id m.created

-- What is found is not new.
find_session-old :
    (m : Manager) (session_id : String) (given : Given)
    → find_session m session_id ≡ some given
    → given.is_new ≡ false
unfolding find_session
find_session-old m session_id given e = ground (
  arith,
  e,
  Option-cases (get m.sessions (get_or m.temp_to_real session_id session_id)),
  Option-cases (get m.pending_sessions (get_or m.temp_to_real session_id session_id)),
)

-- What is new waits under its id.
new_pending :
    (m : Manager) (session_id : Option String) (pending : String)
    → let r = get_or_create_session m session_id pending in
      r.1.is_new ≡ true → get r.0.pending_sessions r.1.session_id ≡ some r.1.session
unfolding get_or_create_session
new_pending m none pending new = created_pending m pending
new_pending m (some session_id) pending new = elim (Bool-cases (session_id == "")) [
  | inl empty ↦ rw (get_or_create_session, empty) (created_pending m pending)
  | inr full ↦ elim (Option-cases (find_session m session_id)) [
    | inl nothing ↦ rw (get_or_create_session, full, nothing) (created_pending m session_id)
    | inr (given, found) ↦ absurd (
        ground (
          arith,
          new,
          ap (λ x. x.1.is_new) (get_found m session_id pending given full found),
          find_session-old m session_id given found,
        ))
  ]
]

-- A new session that is registered under the real id that the CLI gives is the one that its
-- temporary id leads to from then on: asking for the temporary id gives it, under the real id and as
-- no new one, and changes nothing.
pub registered_session :
    (m : Manager) (session_id : Option String) (pending real_session_id other : String)
    → let r = get_or_create_session m session_id pending in
      let m1 = (register_real_session_id r.0 r.1.session_id real_session_id).0 in
      r.1.is_new ≡ true
      → (r.1.session_id == "") ≡ false
      → get_or_create_session m1 (some r.1.session_id) other
        ≡ (m1, given_old r.1.session real_session_id)
registered_session m session_id pending real_session_id other new named =
    let r = get_or_create_session m session_id pending in
    let m1 = (register_real_session_id r.0 r.1.session_id real_session_id).0 in
    get_found m1 r.1.session_id other (given_old r.1.session real_session_id) named (
      find_registered r.0 r.1.session_id real_session_id r.1.session
        (new_pending m session_id pending new))
