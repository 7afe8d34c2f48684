-- ===== src/Cli/Manager/Consistent.antt =====
-- cli/manager.py: what holds in each state of a manager.
use bailian_free_claude_code.Base.{
  ℕ, ◌+◌, String, ◌≡◌, true, false, some, ◌++◌, arith, ltb, nat_eq, string_eq, count, values, get,
  has, get-nil,
}
use bailian_free_claude_code.Keys.{once_if, IsUnique}
use bailian_free_claude_code.Cli.Manager.{Manager, new_manager, stop_all}
use bailian_free_claude_code.Cli.Manager.Entries.{count-append}

-- How often a session is held or was stopped.
abbrev places : Manager → ℕ → ℕ
places m n = count n (values m.sessions) + count n (values m.pending_sessions) + count n m.stopped

pub record IsConsistent (m : Manager) : Type 0 where
  pub unique : IsUnique m.sessions
  pub unique_pending : IsUnique m.pending_sessions
  -- Each session that was made is held at one place, or was stopped, once.
  pub placed : (n : ℕ) → places m n ≡ once_if (ltb n m.created)
  -- The maps between the ids are inverse to each other.
  pub there : (t r : String) → get m.temp_to_real t ≡ some r → get m.real_to_temp r ≡ some t
  pub back : (t r : String) → get m.real_to_temp r ≡ some t → get m.temp_to_real t ≡ some r
  pub real : (r : String) → has m.real_to_temp r ≡ has m.sessions r
  pub waiting : (t : String) → has m.pending_sessions t ≡ true → has m.temp_to_real t ≡ false

pub new_manager-IsConsistent : IsConsistent new_manager
new_manager-IsConsistent = record {
  unique = λ k. omega arith;
  unique_pending = λ k. omega arith;
  placed = λ n. ground arith;
  there = λ t r e. absurd (ground (arith, e, get-nil {V = String} t));
  back = λ t r e. absurd (ground (arith, e, get-nil {V = String} r));
  real = λ r. ground (arith, get-nil {V = String} r, get-nil {V = ℕ} r);
  waiting = λ t e. absurd (ground (arith, e, get-nil {V = ℕ} t));
}

pub stop_all-IsConsistent : (m : Manager) → IsConsistent m → IsConsistent (stop_all m)
stop_all-IsConsistent m c = record {
  unique = λ k. omega arith;
  unique_pending = λ k. omega arith;
  placed = λ n. ground (
    arith,
    c.placed n,
    count-append n (values m.sessions) (values m.pending_sessions ++ m.stopped),
    count-append n (values m.sessions ++ values m.pending_sessions) m.stopped,
    count-append n (values m.pending_sessions) m.stopped,
    count-append n (values m.sessions) (values m.pending_sessions),
  );
  there = λ t r e. absurd (ground (arith, e, get-nil {V = String} t));
  back = λ t r e. absurd (ground (arith, e, get-nil {V = String} r));
  real = λ r. ground (arith, get-nil {V = String} r, get-nil {V = ℕ} r);
  waiting = λ t e. absurd (ground (arith, e, get-nil {V = ℕ} t));
}
