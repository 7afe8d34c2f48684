-- ===== src/Cli/Manager.antt =====
-- cli/manager.py: `CLISessionManager`. A `CLISession` is its number in the order in which they were
-- made; its process is left out, and to stop it, which is taken to end without an exception, is to
-- note its number. Each method holds the lock
-- from start to end, so it is one step.
pub mod Entries
pub mod Consistent
pub mod Additions
pub mod Reached
pub mod Sessions
use bailian_free_claude_code.Base.{
  ℕ, zero, suc, ◌+◌, ◌-◌, ◌*◌, ◌^◌, ◌≤◌, ◌<◌, String, ◌≡◌, refl, sym, ap, ◌∙◌, ◌≢◌, ◌↔◌, ◌⊎◌, inl,
  inr, Bool, true, false, not, ◌&&◌, ◌||◌, Option, none, some, List, [], ◌∷◌, ◌++◌, map, arith,
  eq_iff, ltb, leb, if◌then◌else◌, leb→le, Bool-cases, Option-cases, Eq, ◌==◌, nat_eq, string_eq,
  beq_refl, length, All, filter_by, contains, count, contains-append, Dict, keys, values, is_some,
  get, put, remove, modify, has, get-put, get-put_self, get-remove, get-modify, keys-modify,
  get-nil, dict_laws, value_error, key_error, Outcome, ok, raised, ◌>>=◌, truthy,
}

pub record Manager : Type 0 where
  pub sessions : Dict String ℕ
  pub pending_sessions : Dict String ℕ
  pub temp_to_real : Dict String String
  pub real_to_temp : Dict String String
  pub created : ℕ
  pub stopped : List ℕ

abbrev pub new_manager : Manager
new_manager = record {
  sessions = [];
  pending_sessions = [];
  temp_to_real = [];
  real_to_temp = [];
  created = 0;
  stopped = [];
}

-- `d.get(k, default)`
abbrev pub get_or : Dict String String → String → String → String
get_or d k default = elim (get d k) [ none ↦ default | some v ↦ v ]

-- A session, its id, and whether it is new.
pub record Given : Type 0 where
  pub session : ℕ
  pub session_id : String
  pub is_new : Bool

-- The session that an id leads to, with the id it has.
find_session : Manager → String → Option Given
find_session m session_id =
    let lookup_id = get_or m.temp_to_real session_id session_id in
    elim (get m.sessions lookup_id) [
      | some s ↦ some (record { session = s; session_id = lookup_id; is_new = false })
      | none ↦ elim (get m.pending_sessions lookup_id) [
        | some s ↦ some (record { session = s; session_id = lookup_id; is_new = false })
        | none ↦ none
      ]
    ]

abbrev create_pending : Manager → String → Manager × Given
create_pending m temp_id = (
  record m { pending_sessions = put m.pending_sessions temp_id m.created; created = suc m.created },
  record { session = m.created; session_id = temp_id; is_new = true },
)

-- `pending` is the id that `uuid4` gives.
unfoldable pub get_or_create_session : Manager → Option String → String → Manager × Given
unfolding find_session
get_or_create_session m none pending = create_pending m pending
get_or_create_session m (some session_id) pending =
    if session_id == "" then create_pending m pending else elim (find_session m session_id) [
      | some given ↦ (m, given)
      | none ↦ create_pending m session_id
    ]

unfoldable pub register_real_session_id : Manager → String → String → Manager × Bool
register_real_session_id m temp_id real_session_id = elim (get m.pending_sessions temp_id) [
  | none ↦ (m, false)
  | some s ↦ (
    record m {
      pending_sessions = remove m.pending_sessions temp_id;
      sessions = put m.sessions real_session_id s;
      temp_to_real = put m.temp_to_real temp_id real_session_id;
      real_to_temp = put m.real_to_temp real_session_id temp_id;
    },
    true,
  )
]

-- The maps between the ids without this real id.
abbrev pub unlink : Manager → String → Manager
unlink m session_id = elim (get m.real_to_temp session_id) [
  | none ↦ m
  | some temp_id ↦ record m {
    real_to_temp = remove m.real_to_temp session_id;
    temp_to_real = remove m.temp_to_real temp_id;
  }
]

unfoldable pub remove_session : Manager → String → Manager × Bool
remove_session m session_id = elim (get m.pending_sessions session_id) [
  | some s ↦ (
    record m { pending_sessions = remove m.pending_sessions session_id; stopped = s ∷ m.stopped },
    true,
  )
  | none ↦ elim (get m.sessions session_id) [
    | some s ↦ (
      unlink (record m { sessions = remove m.sessions session_id; stopped = s ∷ m.stopped })
          session_id,
      true,
    )
    | none ↦ (m, false)
  ]
]

abbrev stop_all : Manager → Manager
stop_all m = record {
  sessions = [];
  pending_sessions = [];
  temp_to_real = [];
  real_to_temp = [];
  created = m.created;
  stopped = values m.sessions ++ values m.pending_sessions ++ m.stopped;
}

pub record Stats : Type 0 where
  pub active_sessions : ℕ
  pub pending_sessions : ℕ
  pub busy_count : ℕ

-- `is_busy` is what each session says of its process.
abbrev get_stats : (ℕ → Bool) → Manager → Stats
get_stats is_busy m = record {
  active_sessions = length m.sessions;
  pending_sessions = length m.pending_sessions;
  busy_count = length (filter_by is_busy (values m.sessions));
}
