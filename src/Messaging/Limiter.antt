-- ===== src/Messaging/Limiter.antt =====
-- messaging/limiter.py: the queue of `MessagingRateLimiter` with its compaction. Tasks and futures are
-- numbers, a future in the order in which `create_future` made it. A future is done when it is resolved,
-- with the task whose result or exception it gets; none is cancelled. `enqueue` holds the condition, so
-- it is one step, and so is a round of the worker: from the moment at which it takes a task out of the
-- map, its list of futures is in nobody else's hands, and what is enqueued before it resolves them
-- counts as enqueued after it. The waits of the worker, its pause and its shutdown are left out.
pub mod Waiting
pub mod Compaction
pub mod Latest
mod Tests
use bailian_free_claude_code.Base.{
  ℕ, zero, suc, ◌+◌, ◌-◌, ◌*◌, ◌^◌, ◌≤◌, ◌<◌, String, ◌≡◌, refl, sym, ap, ◌∙◌, ◌≢◌, ◌↔◌, ◌⊎◌, inl,
  inr, Bool, true, false, not, ◌&&◌, ◌||◌, Option, none, some, List, [], ◌∷◌, ◌++◌, map, arith,
  eq_iff, ltb, leb, if◌then◌else◌, leb→le, Bool-cases, Option-cases, Eq, ◌==◌, nat_eq, string_eq,
  beq_refl, length, All, filter_by, contains, count, contains-append, Dict, keys, values, is_some,
  get, put, remove, modify, has, get-put, get-put_self, get-remove, get-modify, keys-modify,
  get-nil, dict_laws, value_error, key_error, Outcome, ok, raised, ◌>>=◌, truthy,
}

pub record MessagingLimiter : Type 0 where
  pub queue_list : List String
  pub queue_map : Dict String (ℕ × List ℕ)
  pub created : ℕ
  pub resolved : List (ℕ × ℕ)

abbrev pub new_limiter : MessagingLimiter
new_limiter = record { queue_list = []; queue_map = []; created = 0; resolved = [] }

-- `_enqueue_internal_multi`
enqueue_internal_multi : MessagingLimiter → ℕ → List ℕ → String → Bool → MessagingLimiter
enqueue_internal_multi m func futures dedup_key front = elim (get m.queue_map dedup_key) [
  | some (old_func, old_futures) ↦ record m {
    queue_map = put m.queue_map dedup_key (func, old_futures ++ futures);
  }
  | none ↦ record m {
    queue_map = put m.queue_map dedup_key (func, futures);
    queue_list = if front then dedup_key ∷ m.queue_list else m.queue_list ++ dedup_key ∷ [];
  }
]

-- `enqueue` up to the future that it returns; the key is the given one or a unique one.
pub enqueue : MessagingLimiter → ℕ → String → MessagingLimiter × ℕ
unfolding enqueue_internal_multi
enqueue m func dedup_key = (
  enqueue_internal_multi (record m { created = suc m.created }) func (m.created ∷ []) dedup_key
      false,
  m.created,
)

-- `for f in futures: if not f.done(): f.set_result(...)`
pub resolve : List (ℕ × ℕ) → ℕ → List ℕ → List (ℕ × ℕ)
resolve resolved func [] = resolved
resolve resolved func (f ∷ futures) =
    resolve (if has resolved f then resolved else (f, func) ∷ resolved) func futures

-- The task of the first of the keys. A key with no entry is a `KeyError`.
take_first : MessagingLimiter → List String → Outcome (MessagingLimiter × Option ℕ)
unfolding resolve
take_first m [] = ok (m, none)
take_first m (dedup_key ∷ rest) = elim (get m.queue_map dedup_key) [
  | none ↦ raised key_error
  | some (func, futures) ↦ ok (
    record m {
      queue_list = rest;
      queue_map = remove m.queue_map dedup_key;
      resolved = resolve m.resolved func futures;
    },
    some func,
  )
]

-- One round of the worker: the task it takes, if there is one.
pub work : MessagingLimiter → Outcome (MessagingLimiter × Option ℕ)
unfolding take_first
work m = take_first m m.queue_list
