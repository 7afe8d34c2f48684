-- ===== src/Messaging/Limiter/Compaction.antt =====
-- messaging/limiter.py: each future is resolved once, and by the latest task of its key.
use bailian_free_claude_code.Base.{
  ℕ, ◌+◌, String, ◌≡◌, refl, sym, ap, ◌∙◌, ◌⊎◌, inl, inr, true, Option, none, some, List, [], ◌∷◌,
  ◌++◌, arith, eq_iff, ltb, Option-cases, nat_eq, string_eq, count, get, remove, has, get-put,
  get-remove, ok,
}
use mathlib.Core.Path.{subst}
use bailian_free_claude_code.Base.{nat_beq_iff}
use bailian_free_claude_code.Keys.{once_if, IsUnique, IsUnique-put, IsUnique-remove}
use bailian_free_claude_code.Messaging.Limiter.{
  MessagingLimiter, new_limiter, enqueue_internal_multi, enqueue, resolve, take_first, work,
}
use bailian_free_claude_code.Messaging.Limiter.Waiting.{
  waiting, waiting-put, waiting-remove, get-resolve, contains-count, count_list-append,
  count_futures-append,
}

-- The states that `enqueue` and the worker's rounds lead to.
pub data Reached : MessagingLimiter → Type 0 where
  starts : Reached new_limiter
  enqueues :
      (m : MessagingLimiter) (func : ℕ) (dedup_key : String)
      → Reached m
      → Reached (enqueue m func dedup_key).0
  works :
      (m m1 : MessagingLimiter) (taken : Option ℕ)
      → Reached m
      → work m ≡ ok (m1, taken)
      → Reached m1

pub record IsSound (m : MessagingLimiter) : Type 0 where
  pub unique : IsUnique m.queue_map
  -- The queue holds the keys of the map, each once.
  pub queued : (k : String) → count k m.queue_list ≡ once_if (has m.queue_map k)
  -- Each future that was made waits once, or is resolved.
  pub placed :
      (n : ℕ) → waiting m.queue_map n + once_if (has m.resolved n) ≡ once_if (ltb n m.created)

new_limiter-IsSound : IsSound new_limiter
unfolding waiting get
new_limiter-IsSound = record {
  unique = λ k. omega arith;
  queued = λ k. refl;
  placed = λ n. ground arith;
}

pub enqueue-IsSound :
    (m : MessagingLimiter) (func : ℕ) (dedup_key : String)
    → IsSound m
    → IsSound (enqueue m func dedup_key).0
unfolding enqueue enqueue_internal_multi
enqueue-IsSound m func dedup_key s = elim (Option-cases (get m.queue_map dedup_key)) [
  | inl new ↦
      let at = get-put m.queue_map dedup_key (func, m.created ∷ []) in
      rw (enqueue_internal_multi, new)
        (record {
          unique = IsUnique-put m.queue_map dedup_key (func, m.created ∷ []) s.unique;
          queued = λ k. ground (
            arith,
            s.queued k,
            at k,
            new,
            count_list-append m.queue_list (dedup_key ∷ []) k,
            eq_iff dedup_key k,
          );
          placed = λ n. ground (
            arith,
            s.placed n,
            new,
            waiting-put m.queue_map dedup_key func (m.created ∷ []) n,
            nat_beq_iff m.created n,
          );
        })
  | inr ((old_func, old), found) ↦
      let both = old ++ m.created ∷ [] in
      let at = get-put m.queue_map dedup_key (func, both) in
      rw (enqueue_internal_multi, found)
        (record {
          unique = IsUnique-put m.queue_map dedup_key (func, both) s.unique;
          queued = λ k. ground (arith, s.queued k, at k, found, eq_iff dedup_key k);
          placed = λ n. ground (
            arith,
            s.placed n,
            found,
            waiting-put m.queue_map dedup_key func both n,
            count_futures-append old (m.created ∷ []) n,
            nat_beq_iff m.created n,
          );
        })
]

-- A round of the worker, where the queue has a first key.
module _ (m : MessagingLimiter) (dedup_key : String) (rest : List String) (func : ℕ)
    (futures : List ℕ) (first : m.queue_list ≡ dedup_key ∷ rest)
    (found : get m.queue_map dedup_key ≡ some (func, futures)) where
  abbrev pub worked : MessagingLimiter
  worked = record m {
    queue_list = rest;
    queue_map = remove m.queue_map dedup_key;
    resolved = resolve m.resolved func futures;
  }

  first_taken : take_first m (dedup_key ∷ rest) ≡ ok (worked, some func)
  unfolding take_first
  first_taken = rw (take_first, found) refl

  pub work-takes : work m ≡ ok (worked, some func)
  unfolding work
  work-takes = ap (take_first m) first ∙ first_taken

  pub worked-IsSound : IsSound m → IsSound worked
  worked-IsSound s = record {
    unique = IsUnique-remove m.queue_map dedup_key s.unique;
    queued = λ k. ground (
      arith,
      s.queued k,
      ap (λ x. count k x) first,
      found,
      get-remove m.queue_map dedup_key k,
      eq_iff dedup_key k,
    );
    placed = λ n. ground (
      arith,
      s.placed n,
      found,
      waiting-remove m.queue_map dedup_key n s.unique,
      get-resolve m.resolved func futures n,
      contains-count futures n,
    );
  }

-- Where keys wait, the first of them has a task.
first_found :
    (m : MessagingLimiter) (dedup_key : String) (rest : List String)
    → IsSound m
    → m.queue_list ≡ dedup_key ∷ rest
    → has m.queue_map dedup_key ≡ true
first_found m dedup_key rest s first =
    ground
      (arith, s.queued dedup_key, ap (λ x. count dedup_key x) first, eq_iff dedup_key dedup_key)

List-cases :
    (xs : List String) → (xs ≡ []) ⊎ ((x : String) × (rest : List String) × (xs ≡ x ∷ rest))
List-cases [] = inl refl
List-cases (x ∷ rest) = inr (x, rest, refl)

-- What a round of the worker does: nothing, or it takes the first key.
pub data Round (m : MessagingLimiter) : Type 0 where
  idles : m.queue_list ≡ [] → Round m
  takes :
      (dedup_key : String) (rest : List String) (func : ℕ) (futures : List ℕ)
      → m.queue_list ≡ dedup_key ∷ rest
      → get m.queue_map dedup_key ≡ some (func, futures)
      → Round m

pub Round-cases : (m : MessagingLimiter) → IsSound m → Round m
Round-cases m s = elim (List-cases m.queue_list) [
  | inl empty ↦ idles empty
  | inr (dedup_key, rest, first) ↦ elim (Option-cases (get m.queue_map dedup_key)) [
    | inl nothing ↦ absurd (ground (arith, first_found m dedup_key rest s first, nothing))
    | inr ((func, futures), found) ↦ takes dedup_key rest func futures first found
  ]
]

pub work-idles : (m : MessagingLimiter) → m.queue_list ≡ [] → work m ≡ ok (m, none)
unfolding work take_first
work-idles m empty = ap (take_first m) empty

ok_injective : {A : Type 0} (a b : A) → ok a ≡ ok b → a ≡ b
ok_injective a b e = ground (arith, e)

works-IsSound :
    (m m1 : MessagingLimiter) (taken : Option ℕ) → IsSound m → work m ≡ ok (m1, taken) → IsSound m1
works-IsSound m m1 taken s e = elim (Round-cases m s) [
  | idles empty ↦
      subst (λ x. IsSound x)
        (ap (λ x. x.0) (ok_injective (m, none) (m1, taken) (sym (work-idles m empty) ∙ e))) s
  | takes dedup_key rest func futures first found ↦
      let m2 = worked m dedup_key rest func futures first found in
      subst (λ x. IsSound x)
        (ap (λ x. x.0)
          (ok_injective (m2, some func) (m1, taken)
            (sym (work-takes m dedup_key rest func futures first found) ∙ e)))
        (worked-IsSound m dedup_key rest func futures first found s)
]

-- In every state that calls of `enqueue` and rounds of the worker lead to, the queue holds the keys of
-- the map, each once, and each future that was made waits in one entry of the map, once, or is
-- resolved, and not both.
pub Reached-IsSound : (m : MessagingLimiter) → Reached m → IsSound m
Reached-IsSound m starts = new_limiter-IsSound
Reached-IsSound m (enqueues m0 func dedup_key before) =
    enqueue-IsSound m0 func dedup_key (Reached-IsSound m0 before)
Reached-IsSound m (works m0 m1 taken before e) =
    works-IsSound m0 m1 taken (Reached-IsSound m0 before) e
