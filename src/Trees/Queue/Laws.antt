-- ===== src/Trees/Queue/Laws.antt =====
-- messaging/trees/data.py: the queue is a list of distinct ids, and its set index never lies.
use bailian_free_claude_code.Base.{
  String, true, false, not, ◌&&◌, ◌||◌, Option, none, some, List, [], ◌∷◌, ◌++◌, ◌≡◌, refl, ap,
  Bool-cases, inl, inr, arith, eq_iff, ◌==◌, filter_by, contains, string_eq, contains-append,
}
use mathlib.Core.Option
use bailian_free_claude_code.Trees.Queue.{
  SnapshotQueue, put, get_nowait, pop_left, remove_if_present, set_add, set_discard,
}

-- No id stands twice.
abbrev IsDistinct : List String → Type 0
IsDistinct [] = Unit
IsDistinct (x ∷ xs) = (contains xs x ≡ false) × IsDistinct xs

-- The queue stands for the list `xs`: the deque is `xs`, and the set has the members of `xs`.
pub record Refines (q : SnapshotQueue) (xs : List String) : Type 0 where
  pub deque : q.deque ≡ xs
  pub set : (a : String) → contains q.set a ≡ contains xs a
  pub distinct : IsDistinct xs

abbrev pub without : String → List String → List String
without item xs = filter_by (λ x. not (x == item)) xs

pub contains-without :
    (item : String) (xs : List String) (a : String)
    → contains (without item xs) a ≡ (not (item == a) && contains xs a)
contains-without item [] a = ground arith
contains-without item (x ∷ xs) a =
    ground (arith, contains-without item xs a, eq_iff x a, eq_iff x item, eq_iff item a)

contains-set_add :
    (s : List String) (item a : String)
    → contains (set_add s item) a ≡ (contains s a || (item == a))
unfolding set_add
contains-set_add s item a = ground (arith, contains-append s (item ∷ []) a, eq_iff item a)

IsDistinct-without :
    (item : String) (xs : List String) → IsDistinct xs → IsDistinct (without item xs)
IsDistinct-without item [] d = tt
IsDistinct-without item (x ∷ xs) d =
    ground (arith, IsDistinct-without item xs d.1, contains-without item xs x)

IsDistinct-snoc :
    (xs : List String) (item : String)
    → contains xs item ≡ false
    → IsDistinct xs
    → IsDistinct (xs ++ item ∷ [])
IsDistinct-snoc [] item fresh d = (refl, tt)
IsDistinct-snoc (x ∷ xs) item fresh d =
    ground (
      arith,
      IsDistinct-snoc xs item,
      contains-append xs (item ∷ []) x,
      eq_iff item x,
      eq_iff x item,
    )

put-Refines :
    (q : SnapshotQueue) (xs : List String) (item : String)
    → contains xs item ≡ false
    → Refines q xs
    → Refines (put q item) (xs ++ item ∷ [])
unfolding put
put-Refines q xs item fresh r = record {
  deque = ap (λ l. l ++ item ∷ []) r.deque;
  set =
      λ a. ground (arith, contains-set_add q.set item a, contains-append xs (item ∷ []) a, r.set a);
  distinct = IsDistinct-snoc xs item fresh r.distinct;
}

-- The answer of `get_nowait` is the head of the list, and the queue left stands for its tail.
abbrev pub GetsHead : Option (String × SnapshotQueue) → List String → Type 0
GetsHead none [] = Unit
GetsHead none (x ∷ xs) = ⊥
GetsHead (some (item, q)) [] = ⊥
GetsHead (some (item, q)) (x ∷ xs) = (item ≡ x) × Refines q xs

pop_left-GetsHead :
    (set xs : List String)
    → ((a : String) → contains set a ≡ contains xs a)
    → IsDistinct xs
    → GetsHead (pop_left xs set) xs
unfolding pop_left set_discard
pop_left-GetsHead set [] same d = tt
pop_left-GetsHead set (x ∷ xs) same d = (
  refl,
  record {
    deque = refl;
    set = λ a. ground (arith, contains-without x set a, same a, eq_iff x a, d.0);
    distinct = d.1;
  },
)

pub get_nowait-nil : (q : SnapshotQueue) → q.deque ≡ [] → get_nowait q ≡ none
unfolding get_nowait pop_left
get_nowait-nil q e = ground (arith, e)

pub get_nowait-cons :
    (q : SnapshotQueue) (item : String) (rest : List String)
    → q.deque ≡ item ∷ rest
    → (q' : SnapshotQueue) × (q'.deque ≡ rest) × (get_nowait q ≡ some (item, q'))
unfolding get_nowait pop_left
get_nowait-cons q item rest e =
    (record { deque = rest; set = set_discard q.set item }, refl, ground (arith, e))

get_nowait-GetsHead :
    (q : SnapshotQueue) (xs : List String) → Refines q xs → GetsHead (get_nowait q) xs
unfolding get_nowait
get_nowait-GetsHead q xs r = rw r.deque (pop_left-GetsHead q.set xs r.set r.distinct)

without-absent :
    (item : String) (xs : List String) → contains xs item ≡ false → without item xs ≡ xs
without-absent item [] absent = refl
without-absent item (x ∷ xs) absent = ground (arith, without-absent item xs)

remove_if_present-Refines :
    (q : SnapshotQueue) (xs : List String) (item : String)
    → Refines q xs
    → Refines (remove_if_present q item).0 (without item xs)
      × ((remove_if_present q item).1 ≡ contains xs item)
unfolding remove_if_present set_discard
remove_if_present-Refines q xs item r = elim (Bool-cases (contains q.set item)) [
  | inl present ↦ rw present (
    record {
      deque = ap (without item) r.deque;
      set = λ a. ground (arith, contains-without item q.set a, contains-without item xs a, r.set a);
      distinct = IsDistinct-without item xs r.distinct;
    },
    ground (arith, r.set item),
  )
  | inr absent ↦
      rw absent
        (rw (without-absent item xs (ground (arith, r.set item))) r, ground (arith, r.set item))
]

-- The queue implements a list of distinct ids: putting a new id adds it at the end, getting takes
-- the first one and fails exactly on the empty list, and removing an id takes it out of the list and
-- tells whether it was there.
pub queue-Refines :
    (q : SnapshotQueue) (xs : List String) (item : String)
    → Refines q xs
    → (contains xs item ≡ false → Refines (put q item) (xs ++ item ∷ []))
      × GetsHead (get_nowait q) xs
      × Refines (remove_if_present q item).0 (without item xs)
      × ((remove_if_present q item).1 ≡ contains xs item)
queue-Refines q xs item r =
    let (removed, found) = remove_if_present-Refines q xs item r in
    (λ fresh. put-Refines q xs item fresh r, get_nowait-GetsHead q xs r, removed, found)

contains_self : (item : String) (xs : List String) → contains (item ∷ xs) item ≡ true
contains_self item xs = ground (arith, eq_iff item item)

-- An id that waits twice becomes unremovable: once its first copy is got, the second one still waits,
-- and `remove_if_present` says that it is not there and leaves it.
pub second_copy_stuck :
    (q q' : SnapshotQueue) (item : String) (rest : List String)
    → q.deque ≡ item ∷ rest
    → contains rest item ≡ true
    → get_nowait q ≡ some (item, q')
    → (contains q'.deque item ≡ true) × (remove_if_present q' item ≡ (q', false))
unfolding get_nowait pop_left remove_if_present set_discard
second_copy_stuck q q' item rest shape copy got =
    let e : pop_left (item ∷ rest) q.set ≡ some (item, q') = rw shape at got in
    let back =
      ap (λ (o : Option (String × SnapshotQueue)). Option.get_or (Option.map (λ p. p.1) o) q') e in
    let missing : contains (set_discard q.set item) item ≡ false =
      ground (arith, contains-without item q.set item, eq_iff item item) in
    ground (arith, back, missing)
