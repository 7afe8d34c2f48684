-- ===== src/Trees/Cancel/Branch.antt =====
-- messaging/trees/queue_manager.py: `cancel_branch` cancels the open nodes of a branch and no other.
use bailian_free_claude_code.Base.{
  ℕ, String, ◌≡◌, refl, ◌∙◌, inl, inr, Bool, true, false, none, ◌++◌, not, ◌&&◌, some, List, [],
  ◌∷◌, arith, eq_iff, if◌then◌else◌, Bool-cases, Option-cases, nat_eq, string_eq, contains, get,
  has, get-modify,
}
use mathlib.Core.Option
use bailian_free_claude_code.Trees.Node.{with_error}
use bailian_free_claude_code.Trees.Queue.Laws.{Refines, without, contains-without, queue-Refines}
use bailian_free_claude_code.Trees.Tree.{
  MessageTree, is_current_node, cancel_current_task, remove_from_queue, set_node_error_sync,
}
use bailian_free_claude_code.Trees.Descend.{get_descendants}
use bailian_free_claude_code.Trees.Descend.Reach.{Reaches, get_descendants_exact}
use bailian_free_claude_code.Trees.Cancel.{
  Cancelled, is_open, task_list, cancel_one, cancel_ids, cancel_branch,
}

-- The task that is running, on which a cancellation calls `cancel`, unless it has ended.
abbrev live_task : (ℕ → Bool) → MessageTree → List ℕ
live_task done t = elim t.current_task as (λ _. List ℕ) [
  | none ↦ []
  | some task ↦ if done task then [] else task ∷ []
]

-- The current node is an open node among these.
abbrev hits_current : MessageTree → List String → Bool
hits_current t nids = elim t.current_node_id as (λ _. Bool) [
  | none ↦ false
  | some c ↦ contains nids c && is_open (get t.nodes c)
]

-- The ids that are taken out of the queue: open nodes other than the current one.
abbrev is_dequeued : MessageTree → List String → String → Bool
is_dequeued t nids k = contains nids k && is_open (get t.nodes k) && not (is_current_node t k)

-- What cancelling some ids does: their open nodes are in state ERROR and other nodes as they were,
-- the ids of open nodes do not wait any more, except that of the current node, and the running task
-- is cancelled once if the current node is among them and no task otherwise.
pub record Cancels (done : ℕ → Bool) (t : MessageTree) (c : Cancelled) (nids : List String)
    (xs : List String) (now : ℕ) : Type 0 where
  pub nodes :
      (k : String)
      → get c.tree.nodes k ≡ (
          if contains nids k && is_open (get t.nodes k)
          then Option.map (with_error "Cancelled by user" now) (get t.nodes k)
          else get t.nodes k)
  pub current : c.tree.current_node_id ≡ t.current_node_id
  pub running : c.tree.current_task ≡ t.current_task
  pub tasks : c.tasks ≡ (if hits_current t nids then live_task done t else [])
  pub waiting : List String
  pub queue : Refines c.tree.queue waiting
  pub left : (k : String) → contains waiting k ≡ (contains xs k && not (is_dequeued t nids k))

module _ (done : ℕ → Bool) (t : MessageTree) (nid : String) (xs : List String) (now : ℕ)
    (r : Refines t.queue xs) where
  one_task_current :
      is_open (get t.nodes nid) ≡ true
      → is_current_node t nid ≡ true
      → task_list (cancel_current_task done t)
        ≡ (if hits_current t (nid ∷ []) then live_task done t else [])
  unfolding is_current_node cancel_current_task
  one_task_current open_there current_there = elim (Option-cases t.current_node_id) [
    | inl no_node ↦ absurd (ground (arith, current_there, no_node))
    | inr (c, e) ↦
        let same : c ≡ nid = ground (arith, eq_iff c nid, current_there, e) in
        ground (arith, eq_iff nid c, e, same, open_there, Option-cases t.current_task)
  ]

  one_task_other :
      is_current_node t nid ≡ false
      → [] ≡ (if hits_current t (nid ∷ []) then live_task done t else [])
  unfolding is_current_node
  one_task_other other = elim (Option-cases t.current_node_id) [
    | inl no_node ↦ ground (arith, no_node)
    | inr (c, e) ↦ ground (arith, e, other, eq_iff c nid, eq_iff nid c)
  ]

  one_task_shut :
      is_open (get t.nodes nid) ≡ false
      → [] ≡ (if hits_current t (nid ∷ []) then live_task done t else [])
  one_task_shut shut = elim (Option-cases t.current_node_id) [
    | inl no_node ↦ ground (arith, no_node)
    | inr (c, e) ↦ ground (arith, e, shut, eq_iff nid c)
  ]

  cancel_one-Cancels : Cancels done t (cancel_one done t nid now) (nid ∷ []) xs now
  unfolding cancel_one set_node_error_sync remove_from_queue is_current_node cancel_current_task
  cancel_one-Cancels = elim (Bool-cases (is_open (get t.nodes nid))) [
    | inl open_there ↦ elim (Bool-cases (is_current_node t nid)) [
      | inl current_there ↦
          rw (open_there, current_there)
            (record {
              nodes = λ k. ground (
                arith,
                get-modify t.nodes nid (with_error "Cancelled by user" now) k,
                eq_iff nid k,
                open_there,
              );
              current = refl;
              running = refl;
              tasks = one_task_current open_there current_there;
              waiting = xs;
              queue = r;
              left = λ k. ground (arith, eq_iff nid k, current_there);
            })
      | inr other ↦
          let spec = queue-Refines t.queue xs nid r in
          rw (open_there, other)
            (record {
              nodes = λ k. ground (
                arith,
                get-modify t.nodes nid (with_error "Cancelled by user" now) k,
                eq_iff nid k,
                open_there,
              );
              current = refl;
              running = refl;
              tasks = one_task_other other;
              waiting = without nid xs;
              queue = spec.2;
              left =
                  λ k. ground (arith, eq_iff nid k, other, open_there, contains-without nid xs k);
            })
    ]
    | inr shut ↦ rw shut (record {
      nodes = λ k. ground (arith, eq_iff nid k, shut);
      current = refl;
      running = refl;
      tasks = one_task_shut shut;
      waiting = xs;
      queue = r;
      left = λ k. ground (arith, eq_iff nid k, shut);
    })
  ]

is_current-same :
    (t t' : MessageTree) (k : String)
    → t'.current_node_id ≡ t.current_node_id
    → is_current_node t' k ≡ is_current_node t k
unfolding is_current_node
is_current-same t t' k e = ground (arith, e)

-- The tasks of the first id and of the others: an id that is listed again is final by then.
joined_tasks :
    (done : ℕ → Bool) (t t1 : MessageTree) (nid : String) (nids : List String) (now : ℕ)
    {first rest : List ℕ}
    → first ≡ (if hits_current t (nid ∷ []) then live_task done t else [])
    → t1.current_node_id ≡ t.current_node_id
    → t1.current_task ≡ t.current_task
    → ((k : String)
        → get t1.nodes k ≡ (
            if contains (nid ∷ []) k && is_open (get t.nodes k)
            then Option.map (with_error "Cancelled by user" now) (get t.nodes k)
            else get t.nodes k))
    → rest ≡ (if hits_current t1 nids then live_task done t1 else [])
    → first ++ rest ≡ (if hits_current t (nid ∷ nids) then live_task done t else [])
joined_tasks done t t1 nid nids now of_first node task nodes of_rest =
    elim (Option-cases t.current_node_id) [
      | inl no_node ↦ ground (arith, of_first, of_rest, node, no_node)
      | inr (c, e) ↦ ground (
        arith,
        of_first,
        of_rest,
        node,
        task,
        e,
        nodes c,
        Option-cases (get t.nodes c),
        Option-cases t.current_task,
      )
    ]

cancel_ids-Cancels :
    (done : ℕ → Bool) (nids : List String) (t : MessageTree) (xs : List String) (now : ℕ)
    → Refines t.queue xs
    → Cancels done t (cancel_ids done t nids now) nids xs now
unfolding cancel_ids
cancel_ids-Cancels done [] t xs now r = record {
  nodes = λ k. refl;
  current = refl;
  running = refl;
  tasks = ground (arith, Option-cases t.current_node_id);
  waiting = xs;
  queue = r;
  left = λ k. ground arith;
}
cancel_ids-Cancels done (nid ∷ nids) t xs now r =
    let first = cancel_one-Cancels done t nid xs now r in
    let t1 = (cancel_one done t nid now).tree in
    let rest = cancel_ids-Cancels done nids t1 first.waiting now first.queue in
    record {
      nodes = λ k. ground (arith, rest.nodes k, first.nodes k, Option-cases (get t.nodes k));
      current = rest.current ∙ first.current;
      running = rest.running ∙ first.running;
      tasks =
          joined_tasks done t t1 nid nids now first.tasks first.current first.running first.nodes
            rest.tasks;
      waiting = rest.waiting;
      queue = rest.queue;
      left = λ k. ground (
        arith,
        rest.left k,
        first.left k,
        first.nodes k,
        is_current-same t t1 k first.current,
        Option-cases (get t.nodes k),
      );
    }

-- When `cancel_branch` returns, for a node of the tree: the open nodes of its branch are in state
-- ERROR, every other node is as it was, and an id waits afterwards exactly if it waited before and is
-- not that of an open node of the branch other than the current node. If the current node is an open
-- node of the branch, `cancel` was called once, on the running task, unless that has ended; otherwise
-- it was called on no task.
pub cancel_branch_exact :
    (fuel : ℕ) (done : ℕ → Bool) (t : MessageTree) (branch_root_id : String) (now : ℕ)
    (c : Cancelled) (xs : List String)
    → has t.nodes branch_root_id ≡ true
    → Refines t.queue xs
    → cancel_branch fuel done t branch_root_id now ≡ some c
    → (ys : List String) × Refines c.tree.queue ys
      × ((x : String)
          → Reaches t.nodes x branch_root_id
          → (get c.tree.nodes x ≡ (
              if is_open (get t.nodes x)
              then Option.map (with_error "Cancelled by user" now) (get t.nodes x)
              else get t.nodes x))
            × (contains ys x
                ≡ (contains xs x && not (is_open (get t.nodes x) && not (is_current_node t x)))))
      × ((x : String)
          → ¬ Reaches t.nodes x branch_root_id
          → (get c.tree.nodes x ≡ get t.nodes x) × (contains ys x ≡ contains xs x))
      × ((x : String)
          → t.current_node_id ≡ some x
          → Reaches t.nodes x branch_root_id
          → is_open (get t.nodes x) ≡ true
          → c.tasks ≡ live_task done t)
      × (((x : String)
            → t.current_node_id ≡ some x
            → Reaches t.nodes x branch_root_id
            → is_open (get t.nodes x) ≡ false)
          → c.tasks ≡ [])
unfolding cancel_branch
cancel_branch_exact fuel done t branch_root_id now c xs there r e =
    elim (Option-cases (get_descendants fuel t branch_root_id)) [
      | inl out ↦ absurd (ground (arith, e, out))
      | inr (found, descends) ↦
          let same : c ≡ cancel_ids done t found now = ground (arith, e, descends) in
          let s = cancel_ids-Cancels done found t xs now r in
          let exact =
            λ (x : String). get_descendants_exact fuel t branch_root_id found x there descends in
          rw same (
            s.waiting,
            s.queue,
            λ x inside.
                let listed = (exact x).1 inside in
                (ground (arith, s.nodes x, listed), ground (arith, s.left x, listed)),
            λ x outside. elim (Bool-cases (contains found x)) [
              | inl listed ↦ absurd (outside ((exact x).0 listed))
              | inr absent ↦ (ground (arith, s.nodes x, absent), ground (arith, s.left x, absent))
            ],
            λ x at inside open_there. ground (arith, s.tasks, at, (exact x).1 inside, open_there),
            λ none_open. elim (Option-cases t.current_node_id) [
              | inl no_node ↦ ground (arith, s.tasks, no_node)
              | inr (x, at) ↦ elim (Bool-cases (contains found x)) [
                | inl listed ↦
                    let shut = none_open x at ((exact x).0 listed) in
                    ground (arith, s.tasks, at, shut)
                | inr absent ↦ ground (arith, s.tasks, at, absent)
              ]
            ],
          )
    ]
