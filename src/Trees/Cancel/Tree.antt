-- ===== src/Trees/Cancel/Tree.antt =====
-- messaging/trees/queue_manager.py: `cancel_tree` leaves nothing to do.
use bailian_free_claude_code.Base.{
  ℕ, String, ◌≡◌, refl, inl, inr, Bool, true, false, ◌&&◌, ◌||◌, none, some, List, [], ◌∷◌, arith,
  eq_iff, if◌then◌else◌, Option-cases, nat_eq, string_eq, contains, contains-append, Dict, get, has,
  get-modify,
}
use mathlib.Core.Option
use bailian_free_claude_code.Trees.Node.{MessageNode, is_final, with_error}
use bailian_free_claude_code.Trees.Tree.{
  MessageTree, cancel_current_task, set_node_error_sync, drain_queue_and_mark_cancelled,
  reset_processing_state,
}
use bailian_free_claude_code.Trees.Tree.Shape.{IsWellFormed}
use bailian_free_claude_code.Trees.Tree.Drain.{drain-Drains}
use bailian_free_claude_code.Trees.Cancel.{
  Cancelled, is_open, cancellable_current, cancel_running, mark_stale, mark_all_stale, cancel_tree,
}

get-mark_all_stale :
    (ids : List String) (message : String) (now : ℕ) (nodes : Dict String MessageNode) (k : String)
    → get (mark_all_stale ids message now nodes) k
      ≡ Option.map (mark_stale ids message now) (get nodes k)
unfolding mark_all_stale get
get-mark_all_stale ids message now [] k = refl
get-mark_all_stale ids message now ((j, n) ∷ nodes) k =
    ground (arith, get-mark_all_stale ids message now nodes k)

-- What cancelling the running task does: its node is in state ERROR, if it was not final before.
record Running (t : MessageTree) (c : Cancelled) (now : ℕ) : Type 0 where
  nodes :
      (k : String)
      → get c.tree.nodes k ≡ (
          if contains c.ids k
          then Option.map (with_error "Cancelled by user" now) (get t.nodes k)
          else get t.nodes k)
  queue : c.tree.queue ≡ t.queue
  were_open : (k : String) → contains c.ids k ≡ true → is_open (get t.nodes k) ≡ true

cancellable_open :
    (t : MessageTree) (k : String) → cancellable_current t ≡ some k → is_open (get t.nodes k) ≡ true
unfolding cancellable_current
cancellable_open t k e = ground arith

nothing-Running :
    (t : MessageTree) (tasks : List ℕ) (now : ℕ)
    → Running t (record { tree = t; ids = []; tasks = tasks }) now
nothing-Running t tasks now = record {
  nodes = λ k. refl;
  queue = refl;
  were_open = λ k h. absurd (ground (arith, h));
}

current-Running :
    (t : MessageTree) (k : String) (tasks : List ℕ) (now : ℕ)
    → is_open (get t.nodes k) ≡ true
    → Running t
        (record {
          tree = set_node_error_sync t k "Cancelled by user" now;
          ids = k ∷ [];
          tasks = tasks;
        })
        now
unfolding set_node_error_sync
current-Running t k tasks now open_there = record {
  nodes =
      λ j. ground (arith, get-modify t.nodes k (with_error "Cancelled by user" now) j, eq_iff k j);
  queue = refl;
  were_open = λ j h. ground (arith, eq_iff k j, open_there);
}

cancel_running-Running :
    (done : ℕ → Bool) (t : MessageTree) (now : ℕ) → Running t (cancel_running done t now) now
unfolding cancel_running
cancel_running-Running done t now = elim (Option-cases (cancel_current_task done t)) [
  | inl e ↦ rw (e, cancel_running) (nothing-Running t [] now)
  | inr (task, e) ↦ elim (Option-cases (cancellable_current t)) [
    | inl e' ↦ rw (e, cancel_running, e') (nothing-Running t (task ∷ []) now)
    | inr (k, e') ↦
        rw (e, cancel_running, e') (current-Running t k (task ∷ []) now (cancellable_open t k e'))
  ]
]

module _ (done : ℕ → Bool) (t : MessageTree) (now : ℕ)
    (keyed : (k : String) (n : MessageNode) → get t.nodes k ≡ some n → n.node_id ≡ k) where
  abbrev running : Cancelled
  running = cancel_running done t now

  abbrev drained : MessageTree
  drained = (drain_queue_and_mark_cancelled running.tree "Cancelled by user" now).0

  abbrev queued : List String
  queued = (drain_queue_and_mark_cancelled running.tree "Cancelled by user" now).1

  -- The node of an id before the loop over stale nodes.
  drained_node :
      (k : String)
      → get drained.nodes k ≡ (
          if contains running.ids k || contains t.queue.deque k
          then Option.map (with_error "Cancelled by user" now) (get t.nodes k)
          else get t.nodes k)
  drained_node k =
      let r = cancel_running-Running done t now in
      let d = drain-Drains running.tree "Cancelled by user" now in
      ground (arith, r.nodes k, d.nodes k, r.queue, Option-cases (get t.nodes k))

  cancelled_ids :
      (k : String)
      → contains (cancel_tree done t now).ids k
        ≡ (contains running.ids k || contains t.queue.deque k && has t.nodes k)
  unfolding cancel_tree
  cancelled_ids k =
      let r = cancel_running-Running done t now in
      let d = drain-Drains running.tree "Cancelled by user" now in
      ground (
        arith,
        contains-append running.ids queued k,
        r.nodes k,
        d.returned k,
        r.queue,
        Option-cases (get t.nodes k),
      )

  -- The node of an id after `cancel_tree`.
  cancelled_node :
      (k : String)
      → get (cancel_tree done t now).tree.nodes k
        ≡ Option.map
            (mark_stale (cancel_tree done t now).ids "Stale task cleaned up" now)
            (get drained.nodes k)
  unfolding cancel_tree reset_processing_state
  cancelled_node k =
      get-mark_all_stale (cancel_tree done t now).ids "Stale task cleaned up" now drained.nodes k

  all_final :
      (k : String) (n' : MessageNode)
      → get (cancel_tree done t now).tree.nodes k ≡ some n'
      → is_final n'.state ≡ true
  unfolding mark_stale
  all_final k n' e = elim (Option-cases (get t.nodes k)) [
    | inl absent ↦ absurd (ground (arith, e, absent, cancelled_node k, drained_node k))
    | inr (n, there) ↦
        ground (arith, cancelled_node k, drained_node k, cancelled_ids k, keyed k n there)
  ]

  final_kept :
      (k : String) (n : MessageNode)
      → get t.nodes k ≡ some n
      → is_final n.state ≡ true
      → contains t.queue.deque k ≡ false
      → get (cancel_tree done t now).tree.nodes k ≡ some n
  unfolding mark_stale
  final_kept k n there final absent =
      ground
        (arith, cancelled_node k, drained_node k, (cancel_running-Running done t now).were_open k)

-- After `cancel_tree` every node of the tree is COMPLETED or ERROR, nothing waits, and the tree is
-- free; a node that was COMPLETED or ERROR before and did not wait is unchanged. The nodes are stored
-- under their ids.
pub cancel_tree_quiet :
    (done : ℕ → Bool) (t : MessageTree) (now : ℕ)
    → IsWellFormed t
    → ((k : String) (n : MessageNode)
        → get (cancel_tree done t now).tree.nodes k ≡ some n
        → is_final n.state ≡ true)
      × ((cancel_tree done t now).tree.queue.deque ≡ [])
      × ((cancel_tree done t now).tree.is_processing ≡ false)
      × ((cancel_tree done t now).tree.current_node_id ≡ none)
      × ((k : String) (n : MessageNode)
          → get t.nodes k ≡ some n
          → is_final n.state ≡ true
          → contains t.queue.deque k ≡ false
          → get (cancel_tree done t now).tree.nodes k ≡ some n)
unfolding cancel_tree reset_processing_state
cancel_tree_quiet done t now w = (
  all_final done t now w.keyed,
  (drain-Drains (cancel_running done t now).tree "Cancelled by user" now).empty,
  refl,
  refl,
  final_kept done t now w.keyed,
)
