-- ===== src/Trees/Tree/Drain.antt =====
-- messaging/trees/data.py: what `drain_queue_and_mark_cancelled` does.
use bailian_free_claude_code.Base.{
  ℕ, String, ◌≡◌, refl, sym, ap, ◌&&◌, List, [], ◌∷◌, arith, eq_iff, if◌then◌else◌, Option-cases,
  nat_eq, string_eq, length, contains, get, modify, has, get-modify,
}
use mathlib.Core.Option
use mathlib.Core.Path.{subst}
use bailian_free_claude_code.Trees.Node.{with_error}
use bailian_free_claude_code.Trees.Queue.{qsize}
use bailian_free_claude_code.Trees.Queue.Laws.{get_nowait-cons}
use bailian_free_claude_code.Trees.Tree.{
  MessageTree, drain_round, drain_loop, drain_queue_and_mark_cancelled,
}

-- The ids that waited have nodes in state ERROR, other nodes are as they were, and nothing waits; the
-- ids returned are those that waited and have a node.
pub record Drains (t t' : MessageTree) (waited ids : List String) (message : String) (now : ℕ)
    : Type 0 where
  pub nodes :
      (k : String)
      → get t'.nodes k ≡ (
          if contains waited k
          then Option.map (with_error message now) (get t.nodes k)
          else get t.nodes k)
  pub empty : t'.queue.deque ≡ []
  pub returned : (k : String) → contains ids k ≡ (contains waited k && has t.nodes k)
  pub root : t'.root_id ≡ t.root_id

drain_loop-Drains :
    (waited : List String) (t : MessageTree) (message : String) (now : ℕ)
    → t.queue.deque ≡ waited
    → Drains t
        (drain_loop (length waited) message now t).0
        waited
        (drain_loop (length waited) message now t).1
        message
        now
unfolding drain_loop
drain_loop-Drains [] t message now e = record {
  nodes = λ k. refl;
  empty = e;
  returned = λ k. refl;
  root = refl;
}
drain_loop-Drains (x ∷ xs) t message now e =
    let (q, shape, got) = get_nowait-cons t.queue x xs e in
    let t1 : MessageTree = record t {
      queue = q;
      nodes = modify t.nodes x (with_error message now);
    } in
    let d = drain_loop-Drains xs t1 message now shape in
    subst (λ p. Drains t p.0 (x ∷ xs) p.1 message now)
      (sym (ap (drain_round (drain_loop (length xs) message now) message now t) got))
      (record {
        nodes = λ k. ground (
          arith,
          d.nodes k,
          get-modify t.nodes x (with_error message now) k,
          eq_iff x k,
          Option-cases (get t.nodes k),
        );
        empty = d.empty;
        returned = λ k. ground (
          arith,
          d.returned k,
          get-modify t.nodes x (with_error message now) k,
          eq_iff x k,
          Option-cases (get t.nodes k),
          Option-cases (get t.nodes x),
        );
        root = d.root;
      })

pub drain-Drains :
    (t : MessageTree) (message : String) (now : ℕ)
    → Drains t
        (drain_queue_and_mark_cancelled t message now).0
        t.queue.deque
        (drain_queue_and_mark_cancelled t message now).1
        message
        now
unfolding drain_queue_and_mark_cancelled qsize
drain-Drains t message now = drain_loop-Drains t.queue.deque t message now refl
