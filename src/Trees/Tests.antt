-- ===== src/Trees/Tests.antt =====
-- A tree of a reply to a root, and the theorems of messaging/trees/ applied there.
use bailian_free_claude_code.Base.{
  ℕ, ◌==◌, ◌+◌, ◌*◌, ◌≤◌, String, ◌≡◌, refl, true, false, not, ◌&&◌, none, some, List, [], ◌∷◌,
  ◌++◌, arith, if◌then◌else◌, nat_eq, string_eq, length, All, contains, get, put, modify, has, ok,
}
use mathlib.Core.Option
use bailian_free_claude_code.Base.{put}
use bailian_free_claude_code.Trees.Node.{
  IncomingMessage, MessageNode, new_node, is_final, with_error,
}
use bailian_free_claude_code.Trees.Queue
use bailian_free_claude_code.Trees.Queue.{SnapshotQueue, get_nowait, remove_if_present}
use bailian_free_claude_code.Trees.Queue.Laws.{
  Refines, without, GetsHead, queue-Refines, second_copy_stuck,
}
use bailian_free_claude_code.Trees.Tree.{
  MessageTree, new_tree, add_node, parent_key, is_current_node,
}
use bailian_free_claude_code.Trees.Tree.Shape.{
  IsWellFormed, new_tree-IsWellFormed, add_node-IsWellFormed,
}
use bailian_free_claude_code.Trees.Descend.{
  children_of, descend, get_descendants, drop_child, remove_branch,
}
use bailian_free_claude_code.Trees.Descend.Reach.{Reaches, get_descendants_exact}
use bailian_free_claude_code.Trees.Descend.Finish.{get_descendants_finishes}
use bailian_free_claude_code.Trees.Descend.Removal.{is_key, remove_branch_exact}
use bailian_free_claude_code.Trees.Processor.{Ending, returned, enqueue_and_start}
use bailian_free_claude_code.Trees.Processor.Run.{System, Event, enqueue, step, run, idle}
use bailian_free_claude_code.Trees.Processor.Run.Order.{IsConsistent}
use bailian_free_claude_code.Trees.Processor.Run.History.{
  IsSound, enqueued, run-IsConsistent, idle-IsConsistent, process_in_order,
}
use bailian_free_claude_code.Trees.Processor.Run.Drain.{resumes, queue_drains}
use bailian_free_claude_code.Trees.Repository.{TreeRepository, get_tree_for_node}
use bailian_free_claude_code.Trees.Manager.{add_to_tree, add_to_tree_finds}
use bailian_free_claude_code.Trees.Cancel.{
  Cancelled, is_open, cancel_ids, cancel_tree, cancel_branch,
}
use bailian_free_claude_code.Trees.Cancel.Tree.{cancel_tree_quiet}
use bailian_free_claude_code.Trees.Cancel.Branch.{cancel_branch_exact}

abbrev message : String → IncomingMessage
message message_id = record {
  text = "hello";
  chat_id = "chat";
  user_id = "user";
  message_id = message_id;
  platform = "telegram";
  reply_to_message_id = none;
  message_thread_id = none;
  username = none;
  status_message_id = none;
  timestamp = 0;
}

abbrev root_tree : MessageTree
root_tree = record {
  root_id = "a";
  nodes = ("a", new_node "a" (message "a") "sa" none 1) ∷ [];
  status_to_node = ("sa", "a") ∷ [];
  queue = Queue.empty;
  is_processing = false;
  current_node_id = none;
  current_task = none;
}

root_tree-made : new_tree (new_node "a" (message "a") "sa" none 1) ≡ root_tree
unfolding new_tree
root_tree-made = refl

root_tree-IsWellFormed : IsWellFormed root_tree
unfolding new_tree
root_tree-IsWellFormed = new_tree-IsWellFormed (new_node "a" (message "a") "sa" none 1) refl

-- The tree with the reply `b` to `a`.
abbrev reply_tree : MessageTree
reply_tree = record root_tree {
  nodes =
      ("a", record (new_node "a" (message "a") "sa" none 1) { children_ids = "b" ∷ [] })
      ∷ ("b", new_node "b" (message "b") "sb" (some "a") 2)
      ∷ [];
  status_to_node = ("sa", "a") ∷ ("sb", "b") ∷ [];
}

reply_added : add_node root_tree "b" (message "b") "sb" "a" 2 ≡ ok reply_tree
unfolding add_node get put modify
reply_added = refl

no_node : get root_tree.nodes "b" ≡ none
unfolding get
no_node = refl

no_status : get root_tree.status_to_node "sb" ≡ none
unfolding get
no_status = refl

add_node-IsWellFormed_example : IsWellFormed reply_tree
add_node-IsWellFormed_example =
    add_node-IsWellFormed root_tree reply_tree "b" (message "b") "sb" "a" 2 reply_added no_node
      no_status root_tree-IsWellFormed

reply_tree-IsWellFormed : IsWellFormed reply_tree
reply_tree-IsWellFormed =
    add_node-IsWellFormed root_tree reply_tree "b" (message "b") "sb" "a" 2 reply_added no_node
      no_status root_tree-IsWellFormed

root_there : has reply_tree.nodes "a" ≡ true
unfolding get
root_there = refl

both_found : get_descendants 5 reply_tree "a" ≡ some ("a" ∷ "b" ∷ [])
unfolding get_descendants descend children_of get
both_found = refl

get_descendants_exact_example :
    (contains {A = String} ("a" ∷ "b" ∷ []) "b" ≡ true → Reaches reply_tree.nodes "b" "a")
    × (Reaches reply_tree.nodes "b" "a" → contains {A = String} ("a" ∷ "b" ∷ []) "b" ≡ true)
get_descendants_exact_example =
    get_descendants_exact 5 reply_tree "a" ("a" ∷ "b" ∷ []) "b" root_there both_found

get_descendants_finishes_example :
    (fuel : ℕ) × (found : List String) × ((more : ℕ)
      → get_descendants (fuel + more) reply_tree "a" ≡ some found)
get_descendants_finishes_example = get_descendants_finishes reply_tree "a" reply_tree-IsWellFormed

remove_branch_exact_example :
    (t' : MessageTree) × (removed : List MessageNode) × (remove_branch 5 reply_tree "a"
      ≡ some (ok (t', removed)))
    × ((x : String) → Reaches reply_tree.nodes x "a" → get t'.nodes x ≡ none)
    × ((x : String)
        → ¬ Reaches reply_tree.nodes x "a"
        → get t'.nodes x ≡ (
            if is_key (parent_key reply_tree "a") x
            then Option.map (drop_child "a") (get reply_tree.nodes x)
            else get reply_tree.nodes x))
remove_branch_exact_example =
    remove_branch_exact 5 reply_tree "a" ("a" ∷ "b" ∷ []) reply_tree-IsWellFormed root_there
      both_found

cancel_tree_quiet_example :
    ((k : String) (n : MessageNode)
      → get (cancel_tree (λ task. false) reply_tree 9).tree.nodes k ≡ some n
      → is_final n.state ≡ true)
    × ((cancel_tree (λ task. false) reply_tree 9).tree.queue.deque ≡ [])
    × ((cancel_tree (λ task. false) reply_tree 9).tree.is_processing ≡ false)
    × ((cancel_tree (λ task. false) reply_tree 9).tree.current_node_id ≡ none)
    × ((k : String) (n : MessageNode)
        → get reply_tree.nodes k ≡ some n
        → is_final n.state ≡ true
        → contains reply_tree.queue.deque k ≡ false
        → get (cancel_tree (λ task. false) reply_tree 9).tree.nodes k ≡ some n)
cancel_tree_quiet_example = cancel_tree_quiet (λ task. false) reply_tree 9 reply_tree-IsWellFormed

-- Its node `b` is being processed.
abbrev reply_running : MessageTree
reply_running = record reply_tree {
  is_processing = true;
  current_node_id = some "b";
  current_task = some 7;
}

cancel_branch_made :
    cancel_branch 5 (λ task. false) reply_running "b" 9
    ≡ some (cancel_ids (λ task. false) reply_running ("b" ∷ []) 9)
unfolding cancel_branch get_descendants descend children_of get
cancel_branch_made = refl

empty-Refines : Refines Queue.empty []
empty-Refines = record { deque = refl; set = λ x. refl; distinct = tt }

reply_there : has reply_running.nodes "b" ≡ true
unfolding get
reply_there = refl

abbrev branch_cancelled : Cancelled
branch_cancelled = cancel_ids (λ task. false) reply_running ("b" ∷ []) 9

cancel_branch_exact_example :
    (ys : List String) × Refines branch_cancelled.tree.queue ys
    × ((x : String)
        → Reaches reply_running.nodes x "b"
        → (get branch_cancelled.tree.nodes x ≡ (
            if is_open (get reply_running.nodes x)
            then Option.map (with_error "Cancelled by user" 9) (get reply_running.nodes x)
            else get reply_running.nodes x))
          × (contains ys x ≡ (
              contains {A = String} [] x
              && not
                  (is_open (get reply_running.nodes x) && not (is_current_node reply_running x)))))
    × ((x : String)
        → ¬ Reaches reply_running.nodes x "b"
        → (get branch_cancelled.tree.nodes x ≡ get reply_running.nodes x)
          × (contains ys x ≡ contains {A = String} [] x))
    × ((x : String)
        → some "b" ≡ some x
        → Reaches reply_running.nodes x "b"
        → is_open (get reply_running.nodes x) ≡ true
        → branch_cancelled.tasks ≡ 7 ∷ [])
    × (((x : String)
          → some "b" ≡ some x
          → Reaches reply_running.nodes x "b"
          → is_open (get reply_running.nodes x) ≡ false)
        → branch_cancelled.tasks ≡ [])
cancel_branch_exact_example =
    cancel_branch_exact 5 (λ task. false) reply_running "b" 9 branch_cancelled [] reply_there
      empty-Refines cancel_branch_made

abbrev two_asked : List Event
two_asked = enqueue "a" ∷ enqueue "b" ∷ []

two_asked-IsSound : All (IsSound reply_tree) two_asked
unfolding get
two_asked-IsSound = ((refl, refl), ((refl, refl), tt))

process_in_order_example :
    (length (run (idle reply_tree) two_asked).tasks ≤ 1)
    × ((run (idle reply_tree) two_asked).begun ++ (run (idle reply_tree) two_asked).tree.queue.deque
        ≡ enqueued two_asked)
    × ((run (idle reply_tree) two_asked).tree.is_processing ≡ false
        → (run (idle reply_tree) two_asked).begun ≡ enqueued two_asked)
process_in_order_example = process_in_order reply_tree two_asked refl refl two_asked-IsSound

abbrev busy : System
busy = run (idle reply_tree) two_asked

busy-IsConsistent : IsConsistent busy
busy-IsConsistent =
    run-IsConsistent (idle reply_tree) two_asked two_asked-IsSound
      (idle-IsConsistent reply_tree refl refl)

abbrev endings : List (Ending × ℕ)
endings =
    (returned, 1)
    ∷ (returned, 2)
    ∷ (returned, 3)
    ∷ (returned, 4)
    ∷ (returned, 5)
    ∷ (returned, 6)
    ∷ (returned, 7)
    ∷ (returned, 8)
    ∷ []

enough_endings : 4 * (length busy.tree.queue.deque + 1) ≤ length endings
unfolding run step enqueue_and_start Queue.put get
enough_endings = omega arith

queue_drains_example :
    ((run busy (resumes endings)).tree.is_processing ≡ false)
    × ((run busy (resumes endings)).begun ≡ busy.asked)
queue_drains_example = queue_drains busy endings busy-IsConsistent enough_endings

abbrev waiting : SnapshotQueue
waiting = record { deque = "a" ∷ []; set = "a" ∷ [] }

waiting-Refines : Refines waiting ("a" ∷ [])
waiting-Refines = record { deque = refl; set = λ x. refl; distinct = (refl, tt) }

queue-Refines_example :
    (contains {A = String} ("a" ∷ []) "b" ≡ false
      → Refines (Queue.put waiting "b") ("a" ∷ "b" ∷ []))
    × GetsHead (get_nowait waiting) ("a" ∷ [])
    × Refines (remove_if_present waiting "b").0 (without "b" ("a" ∷ []))
    × ((remove_if_present waiting "b").1 ≡ contains {A = String} ("a" ∷ []) "b")
queue-Refines_example = queue-Refines waiting ("a" ∷ []) "b" waiting-Refines

abbrev twice : SnapshotQueue
twice = record { deque = "a" ∷ "a" ∷ []; set = "a" ∷ [] }

abbrev once : SnapshotQueue
once = record { deque = "a" ∷ []; set = [] }

twice-got : get_nowait twice ≡ some ("a", once)
unfolding get_nowait
twice-got = refl

second_copy_stuck_example :
    (contains once.deque "a" ≡ true) × (remove_if_present once "a" ≡ (once, false))
second_copy_stuck_example = second_copy_stuck twice once "a" ("a" ∷ []) refl refl twice-got

abbrev one_tree : TreeRepository
one_tree = record { trees = ("a", root_tree) ∷ []; node_to_tree = ("a", "a") ∷ [] }

root_found : get_tree_for_node one_tree "a" ≡ some root_tree
unfolding get_tree_for_node get
root_found = refl

root_inside : has root_tree.nodes "a" ≡ true
unfolding get
root_inside = refl

root_under : get one_tree.node_to_tree "a" ≡ some "a"
unfolding get
root_under = refl

add_to_tree_finds_example :
    (r' : TreeRepository) × (t' : MessageTree) × (add_to_tree one_tree "a" "b" (message "b") "sb" 2
      ≡ ok (r', t'))
    × (get_tree_for_node r' "b" ≡ some t')
    × (get_tree_for_node r' "a" ≡ some t')
    × (has t'.nodes "b" ≡ true)
    × ((key : String) → ("a" == key) ≡ false → get r'.trees key ≡ get one_tree.trees key)
add_to_tree_finds_example =
    add_to_tree_finds one_tree root_tree "a" "b" (message "b") "sb" 2 root_found root_under
      root_inside
