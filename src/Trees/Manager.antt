-- ===== src/Trees/Manager.antt =====
-- messaging/trees/queue_manager.py: the operations of `TreeQueueManager` that span several trees. A
-- tree that an operation changes is written back where it was found; in the code the repository holds
-- the object itself. The locks make each operation one step; callbacks are left out.
use bailian_free_claude_code.Base.{
  ℕ, String, ◌≡◌, refl, ◌∙◌, Bool, true, false, not, Option, none, some, List, [], ◌∷◌, ◌++◌, arith,
  if◌then◌else◌, Option-cases, ◌==◌, nat_eq, string_eq, keys, get, put, modify, has, get-put,
  get-put_self, get-modify, value_error, Outcome, ok, raised, ◌>>=◌,
}
use mathlib.Core.Option
use bailian_free_claude_code.Trees.Node.{error, IncomingMessage, new_node}
use bailian_free_claude_code.Trees.Tree.{
  update_state, MessageTree, new_tree, add_node, append_child,
}
use bailian_free_claude_code.Trees.Processor.{enqueue_and_start}
use bailian_free_claude_code.Trees.Repository.{
  get_pending_children, TreeRepository, get_tree, tree_key, get_tree_for_node, add_tree,
  register_node, is_registered,
}
use bailian_free_claude_code.Trees.Cancel.{fail_children, cancel_tree}

-- The tree under this root id is as given.
abbrev store : TreeRepository → String → MessageTree → TreeRepository
store r root_id t = record r { trees = put r.trees root_id t }

unfoldable create_tree :
    TreeRepository → String → IncomingMessage → String → ℕ → TreeRepository × MessageTree
unfolding new_tree add_tree
create_tree r node_id incoming status_message_id now =
    let t = new_tree (new_node node_id incoming status_message_id none now) in
    (add_tree r node_id t, t)

-- The tree in which the node was found is as given.
abbrev store_for_node : TreeRepository → String → MessageTree → TreeRepository
store_for_node r node_id t = elim (tree_key r node_id) [ none ↦ r | some key ↦ store r key t ]

-- The tree of the parent with the new node.
pub add_to_tree :
    TreeRepository
    → String
    → String
    → IncomingMessage
    → String
    → ℕ
    → Outcome (TreeRepository × MessageTree)
unfolding is_registered get_tree_for_node tree_key add_node register_node
add_to_tree r parent_node_id node_id incoming status_message_id now =
    if not (is_registered r parent_node_id)
    then raised value_error
    else elim (get_tree_for_node r parent_node_id)
        as (λ _. Outcome (TreeRepository × MessageTree)) [
          | none ↦ raised value_error
          | some t ↦ add_node t node_id incoming status_message_id parent_node_id now >>= λ t'.
              ok (register_node (store_for_node r parent_node_id t') node_id t.root_id, t')
        ]

-- The repository afterwards, the task that was created, and the answer.
unfoldable pub enqueue : TreeRepository → String → ℕ → TreeRepository × (Option (ℕ × String) × Bool)
unfolding get_tree_for_node tree_key enqueue_and_start
enqueue r node_id task = elim (get_tree_for_node r node_id) [
  | none ↦ (r, (none, false))
  | some t ↦
      let (started, queued) = enqueue_and_start t node_id task in
      (store_for_node r node_id started.tree, (started.created, queued))
]

-- The node itself is marked, where the tree has it.
abbrev mark_one : MessageTree → String → String → ℕ → MessageTree × List String
mark_one t node_id error_message now =
    if has t.nodes node_id
    then (update_state t node_id error none (some error_message) now, node_id ∷ [])
    else (t, [])

-- The repository afterwards and the ids of the nodes marked; `none` is a search for pending children
-- that has not ended.
unfoldable mark_node_error :
    ℕ → TreeRepository → String → String → Bool → ℕ → Option (TreeRepository × List String)
unfolding get_tree_for_node tree_key update_state get_pending_children fail_children
mark_node_error fuel r node_id error_message propagate_to_children now =
    elim (get_tree_for_node r node_id) [
      | none ↦ some (r, [])
      | some t ↦
          let (t1, affected) = mark_one t node_id error_message now in
          let r1 = store_for_node r node_id t1 in
          if propagate_to_children
          then Option.map
              (λ children. (
                store_for_node r node_id (fail_children t1 children error_message now),
                affected ++ children,
              ))
              (get_pending_children fuel r1 node_id)
          else some (r1, affected)
    ]

-- `cancel_tree` on the tree of a root id, with the ids of the nodes that it returns.
cancel_tree_at : (ℕ → Bool) → TreeRepository → String → ℕ → TreeRepository × List String
unfolding get_tree cancel_tree
cancel_tree_at done r root_id now = elim (get_tree r root_id) [
  | none ↦ (r, [])
  | some t ↦
      let cancelled = cancel_tree done t now in (store r root_id cancelled.tree, cancelled.ids)
]

-- The loop of `cancel_all` over the root ids.
cancel_roots : (ℕ → Bool) → TreeRepository → List String → ℕ → TreeRepository × List String
unfolding cancel_tree_at
cancel_roots done r [] now = (r, [])
cancel_roots done r (root_id ∷ root_ids) now =
    let first = cancel_tree_at done r root_id now in
    let rest = cancel_roots done first.0 root_ids now in (rest.0, first.1 ++ rest.1)

unfoldable cancel_all : (ℕ → Bool) → TreeRepository → ℕ → TreeRepository × List String
unfolding cancel_roots
cancel_all done r now = cancel_roots done r (keys r.trees) now

known_registered :
    (r : TreeRepository) (node_id : String) (t : MessageTree)
    → get_tree_for_node r node_id ≡ some t
    → is_registered r node_id ≡ true
unfolding get_tree_for_node is_registered
known_registered r node_id t found =
    ground (arith, found, Option-cases (get r.node_to_tree node_id))

added_ok :
    (r : TreeRepository) (t : MessageTree) (parent_node_id node_id : String)
    (incoming : IncomingMessage) (status_message_id : String) (now : ℕ)
    → get_tree_for_node r parent_node_id ≡ some t
    → has t.nodes parent_node_id ≡ true
    → add_to_tree r parent_node_id node_id incoming status_message_id now ≡ (
        add_node t node_id incoming status_message_id parent_node_id now >>= λ t'.
        ok (register_node (store_for_node r parent_node_id t') node_id t.root_id, t'))
unfolding add_to_tree tree_key
added_ok r t parent_node_id node_id incoming status_message_id now found inside =
    rw (known_registered r parent_node_id t found, found) refl

-- A tree that is found is found under its key, which is not empty.
keyed :
    (r : TreeRepository) (node_id : String) (t : MessageTree)
    → get_tree_for_node r node_id ≡ some t
    → (get r.node_to_tree node_id ≡ some t.root_id)
    → tree_key r node_id ≡ some t.root_id
unfolding get_tree_for_node tree_key
keyed r node_id t found under = ground (arith, found, under, Option-cases (get r.trees t.root_id))

-- A reply to a node of a known tree that the index has under its own root id is kept: `add_to_tree`
-- does not raise, its tree has a node under the new id, the repository finds that tree under the new
-- id and under the parent's, and every other tree stays as it was.
pub add_to_tree_finds :
    (r : TreeRepository) (t : MessageTree) (parent_node_id node_id : String)
    (incoming : IncomingMessage) (status_message_id : String) (now : ℕ)
    → get_tree_for_node r parent_node_id ≡ some t
    → get r.node_to_tree parent_node_id ≡ some t.root_id
    → has t.nodes parent_node_id ≡ true
    → (r' : TreeRepository) × (t' : MessageTree) × (add_to_tree r parent_node_id node_id incoming
          status_message_id now
        ≡ ok (r', t'))
      × (get_tree_for_node r' node_id ≡ some t')
      × (get_tree_for_node r' parent_node_id ≡ some t')
      × (has t'.nodes node_id ≡ true)
      × ((key : String) → (t.root_id == key) ≡ false → get r'.trees key ≡ get r.trees key)
unfolding add_to_tree add_node get_tree_for_node is_registered register_node
add_to_tree_finds r t parent_node_id node_id incoming status_message_id now found under inside =
    let child = new_node node_id incoming status_message_id (some parent_node_id) now in
    let added = put t.nodes node_id child in
    let t' : MessageTree = record t {
      nodes = modify added parent_node_id (append_child node_id);
      status_to_node = put t.status_to_node status_message_id node_id;
    } in
    let r' : TreeRepository = register_node (store r t.root_id t') node_id t.root_id in
    let named : (t.root_id == "") ≡ false = ground (arith, found, under) in
    (
      r',
      t',
      added_ok r t parent_node_id node_id incoming status_message_id now found inside
          ∙ ground (arith, inside, keyed r parent_node_id t found under),
      ground (
        arith,
        get-put_self r.node_to_tree node_id t.root_id,
        get-put_self r.trees t.root_id t',
        named,
      ),
      ground (
        arith,
        get-put r.node_to_tree node_id t.root_id parent_node_id,
        get-put_self r.trees t.root_id t',
        named,
        under,
      ),
      ground (
        arith,
        get-modify added parent_node_id (append_child node_id) node_id,
        get-put_self t.nodes node_id child,
      ),
      λ key differs. ground (arith, get-put r.trees t.root_id t' key, differs),
    )
