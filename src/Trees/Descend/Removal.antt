-- ===== src/Trees/Descend/Removal.antt =====
-- messaging/trees/data.py: `remove_branch` takes a branch out and nothing else, and never raises.
use bailian_free_claude_code.Base.{
  ℕ, String, ◌≡◌, refl, inl, inr, Bool, true, false, Option, none, some, List, [], ◌∷◌, arith,
  eq_iff, if◌then◌else◌, Bool-cases, Option-cases, ◌==◌, nat_eq, string_eq, contains, Dict, get,
  remove, has, get-remove, get-modify, ok,
}
use mathlib.Core.Option
use bailian_free_claude_code.Trees.Node.{MessageNode}
use bailian_free_claude_code.Trees.Tree.{MessageTree, parent_key}
use bailian_free_claude_code.Trees.Tree.Shape.{IsWellFormed}
use bailian_free_claude_code.Trees.Descend.{
  get_descendants, remove_nodes, drop_child, unlink, remove_branch,
}
use bailian_free_claude_code.Trees.Descend.Reach.{Reaches, get_descendants_exact}

-- The status index finds every node.
abbrev Indexed : Dict String MessageNode → Dict String String → Type 0
Indexed nodes status =
    (k : String) (n : MessageNode) → get nodes k ≡ some n → get status n.status_message_id ≡ some k

Indexed-remove :
    (nodes : Dict String MessageNode) (status : Dict String String) (nid : String) (n : MessageNode)
    → get nodes nid ≡ some n
    → Indexed nodes status
    → Indexed (remove nodes nid) (remove status n.status_message_id)
Indexed-remove nodes status nid n e i k m e' = ground (
  arith,
  get-remove nodes nid k,
  get-remove status n.status_message_id m.status_message_id,
  i nid n e,
  i k m,
  eq_iff nid k,
  eq_iff n.status_message_id m.status_message_id,
)

-- The tree after the loop: the given ids are gone, other nodes and fields are as they were.
record Removes (nids : List String) (t t' : MessageTree) : Type 0 where
  nodes : (k : String) → get t'.nodes k ≡ (if contains nids k then none else get t.nodes k)
  root : t'.root_id ≡ t.root_id
  queue : t'.queue ≡ t.queue

remove_nodes-Removes :
    (nids : List String) (t : MessageTree)
    → Indexed t.nodes t.status_to_node
    → (t' : MessageTree) × (removed : List MessageNode) × (remove_nodes nids t ≡ ok (t', removed))
      × Removes nids t t'
unfolding remove_nodes
remove_nodes-Removes [] t i = (t, [], refl, record { nodes = λ k. refl; root = refl; queue = refl })
remove_nodes-Removes (nid ∷ nids) t i = elim (Option-cases (get t.nodes nid)) [
  | inl e ↦
      let (t', removed, run, r) = remove_nodes-Removes nids t i in
      (
        t',
        removed,
        rw (e, remove_nodes) run,
        record {
          nodes = λ k. ground (arith, r.nodes k, eq_iff nid k, e);
          root = r.root;
          queue = r.queue;
        },
      )
  | inr (n, e) ↦
      let t1 : MessageTree = record t {
        nodes = remove t.nodes nid;
        status_to_node = remove t.status_to_node n.status_message_id;
      } in
      let (t', removed, run, r) =
        remove_nodes-Removes nids t1 (Indexed-remove t.nodes t.status_to_node nid n e i) in
      (
        t',
        n ∷ removed,
        ground (arith, e, i nid n e, run),
        record {
          nodes = λ k. ground (arith, r.nodes k, eq_iff nid k, get-remove t.nodes nid k);
          root = r.root;
          queue = r.queue;
        },
      )
]

abbrev pub is_key : Option String → String → Bool
is_key none k = false
is_key (some p) k = p == k

-- The nodes once the branch is out of its parent's children.
get-unlinked :
    (parent : Option String) (t' : MessageTree) (branch_root_id k : String)
    → get (unlink parent branch_root_id t').nodes k ≡ (
        if is_key parent k
        then Option.map (drop_child branch_root_id) (get t'.nodes k)
        else get t'.nodes k)
get-unlinked none t' branch_root_id k = refl
get-unlinked (some p) t' branch_root_id k = get-modify t'.nodes p (drop_child branch_root_id) k

-- In a well-formed tree, once its branch is listed, `remove_branch` does not raise: the ids in the
-- branch have no node any more, the parent of its root loses that child, and every other id keeps its
-- node.
pub remove_branch_exact :
    (fuel : ℕ) (t : MessageTree) (branch_root_id : String) (found : List String)
    → IsWellFormed t
    → has t.nodes branch_root_id ≡ true
    → get_descendants fuel t branch_root_id ≡ some found
    → (t' : MessageTree) × (removed : List MessageNode) × (remove_branch fuel t branch_root_id
        ≡ some (ok (t', removed)))
      × ((x : String) → Reaches t.nodes x branch_root_id → get t'.nodes x ≡ none)
      × ((x : String)
          → ¬ Reaches t.nodes x branch_root_id
          → get t'.nodes x ≡ (
              if is_key (parent_key t branch_root_id) x
              then Option.map (drop_child branch_root_id) (get t.nodes x)
              else get t.nodes x))
unfolding remove_branch
remove_branch_exact fuel t branch_root_id found w there descends =
    let (t', removed, run, r) = remove_nodes-Removes found t w.indexed in
    let exact =
      λ (x : String). get_descendants_exact fuel t branch_root_id found x there descends in
    let unlinked = get-unlinked (parent_key t branch_root_id) t' branch_root_id in
    (
      unlink (parent_key t branch_root_id) branch_root_id t',
      removed,
      rw (there, descends, run),
      λ x inside. ground (arith, unlinked x, r.nodes x, (exact x).1 inside),
      λ x outside. elim (Bool-cases (contains found x)) [
        | inl listed ↦ absurd (outside ((exact x).0 listed))
        | inr absent ↦ ground (arith, unlinked x, r.nodes x, absent)
      ],
    )
