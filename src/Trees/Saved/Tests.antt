-- ===== src/Trees/Saved/Tests.antt =====
-- A tree that is saved and restored.
use bailian_free_claude_code.Base.{
  ℕ, zero, suc, String, ◌≡◌, refl, ap, inl, inr, false, none, some, arith, eq_iff, Bool-cases, ◌==◌,
  nat_eq, string_eq, value_error, Outcome, ok, raised,
}
use bailian_free_claude_code.Trees.Node.{IncomingMessage, new_node}
use bailian_free_claude_code.Trees.Tree.{MessageTree, new_tree}
use bailian_free_claude_code.Trees.Tree.Shape.{IsWellFormed, new_tree-IsWellFormed}
use bailian_free_claude_code.Trees.Saved.{tree_to_dict, tree_from_dict}
use bailian_free_claude_code.Trees.Saved.Entries.{IsDict}
use bailian_free_claude_code.Trees.Saved.RoundTrip.{Restores, tree_round_trip}
use Prim.Native.String.{String as Text}

-- A time as that many letters behind a first one.
abbrev tally : ℕ → String
tally zero = "T"
tally (suc n) = Text.◌∷◌ "t" (tally n)

letters : String → ℕ
letters Text.[] = 0
letters (Text.◌∷◌ c s) = suc (letters s)

read_tally : String → Outcome ℕ
unfolding letters
read_tally s = elim (letters s) [ zero ↦ raised value_error | suc n ↦ ok n ]

letters-tally : (n : ℕ) → letters (tally n) ≡ suc n
unfolding letters
letters-tally zero = refl
letters-tally (suc n) = ap suc (letters-tally n)

read_tally-tally : (n : ℕ) → read_tally (tally n) ≡ ok n
unfolding read_tally
read_tally-tally n = rw (read_tally, letters-tally n) refl

tally_full : (n : ℕ) → (tally n == "") ≡ false
unfolding letters
tally_full n = elim (Bool-cases (tally n == "")) [
  | inl empty ↦ absurd (omega (arith, letters-tally n, ap letters ((eq_iff (tally n) "").0 empty)))
  | inr full ↦ full
]

abbrev hello : IncomingMessage
hello = record {
  text = "hello";
  chat_id = "c";
  user_id = "u";
  message_id = "a";
  platform = "discord";
  reply_to_message_id = none;
  message_thread_id = some "7";
  username = none;
  status_message_id = some "sa";
  timestamp = 3;
}

abbrev one_node : MessageTree
one_node = new_tree (new_node "a" hello "sa" none 3)

one_node-IsWellFormed : IsWellFormed one_node
one_node-IsWellFormed = new_tree-IsWellFormed (new_node "a" hello "sa" none 3) refl

one_node-IsDict : IsDict one_node.nodes
unfolding new_tree
one_node-IsDict k = ground arith

tree_round_trip_example :
    (r : MessageTree) × (tree_from_dict tally read_tally 5 (tree_to_dict tally read_tally one_node)
      ≡ ok r)
    × Restores 5 one_node r
tree_round_trip_example =
    tree_round_trip tally read_tally read_tally-tally tally_full 5 one_node one_node-IsWellFormed
      one_node-IsDict
