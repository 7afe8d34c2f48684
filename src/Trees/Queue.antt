-- ===== src/Trees/Queue.antt =====
-- messaging/trees/data.py: `_SnapshotQueue`, a deque of node ids with a set of the same ids.
pub mod Laws
use bailian_free_claude_code.Base.{
  ℕ, String, Bool, true, false, not, Option, none, some, List, [], ◌∷◌, ◌++◌, ◌==◌, length,
  filter_by, contains, string_eq, if◌then◌else◌,
}

-- `set.add` and `set.discard`.
set_add : List String → String → List String
set_add s item = if contains s item then s else s ++ item ∷ []

set_discard : List String → String → List String
set_discard s item = filter_by (λ x. not (x == item)) s

pub record SnapshotQueue : Type 0 where
  pub deque : List String
  pub set : List String

abbrev pub empty : SnapshotQueue
empty = record { deque = []; set = [] }

-- `put` and `put_nowait`, which do the same.
unfoldable pub put : SnapshotQueue → String → SnapshotQueue
unfolding set_add
put q item = record { deque = q.deque ++ item ∷ []; set = set_add q.set item }

pop_left : List String → List String → Option (String × SnapshotQueue)
pop_left [] set = none
pop_left (item ∷ rest) set = some (item, record { deque = rest; set = set_discard set item })

-- `none` stands for `asyncio.QueueEmpty`.
unfoldable pub get_nowait : SnapshotQueue → Option (String × SnapshotQueue)
unfolding pop_left set_discard
get_nowait q = pop_left q.deque q.set

unfoldable pub qsize : SnapshotQueue → ℕ
qsize q = length q.deque

unfoldable pub get_snapshot : SnapshotQueue → List String
get_snapshot q = q.deque

pub remove_if_present : SnapshotQueue → String → SnapshotQueue × Bool
unfolding set_discard
remove_if_present q item =
    if contains q.set item
    then (
      record { deque = filter_by (λ x. not (x == item)) q.deque; set = set_discard q.set item },
      true,
    )
    else (q, false)
