-- ===== src/Trees/Node.antt =====
-- messaging/models.py and messaging/trees/data.py: messages, nodes and their states. Datetimes are
-- numbers of ticks. Of `context`, an `Any`, the handler uses the entry `cancel_reason`; `raw_event`
-- is never read here and left out.
use bailian_free_claude_code.Base.{
  ℕ, String, Bool, true, false, Option, none, some, List, [], nat_eq, string_eq, is_some,
}

pub data MessageState : Type 0 where
  pending in_progress completed error : MessageState

pub record IncomingMessage : Type 0 where
  pub text : String
  pub chat_id : String
  pub user_id : String
  pub message_id : String
  pub platform : String
  pub reply_to_message_id : Option String
  pub message_thread_id : Option String
  pub username : Option String
  pub status_message_id : Option String
  pub timestamp : ℕ

unfoldable is_reply : IncomingMessage → Bool
is_reply m = is_some m.reply_to_message_id

pub record MessageNode : Type 0 where
  pub node_id : String
  pub incoming : IncomingMessage
  pub status_message_id : String
  pub state : MessageState
  pub parent_id : Option String
  pub session_id : Option String
  pub children_ids : List String
  pub created_at : ℕ
  pub completed_at : Option ℕ
  pub error_message : Option String
  pub context : Option String

unfoldable set_context : MessageNode → Option String → MessageNode
set_context n context = record n { context = context }

-- A new node, with the defaults of the dataclass.
abbrev pub new_node : String → IncomingMessage → String → Option String → ℕ → MessageNode
new_node node_id incoming status_message_id parent_id now = record {
  node_id = node_id;
  incoming = incoming;
  status_message_id = status_message_id;
  state = pending;
  parent_id = parent_id;
  session_id = none;
  children_ids = [];
  created_at = now;
  completed_at = none;
  error_message = none;
  context = none;
}

-- `state in (COMPLETED, ERROR)`
abbrev pub is_final : MessageState → Bool
is_final completed = true
is_final error = true
is_final pending = false
is_final in_progress = false

abbrev pub is_pending : MessageState → Bool
is_pending pending = true
is_pending in_progress = false
is_pending completed = false
is_pending error = false

abbrev pub is_error : MessageState → Bool
is_error error = true
is_error pending = false
is_error in_progress = false
is_error completed = false

-- The assignments of `set_node_error_sync` to a node.
abbrev pub with_error : String → ℕ → MessageNode → MessageNode
with_error message now n = record n {
  state = error;
  error_message = some message;
  completed_at = some now;
}
