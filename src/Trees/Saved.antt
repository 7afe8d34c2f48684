-- ===== src/Trees/Saved.antt =====
-- messaging/trees/data.py and messaging/trees/queue_manager.py: nodes, trees and repositories as JSON,
-- and back. The code keeps a value of an unexpected type as it is; the model, whose fields are typed,
-- gives `type_error` for it. One reading of the clock stands for those of one restoration.
pub mod Nodes
pub mod Entries
pub mod Refill
pub mod RoundTrip
mod Tests
use bailian_free_claude_code.Base.{
  ℕ, zero, suc, ◌+◌, ◌-◌, ◌*◌, ◌^◌, ◌≤◌, ◌<◌, String, ◌≡◌, refl, sym, ap, ◌∙◌, ◌≢◌, ◌↔◌, ◌⊎◌, inl,
  inr, Bool, true, false, not, ◌&&◌, ◌||◌, Option, none, some, List, [], ◌∷◌, ◌++◌, map, arith,
  eq_iff, ltb, leb, if◌then◌else◌, leb→le, Bool-cases, Option-cases, Eq, ◌==◌, nat_eq, string_eq,
  beq_refl, length, All, filter_by, contains, count, contains-append, Dict, keys, values, is_some,
  get, put, remove, modify, has, get-put, get-put_self, get-remove, get-modify, keys-modify,
  get-nil, dict_laws, value_error, key_error, Outcome, ok, raised, ◌>>=◌, truthy,
}
use bailian_free_claude_code.Base.{type_error}
use bailian_free_claude_code.Sse.Json.{
  Json, null, text, array, object, Items, nil, cons, Fields, end, field, lookup,
}
use bailian_free_claude_code.Sse.Json.Typed.{
  text_or_null, text_items, item, to_text, to_fields, to_optional, to_texts, to_list,
  fields_or_empty,
}
use bailian_free_claude_code.Trees.Node.{
  MessageState, pending, in_progress, completed, error, IncomingMessage, MessageNode,
}
use bailian_free_claude_code.Trees.Tree.{MessageTree, new_tree}
use bailian_free_claude_code.Trees.Repository.{TreeRepository}

-- `state.value`
abbrev state_value : MessageState → String
state_value pending = "pending"
state_value in_progress = "in_progress"
state_value completed = "completed"
state_value error = "error"

-- `MessageState(value)`
state_of : String → Outcome MessageState
state_of value =
    if value == "pending"
    then ok pending
    else if value == "in_progress"
    then ok in_progress
    else if value == "completed"
    then ok completed
    else if value == "error"
    then ok error
    else raised value_error

-- `_add_node_from_dict`
abbrev add_node_from_dict : MessageTree → MessageNode → MessageTree
add_node_from_dict t n = record t {
  nodes = put t.nodes n.node_id n;
  status_to_node = put t.status_to_node n.status_message_id n.node_id;
}

-- `datetime.isoformat` and `datetime.fromisoformat`
module _ (isoformat : ℕ → String) (fromisoformat : String → Outcome ℕ) where
  abbrev pub time_or_null : Option ℕ → Json
  time_or_null none = null
  time_or_null (some time) = text (isoformat time)

  -- `None` and the empty text are no time.
  to_time : Option String → Outcome (Option ℕ)
  to_time none = ok none
  to_time (some s) = if s == "" then ok none else fromisoformat s >>= λ time. ok (some time)

  abbrev pub incoming_to_dict : IncomingMessage → Fields
  incoming_to_dict m = field "text" (text m.text) (
      field "chat_id" (text m.chat_id) (
        field "user_id" (text m.user_id) (
          field "message_id" (text m.message_id) (
            field "platform" (text m.platform) (
              field "reply_to_message_id" (text_or_null m.reply_to_message_id) (
                field "message_thread_id" (text_or_null m.message_thread_id)
                  (field "username" (text_or_null m.username) end)))))))

  abbrev pub node_to_dict : MessageNode → Fields
  node_to_dict n = field "node_id" (text n.node_id) (
      field "incoming" (object (incoming_to_dict n.incoming)) (
        field "status_message_id" (text n.status_message_id) (
          field "state" (text (state_value n.state)) (
            field "parent_id" (text_or_null n.parent_id) (
              field "session_id" (text_or_null n.session_id) (
                field "children_ids" (array (text_items n.children_ids)) (
                  field "created_at" (text (isoformat n.created_at)) (
                    field "completed_at" (time_or_null n.completed_at)
                      (field "error_message" (text_or_null n.error_message) end)))))))))

  incoming_from_dict : ℕ → Fields → Outcome IncomingMessage
  incoming_from_dict now d = item d "text" >>= to_text >>= λ content.
      item d "chat_id" >>= to_text >>= λ chat_id. item d "user_id" >>= to_text >>= λ user_id.
      item d "message_id" >>= to_text >>= λ message_id.
      item d "platform" >>= to_text >>= λ platform.
      to_optional (lookup d "reply_to_message_id") >>= λ reply.
      to_optional (lookup d "message_thread_id") >>= λ thread.
      to_optional (lookup d "username") >>= λ username. ok (record {
        text = content;
        chat_id = chat_id;
        user_id = user_id;
        message_id = message_id;
        platform = platform;
        reply_to_message_id = reply;
        message_thread_id = thread;
        username = username;
        status_message_id = none;
        timestamp = now;
      })

  pub node_from_dict : ℕ → Fields → Outcome MessageNode
  unfolding state_of to_texts to_time incoming_from_dict
  node_from_dict now d = item d "incoming" >>= to_fields >>= incoming_from_dict now >>= λ incoming.
      item d "node_id" >>= to_text >>= λ node_id.
      item d "status_message_id" >>= to_text >>= λ status_message_id.
      item d "state" >>= to_text >>= state_of >>= λ state.
      to_optional (lookup d "parent_id") >>= λ parent_id.
      to_optional (lookup d "session_id") >>= λ session_id.
      to_list (lookup d "children_ids") >>= λ children_ids.
      item d "created_at" >>= to_text >>= fromisoformat >>= λ created_at.
      to_optional (lookup d "completed_at") >>= to_time >>= λ completed_at.
      to_optional (lookup d "error_message") >>= λ error_message. ok (record {
        node_id = node_id;
        incoming = incoming;
        status_message_id = status_message_id;
        state = state;
        parent_id = parent_id;
        session_id = session_id;
        children_ids = children_ids;
        created_at = created_at;
        completed_at = completed_at;
        error_message = error_message;
        context = none;
      })

  pub nodes_to_dict : Dict String MessageNode → Fields
  nodes_to_dict [] = end
  nodes_to_dict ((k, n) ∷ d) = field k (object (node_to_dict n)) (nodes_to_dict d)

  pub tree_to_dict : MessageTree → Fields
  unfolding nodes_to_dict
  tree_to_dict t =
      field "root_id" (text t.root_id) (field "nodes" (object (nodes_to_dict t.nodes)) end)

  -- One round of the loop over the nodes.
  abbrev pub restore_node : ℕ → String → MessageTree → String → Json → Outcome MessageTree
  restore_node now root_id t node_id value =
      if node_id == root_id
      then ok t
      else (to_fields value >>= node_from_dict now >>= λ n. ok (add_node_from_dict t n))

  pub restore_nodes : ℕ → String → MessageTree → Fields → Outcome MessageTree
  unfolding node_from_dict
  restore_nodes now root_id t end = ok t
  restore_nodes now root_id t (field node_id value d) =
      restore_node now root_id t node_id value >>= λ t1. restore_nodes now root_id t1 d

  pub tree_from_dict : ℕ → Fields → Outcome MessageTree
  unfolding restore_nodes node_from_dict new_tree
  tree_from_dict now saved = item saved "root_id" >>= to_text >>= λ root_id.
      item saved "nodes" >>= to_fields >>= λ nodes.
      item nodes root_id >>= to_fields >>= node_from_dict now >>= λ root.
      restore_nodes now root_id (new_tree root) nodes

  trees_to_dict : Dict String MessageTree → Fields
  unfolding tree_to_dict
  trees_to_dict [] = end
  trees_to_dict ((k, t) ∷ d) = field k (object (tree_to_dict t)) (trees_to_dict d)

  restore_trees : ℕ → Dict String MessageTree → Fields → Outcome (Dict String MessageTree)
  unfolding tree_from_dict
  restore_trees now trees end = ok trees
  restore_trees now trees (field root_id value d) =
      to_fields value >>= tree_from_dict now >>= λ t. restore_trees now (put trees root_id t) d

-- `node_to_tree`, a `dict` of texts
abbrev texts_to_dict : Dict String String → Fields
texts_to_dict [] = end
texts_to_dict ((k, s) ∷ d) = field k (text s) (texts_to_dict d)

texts_from_dict : Fields → Outcome (Dict String String)
texts_from_dict end = ok []
texts_from_dict (field k value d) =
    to_text value >>= λ s. texts_from_dict d >>= λ rest. ok ((k, s) ∷ rest)

module _ (isoformat : ℕ → String) (fromisoformat : String → Outcome ℕ) where
  unfoldable repository_to_dict : TreeRepository → Fields
  unfolding trees_to_dict
  repository_to_dict r =
      field "trees" (object (trees_to_dict isoformat fromisoformat r.trees))
        (field "node_to_tree" (object (texts_to_dict r.node_to_tree)) end)

  unfoldable repository_from_dict : ℕ → Fields → Outcome TreeRepository
  unfolding restore_trees texts_from_dict
  repository_from_dict now saved =
      fields_or_empty (lookup saved "trees")
      >>= restore_trees isoformat fromisoformat now []
      >>= λ trees.
          fields_or_empty (lookup saved "node_to_tree") >>= texts_from_dict >>= λ node_to_tree.
          ok (record { trees = trees; node_to_tree = node_to_tree })
