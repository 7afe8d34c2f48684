-- ===== src/Trees/Saved/Nodes.antt =====
-- messaging/trees/data.py: a node that is saved and restored.
use bailian_free_claude_code.Base.{
  ℕ, String, ◌≡◌, refl, false, Option, none, some, ◌==◌, nat_eq, string_eq, Outcome, ok, ◌>>=◌,
}
use bailian_free_claude_code.Sse.Json.{lookup}
use bailian_free_claude_code.Sse.Json.Typed.{to_optional, optional_round_trip, texts_round_trip}
use bailian_free_claude_code.Trees.Node.{
  MessageState, pending, in_progress, completed, error, IncomingMessage, MessageNode,
}
use bailian_free_claude_code.Trees.Saved.{
  state_value, state_of, time_or_null, to_time, incoming_to_dict, node_to_dict, incoming_from_dict,
  node_from_dict,
}

-- What is left of a node: its context, and of its message the id of a prepared status message and the
-- time, are not saved.
abbrev pub restored : ℕ → MessageNode → MessageNode
restored now n = record n {
  incoming = record n.incoming { status_message_id = none; timestamp = now };
  context = none;
}

state_round_trip : (s : MessageState) → state_of (state_value s) ≡ ok s
unfolding state_of
state_round_trip pending = refl
state_round_trip in_progress = refl
state_round_trip completed = refl
state_round_trip error = refl

module _ (isoformat : ℕ → String) (fromisoformat : String → Outcome ℕ)
    (iso_inverse : (time : ℕ) → fromisoformat (isoformat time) ≡ ok time)
    (iso_full : (time : ℕ) → (isoformat time == "") ≡ false) where
  time_round_trip :
      (o : Option ℕ)
      → (to_optional (some (time_or_null isoformat fromisoformat o))
          >>= to_time isoformat fromisoformat)
        ≡ ok o
  unfolding to_time
  time_round_trip none = refl
  time_round_trip (some time) = rw (iso_full time, iso_inverse time) refl

  incoming_round_trip :
      (now : ℕ) (m : IncomingMessage)
      → incoming_from_dict isoformat fromisoformat now (incoming_to_dict isoformat fromisoformat m)
        ≡ ok (record m { status_message_id = none; timestamp = now })
  unfolding incoming_from_dict lookup
  incoming_round_trip now m =
      rw
        (
          optional_round_trip m.reply_to_message_id,
          optional_round_trip m.message_thread_id,
          optional_round_trip m.username,
        )
        refl

  pub node_round_trip :
      (now : ℕ) (n : MessageNode)
      → node_from_dict isoformat fromisoformat now (node_to_dict isoformat fromisoformat n)
        ≡ ok (restored now n)
  unfolding node_from_dict lookup
  node_round_trip now n =
      rw
        (
          incoming_round_trip now n.incoming,
          state_round_trip n.state,
          optional_round_trip n.parent_id,
          optional_round_trip n.session_id,
          texts_round_trip n.children_ids,
          iso_inverse n.created_at,
          time_round_trip n.completed_at,
          optional_round_trip n.error_message,
        )
        refl
