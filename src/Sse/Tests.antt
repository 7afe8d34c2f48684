-- ===== src/Sse/Tests.antt =====
-- The transport's stream on a small input, and the theorem applied there.
use bailian_free_claude_code.Base.{
  String, ◌≡◌, refl, true, none, some, List, [], ◌∷◌, nat_eq, string_eq, get, put, Outcome, ok, ℕ,
}
use bailian_free_claude_code.Sse.Json.{pos}
use bailian_free_claude_code.Sse.Builder.{
  start_text, content_block_delta, content_block_stop, start_tool_use,
}
use bailian_free_claude_code.Sse.Builder.ToolArgs.{JsonCodec, estimate_output_tokens}
use bailian_free_claude_code.Sse.Contract.{assert_anthropic_stream_contract, event_names}
use bailian_free_claude_code.Sse.Transport.{plain, ThinkParser, ToolParser, Chunk}
use bailian_free_claude_code.Sse.Transport.Stream.{exhausted, stream_response}
use bailian_free_claude_code.Sse.Conforms.Accepted.{stream_accepted}

abbrev no_json : JsonCodec
no_json = record { loads = λ s. none; escapes = λ s. none; dumps = λ j. "{}" }

-- A parser that finds no tags, and one that finds no tools.
abbrev whole_text : ThinkParser
whole_text = record {
  State = Unit;
  start = tt;
  feed = λ s content. (tt, plain content ∷ []);
  flush = λ s. none;
}

abbrev no_tools_found : ToolParser
no_tools_found = record {
  State = Unit;
  start = tt;
  feed = λ s content. (tt, (content, []));
  flush = λ s. [];
}

abbrev say : String → Chunk
say words = record {
  usage = none;
  choice =
      some
        (some (record { reasoning_content = none; content = some words; tool_calls = [] }), none);
}

abbrev call : String → String → Chunk
call name arguments = record {
  usage = none;
  choice = some (
    some (record {
      reasoning_content = none;
      content = none;
      tool_calls =
          record {
            index = pos 0;
            id = some "call_1";
            name = some name;
            arguments = some arguments;
            uuid = "u";
          }
          ∷ [];
    }),
    some "tool_calls",
  );
}

abbrev chunks : List Chunk
chunks = say "hello" ∷ call "Task" "{x" ∷ say "bye" ∷ []

stream_names :
    event_names
      (stream_response no_json whole_text no_tools_found none
        (λ x. "oops")
        true
        "msg_1"
        "glm"
        (some (pos 7))
        none
        chunks
        exhausted).events
    ≡ "message_start" ∷ "content_block_start" ∷ "content_block_delta" ∷ "content_block_stop"
      ∷ "content_block_start" ∷ "content_block_start" ∷ "content_block_delta"
      ∷ "content_block_delta" ∷ "content_block_stop" ∷ "content_block_stop" ∷ "message_delta"
      ∷ "message_stop" ∷ []
unfolding stream_response start_text content_block_delta get put content_block_stop start_tool_use
stream_names = refl

-- A tokenizer that takes each text for one token.
abbrev one_token : String → Outcome ℕ
one_token words = ok 1

one_counted :
    estimate_output_tokens
      (some one_token)
      (stream_response no_json whole_text no_tools_found
        (some one_token)
        (λ x. "oops")
        true
        "msg_1"
        "glm"
        (some (pos 7))
        none
        chunks
        exhausted).sse
    ≡ ok 27
unfolding estimate_output_tokens stream_response start_text content_block_delta get put
    content_block_stop start_tool_use
one_counted = refl

stream_accepted_example :
    ((stream_response no_json whole_text no_tools_found
        (some one_token)
        (λ x. "oops")
        true
        "msg_1"
        "glm"
        (some (pos 7))
        none
        chunks
        exhausted).failure
      ≡ none)
    × (assert_anthropic_stream_contract
          (λ j. "")
          true
          (stream_response no_json whole_text no_tools_found
            (some one_token)
            (λ x. "oops")
            true
            "msg_1"
            "glm"
            (some (pos 7))
            none
            chunks
            exhausted).events
        ≡ ok tt)
stream_accepted_example =
    stream_accepted no_json whole_text no_tools_found (some one_token) (λ x. "oops") true (λ j. "")
      "msg_1" "glm" (some (pos 7)) chunks exhausted 27 (λ buffer. refl) one_counted
