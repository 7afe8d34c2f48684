-- ===== src/Sse/Conforms/Accepted.antt =====
-- providers/openai_compat.py against core/anthropic/stream_contracts.py: the stream that the
-- transport yields keeps the contract.
use bailian_free_claude_code.Base.{
  ℕ, String, ◌≡◌, refl, Bool, true, false, ◌&&◌, Option, none, some, List, [], ◌∷◌, arith,
  if◌then◌else◌, ◌==◌, nat_eq, string_eq, get, ok, truthy,
}
use bailian_free_claude_code.Base.{Exception, Outcome, inl, inr}
use bailian_free_claude_code.Sse.Json.{ℤ, int_eq, Json, SseEvent}
use bailian_free_claude_code.Sse.Builder.{SseBuilder}
use bailian_free_claude_code.Sse.Builder.Emissions.{Emission, skip, and_then, close_content_blocks}
use bailian_free_claude_code.Sse.Builder.ToolArgs.{JsonCodec, estimate_output_tokens}
use bailian_free_claude_code.Sse.Contract.{Ledger, check_event, check_events, is_empty}
use bailian_free_claude_code.Sse.Transport.{
  ToolDelta, or_empty, heuristic_tool_uses, process_tool_calls,
}
use bailian_free_claude_code.Sse.Conforms.{tools_at, Conforms, Sends, calm_tools}
use bailian_free_claude_code.Sse.Conforms.Sends.{
  skip-Sends, and_then-Sends, when-Sends, unless-Sends,
}
use bailian_free_claude_code.Sse.Conforms.Texts.{
  close_content_blocks-Sends, send_thinking-Sends, send_text-Sends,
}
use bailian_free_claude_code.Sse.Builder.{new_builder, message_start}
use bailian_free_claude_code.Sse.Contract.{
  last_name, event_names, no_blocks, assert_anthropic_stream_contract,
}
use bailian_free_claude_code.Sse.Transport.{
  ContentChunk, plain, thinking, ThinkParser, ToolParser, Delta, Chunk,
}
use bailian_free_claude_code.Sse.Transport.Stream.{
  Locals, StreamEnd, exhausted, broken, report_failure, send_parts, send_reasoning, send_tool_calls,
  send_delta, send_chunk, after_round, stream_chunks, stream_response, send_text, send_thinking,
  first_locals,
}
use bailian_free_claude_code.Sse.Conforms.{after}
use bailian_free_claude_code.Sse.Conforms.Blocks.{heuristic_tool_uses-Sends}
use bailian_free_claude_code.Sse.Conforms.Processed.{process_tool_calls-Sends}
use bailian_free_claude_code.Sse.Conforms.Endings.{
  Completes, and_then-Ends, Ends, report_failure-Completes,
}
use bailian_free_claude_code.Sse.Conforms.Finish.{finish_stream-Ends}

-- A start, and what completes the stream.
closed_stream :
    (show : Json → String) (b : SseBuilder) (e : Emission)
    → Completes show no_blocks e
    → assert_anthropic_stream_contract show true (message_start b ∷ e.events) ≡ ok tt
unfolding assert_anthropic_stream_contract message_start check_events check_event last_name
closed_stream show b e done =
    by_events e.events done.ledger done.last done.runs.1 done.closed done.nonempty
  where
    by_events :
        (events : List SseEvent) (l : Ledger)
        → last_name (event_names events) ≡ some "message_stop"
        → check_events show true no_blocks events ≡ ok l
        → is_empty l.open_blocks ≡ true
        → is_empty l.seen_blocks ≡ false
        → assert_anthropic_stream_contract show true (message_start b ∷ events) ≡ ok tt
    by_events [] l last passed closed nonempty = absurd (ground (arith, last))
    by_events (x ∷ xs) l last passed closed nonempty =
        ground (arith, last, passed, closed, nonempty)

module _ (json : JsonCodec) (think : ThinkParser) (tools : ToolParser)
    (encoder : Option (String → Outcome ℕ)) (message_of : Exception → String)
    (thinking_enabled : Bool) (show : Json → String) where
  send_reasoning-Sends :
      (b : SseBuilder) (reasoning : Option String)
      → Sends
          (some json)
          show
          b
          (send_reasoning json think tools encoder message_of thinking_enabled b reasoning)
  unfolding send_reasoning
  send_reasoning-Sends b reasoning =
      when-Sends (some json) show b (thinking_enabled && truthy reasoning)
        (send_thinking b (or_empty reasoning))
        (λ on. send_thinking-Sends (some json) show b (or_empty reasoning))

  send_parts-Sends :
      (parts : List ContentChunk) (b : SseBuilder) (s : tools.State)
      → Sends
          (some json)
          show
          b
          (send_parts json think tools encoder message_of thinking_enabled b s parts).1
  unfolding send_parts
  send_parts-Sends [] b s = skip-Sends (some json) show b
  send_parts-Sends (thinking content ∷ parts) b s =
      let first = if thinking_enabled then send_thinking b content else skip b in
      and_then-Sends (some json) show b first
        (λ b1. (send_parts json think tools encoder message_of thinking_enabled b1 s parts).1)
        (when-Sends (some json) show b thinking_enabled (send_thinking b content)
          (λ on. send_thinking-Sends (some json) show b content))
        (send_parts-Sends parts first.sse s)
  send_parts-Sends (plain content ∷ parts) b s =
      let fed = tools.feed s content in
      let words = if fed.1.0 == "" then skip b else send_text b fed.1.0 in
      let first = and_then words (λ b1. heuristic_tool_uses json b1 fed.1.1) in
      and_then-Sends (some json) show b first
        (λ b1. (send_parts json think tools encoder message_of thinking_enabled b1 fed.0 parts).1)
        (and_then-Sends (some json) show b words (λ b1. heuristic_tool_uses json b1 fed.1.1)
          (unless-Sends (some json) show b (fed.1.0 == "") (send_text b fed.1.0)
            (λ on. send_text-Sends (some json) show b fed.1.0))
          (heuristic_tool_uses-Sends json (some json) show fed.1.1 words.sse))
        (send_parts-Sends parts first.sse fed.0)

  send_tool_calls-Sends :
      (b : SseBuilder) (delta : Delta)
      → Sends
          (some json)
          show
          b
          (send_tool_calls json think tools encoder message_of thinking_enabled b delta)
  unfolding send_tool_calls
  send_tool_calls-Sends b delta = by_calls delta.tool_calls
    where
      by_calls :
          (tcs : List ToolDelta)
          → Sends (some json) show b (elim tcs as (λ _. Emission) [
            | [] ↦ skip b
            | tc ∷ tcs1 ↦
                and_then (close_content_blocks b) (λ b1. process_tool_calls json b1 (tc ∷ tcs1))
          ])
      by_calls [] = skip-Sends (some json) show b
      by_calls (tc ∷ tcs1) =
          and_then-Sends (some json) show b (close_content_blocks b)
            (λ b1. process_tool_calls json b1 (tc ∷ tcs1))
            (close_content_blocks-Sends (some json) show b)
            (process_tool_calls-Sends json show (tc ∷ tcs1) (close_content_blocks b).sse)

  send_delta-Sends :
      (b : SseBuilder) (ts : think.State) (us : tools.State) (delta : Delta)
      → Sends
          (some json)
          show
          b
          (send_delta json think tools encoder message_of thinking_enabled b ts us delta).1
  unfolding send_delta
  send_delta-Sends b ts us delta =
      let fed = if truthy delta.content then think.feed ts (or_empty delta.content) else (ts, []) in
      let first =
        send_reasoning json think tools encoder message_of thinking_enabled b
          delta.reasoning_content in
      let parts =
        (send_parts json think tools encoder message_of thinking_enabled first.sse us fed.1).1 in
      let calling : SseBuilder → Emission =
        λ b2. send_tool_calls json think tools encoder message_of thinking_enabled b2 delta in
      and_then-Sends (some json) show b first
        (λ b1.
          and_then (send_parts json think tools encoder message_of thinking_enabled b1 us fed.1).1
            calling)
        (send_reasoning-Sends b delta.reasoning_content)
        (and_then-Sends (some json) show first.sse parts calling
          (send_parts-Sends fed.1 first.sse us) (send_tool_calls-Sends parts.sse delta))

  send_chunk-Sends :
      (b : SseBuilder) (v : Locals think tools) (chunk : Chunk)
      → Sends
          (some json)
          show
          b
          (send_chunk json think tools encoder message_of thinking_enabled b v chunk).1
  unfolding send_chunk
  send_chunk-Sends b v chunk = by_choice chunk.choice
    where
      by_choice :
          (choice : Option (Option Delta × Option String))
          → Sends
              (some json)
              show
              b
              (send_chunk json think tools encoder message_of thinking_enabled b v
                (record chunk { choice = choice })).1
      by_choice none = skip-Sends (some json) show b
      by_choice (some (none, finish)) = skip-Sends (some json) show b
      by_choice (some (some delta, finish)) = send_delta-Sends b v.think_state v.tool_state delta

  -- A round, and what follows it: the rest of the loop, or the report of the round's exception.
  after_round-Ends :
      (b : SseBuilder) (l : Ledger) (round : Emission) (rest : SseBuilder → Emission)
      → Sends (some json) show b round
      → Conforms (some json) b l
      → ((b1 : SseBuilder) (l1 : Ledger)
          → Conforms (some json) b1 l1
          → Ends encoder show l1 (rest b1))
      → Ends encoder show l
          (after_round json think tools encoder message_of thinking_enabled round rest)
  unfolding after_round
  after_round-Ends b l round rest sends c next =
      let (l1, passed, c1) = sends l c in by_failure round.failure l1 passed c1
    where
      by_failure :
          (failure : Option Exception) (l1 : Ledger)
          → check_events show true l round.events ≡ ok l1
          → Conforms (after (some json) failure) round.sse l1
          → Ends encoder show l (
              after_round json think tools encoder message_of thinking_enabled
                (record round { failure = failure })
                rest)
      by_failure none l1 passed c1 =
          and_then-Ends encoder show l l1 (record round { failure = none }) rest (refl, passed)
            (next round.sse l1 c1)
      by_failure (some x) l1 passed c1 =
          and_then-Ends encoder show l l1 (record round { failure = none })
            (λ b1. report_failure b1 (message_of x)) (refl, passed)
            (inl (report_failure-Completes json none show round.sse (message_of x) l1 c1))

  stream_chunks-Ends :
      (caught : (buffer : String) → json.escapes buffer ≡ none) (chunks : List Chunk)
      (b : SseBuilder) (v : Locals think tools) (ending : StreamEnd) (l : Ledger)
      → Conforms (some json) b l
      → Ends encoder show l
          (stream_chunks json think tools encoder message_of thinking_enabled b v chunks ending)
  unfolding stream_chunks
  stream_chunks-Ends caught [] b v exhausted l c =
      finish_stream-Ends json think tools encoder message_of thinking_enabled show caught b v l c
  stream_chunks-Ends caught [] b v (broken message) l c =
      inl (report_failure-Completes json (some json) show b message l c)
  stream_chunks-Ends caught (chunk ∷ chunks) b v ending l c =
      let round = send_chunk json think tools encoder message_of thinking_enabled b v chunk in
      after_round-Ends b l round.1
        (λ b1.
          stream_chunks json think tools encoder message_of thinking_enabled b1 round.0 chunks
            ending)
        (send_chunk-Sends b v chunk) c
        (λ b1 l1 c1. stream_chunks-Ends caught chunks b1 round.0 ending l1 c1)

  -- A new builder has no blocks.
  new-Conforms :
      (message_id model : String) (input_tokens : Option ℤ)
      → Conforms (some json) (new_builder message_id model input_tokens) no_blocks
  unfolding tools_at calm_tools get
  new-Conforms message_id model input_tokens = record {
    kinds = λ i. refl;
    once = λ i. ground arith;
    fresh = λ i e. refl;
    unopened = λ i e. refl;
    used = λ e. ground (arith, e);
    begun = λ e. ground (arith, e);
    calm = refl;
  }

  -- The events that the OpenAI transport yields are a stream that the Anthropic contract accepts, with
  -- its errors allowed, and the generator itself ends without an exception, whatever chunks arrive,
  -- however the provider's stream ends and whatever the parsers answer, if the request's body can be
  -- prepared, `json.loads` raises only exceptions that `flush_task_arg_buffers` catches, and the
  -- tokenizer does not raise on the texts of the builder that the stream ends with.
  pub stream_accepted :
      (message_id model : String) (input_tokens : Option ℤ) (chunks : List Chunk)
      (ending : StreamEnd) (tokens : ℕ)
      → ((buffer : String) → json.escapes buffer ≡ none)
      → estimate_output_tokens encoder
          (stream_response json think tools encoder message_of thinking_enabled message_id model
            input_tokens none chunks ending).sse
        ≡ ok tokens
      → ((stream_response json think tools encoder message_of thinking_enabled message_id model
            input_tokens none chunks ending).failure
          ≡ none)
        × (assert_anthropic_stream_contract show true
              (stream_response json think tools encoder message_of thinking_enabled message_id model
                input_tokens none chunks ending).events
            ≡ ok tt)
  unfolding stream_response message_start and_then assert_anthropic_stream_contract
  stream_accepted message_id model input_tokens chunks ending tokens caught counts =
      let b = new_builder message_id model input_tokens in
      elim (stream_chunks-Ends caught chunks b
        (first_locals json think tools encoder message_of thinking_enabled) ending no_blocks
        (new-Conforms message_id model input_tokens)) [
          | inr (x, raises) ↦ absurd (ground (arith, raises, counts))
          | inl done ↦ (
            done.runs.0,
            closed_stream show b
                (stream_chunks json think tools encoder message_of thinking_enabled b
                  (first_locals json think tools encoder message_of thinking_enabled) chunks ending)
                done,
          )
        ]
