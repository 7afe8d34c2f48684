-- ===== src/Sse/Conforms/Texts.antt =====
-- core/anthropic/sse.py and providers/openai_compat.py: texts, thoughts and whole blocks that are sent
-- pass the contract's loop.
use bailian_free_claude_code.Base.{
  String, ◌≡◌, refl, true, false, Option, arith, if◌then◌else◌, nat_eq, string_eq,
}
use bailian_free_claude_code.Sse.Json.{int_eq, int_beq_iff, Json}
use bailian_free_claude_code.Sse.Builder.{SseBuilder, content_block_delta}
use bailian_free_claude_code.Sse.Builder.Emissions.{
  skip, and_then, start_thinking_block, emit_thinking_delta, stop_thinking_block, start_text_block,
  emit_text_delta, stop_text_block, ensure_thinking_block, ensure_text_block, close_content_blocks,
}
use bailian_free_claude_code.Sse.Builder.ToolArgs.{JsonCodec}
use bailian_free_claude_code.Sse.Contract.Steps
use bailian_free_claude_code.Sse.Transport.Stream.{send_thinking, send_text}
use bailian_free_claude_code.Sse.Conforms.{Sends}
use bailian_free_claude_code.Sse.Conforms.Sends.{
  and_then-Sends, yielded-Sends, start_thinking_block-Sends, start_text_block-Sends,
  stop_thinking_block-Sends, stop_text_block-Sends, when-Sends, unless-Sends,
}

module _ (watch : Option JsonCodec) (show : Json → String) where
  pub ensure_thinking_block-Sends : (b : SseBuilder) → Sends watch show b (ensure_thinking_block b)
  unfolding ensure_thinking_block stop_text_block
  ensure_thinking_block-Sends b =
      let first = if b.text_started then stop_text_block b else skip b in
      and_then-Sends watch show b first
        (λ b1. if b1.thinking_started then skip b1 else start_thinking_block b1)
        (when-Sends watch show b b.text_started (stop_text_block b)
          (stop_text_block-Sends watch show b))
        (unless-Sends watch show first.sse first.sse.thinking_started
          (start_thinking_block first.sse)
          (λ off. start_thinking_block-Sends watch show first.sse off (ground arith)))

  pub ensure_text_block-Sends : (b : SseBuilder) → Sends watch show b (ensure_text_block b)
  unfolding ensure_text_block stop_thinking_block
  ensure_text_block-Sends b =
      let first = if b.thinking_started then stop_thinking_block b else skip b in
      and_then-Sends watch show b first
        (λ b1. if b1.text_started then skip b1 else start_text_block b1)
        (when-Sends watch show b b.thinking_started (stop_thinking_block b)
          (stop_thinking_block-Sends watch show b))
        (unless-Sends watch show first.sse first.sse.text_started (start_text_block first.sse)
          (λ off. start_text_block-Sends watch show first.sse (ground arith) off))

  pub close_content_blocks-Sends : (b : SseBuilder) → Sends watch show b (close_content_blocks b)
  unfolding close_content_blocks stop_thinking_block
  close_content_blocks-Sends b =
      let first = if b.thinking_started then stop_thinking_block b else skip b in
      and_then-Sends watch show b first
        (λ b1. if b1.text_started then stop_text_block b1 else skip b1)
        (when-Sends watch show b b.thinking_started (stop_thinking_block b)
          (stop_thinking_block-Sends watch show b))
        (when-Sends watch show first.sse first.sse.text_started (stop_text_block first.sse)
          (stop_text_block-Sends watch show first.sse))

  emit_thinking_delta-Sends :
      (b : SseBuilder) (content : String)
      → b.thinking_started ≡ true
      → Sends watch show b (emit_thinking_delta b content)
  unfolding emit_thinking_delta
  emit_thinking_delta-Sends b content on =
      let n = b.thinking_index in
      yielded-Sends watch show b (emit_thinking_delta b content).sse
        (content_block_delta n "thinking_delta" content)
        (λ l c. (
          l,
          Steps.check-thinking_delta show l n content
              (ground (arith, c.kinds n, on, (int_beq_iff n n).1 refl)),
          record {
            kinds = c.kinds;
            once = c.once;
            fresh = c.fresh;
            unopened = c.unopened;
            used = c.used;
            begun = c.begun;
            calm = c.calm;
          },
        ))

  emit_text_delta-Sends :
      (b : SseBuilder) (content : String)
      → b.thinking_started ≡ false
      → b.text_started ≡ true
      → Sends watch show b (emit_text_delta b content)
  unfolding emit_text_delta
  emit_text_delta-Sends b content off on =
      let n = b.text_index in
      yielded-Sends watch show b (emit_text_delta b content).sse
        (content_block_delta n "text_delta" content)
        (λ l c. (
          l,
          Steps.check-text_delta show l n content
              (ground (arith, c.kinds n, off, on, (int_beq_iff n n).1 refl)),
          record {
            kinds = c.kinds;
            once = c.once;
            fresh = c.fresh;
            unopened = c.unopened;
            used = c.used;
            begun = c.begun;
            calm = c.calm;
          },
        ))

  thinking_ensured : (b : SseBuilder) → (ensure_thinking_block b).sse.thinking_started ≡ true
  unfolding ensure_thinking_block and_then start_thinking_block stop_text_block
  thinking_ensured b = ground arith

  pub text_ensured :
      (b : SseBuilder)
      → ((ensure_text_block b).sse.text_started ≡ true)
        × ((ensure_text_block b).sse.thinking_started ≡ false)
  unfolding ensure_text_block and_then start_text_block stop_thinking_block
  text_ensured b = (ground arith, ground arith)

  pub send_thinking-Sends :
      (b : SseBuilder) (content : String) → Sends watch show b (send_thinking b content)
  unfolding send_thinking
  send_thinking-Sends b content =
      and_then-Sends watch show b (ensure_thinking_block b) (λ b1. emit_thinking_delta b1 content)
        (ensure_thinking_block-Sends b)
        (emit_thinking_delta-Sends (ensure_thinking_block b).sse content (thinking_ensured b))

  pub send_text-Sends :
      (b : SseBuilder) (content : String) → Sends watch show b (send_text b content)
  unfolding send_text
  send_text-Sends b content =
      and_then-Sends watch show b (ensure_text_block b) (λ b1. emit_text_delta b1 content)
        (ensure_text_block-Sends b)
        (emit_text_delta-Sends (ensure_text_block b).sse content (text_ensured b).1
          (text_ensured b).0)
