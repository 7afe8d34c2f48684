-- ===== src/Sse.antt =====
-- core/anthropic/sse.py, core/anthropic/stream_contracts.py and the stream of
-- providers/openai_compat.py: Anthropic events are built, checked and emitted.
pub mod Json
pub mod Strings
pub mod Builder
pub mod Contract
pub mod Transport
pub mod Conforms
pub mod Tracker
pub mod Think
pub mod Native
mod Tests
