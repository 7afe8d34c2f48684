-- ===== src/Lib.antt =====
-- A model of bailian-free-claude-code, a proxy that serves Anthropic messages from other providers and
-- drives chat conversations with a coding agent, and the properties that make its core correct.
--
-- Parts and files:
--   Base           shared notation: Boolean tests on native numbers, equality as an instance, lists,
--                  Python's dict as an association list in insertion order, exceptions as values.
--   RateLimit      core/rate_limit.py, `StrictSlidingWindowLimiter`. Times are numbers of ticks; an
--                  attempt is one round of the loop of `acquire`, made atomic by the lock.
--   Sse            core/anthropic/sse.py (Sse/Builder: `SSEBuilder` and `ContentBlockManager`),
--                  core/anthropic/stream_contracts.py (Sse/Contract:
--                  `assert_anthropic_stream_contract`) and providers/openai_compat.py (Sse/Transport:
--                  `_process_tool_call` and `_stream_response_impl`). A generator is an `Emission`:
--                  the builder afterwards, the events yielded and the exception that ended it.
--                  Sse/Conforms relates a builder to the ledger of the contract's loop.
--                  Sse/Native is core/anthropic/native_sse_block_policy.py
--                  (`transform_native_sse_block_event`), Sse/Tracker
--                  core/anthropic/emitted_sse_tracker.py (`EmittedNativeSseTracker`), both from the
--                  parsed events on, and Sse/Think core/anthropic/thinking.py (`ThinkTagParser`).
--                  Sse/Json has the JSON values, and Sse/Json/Typed what is read from them.
--   Providers      providers/rate_limit.py (Limiter: `GlobalRateLimiter`, on top of RateLimit) and
--                  providers/bailian/model_state.py (Bailian: `BailianModelState`).
--   Cli            cli/manager.py, `CLISessionManager`; a session is a number.
--   Messaging      messaging/limiter.py, `MessagingRateLimiter`: its queue, in which tasks of one key are
--                  compacted, and the rounds of its worker. A task and a future are numbers.
--   Keys           the keys of a dict, none of which stands twice.
--   Trees          messaging/trees/data.py (Queue: `_SnapshotQueue`; Node: `MessageNode`; Tree:
--                  `MessageTree`; Descend: `get_descendants`, `remove_branch`) and
--                  messaging/trees/queue_manager.py (Repository: `TreeRepository`; Processor:
--                  `TreeQueueProcessor`; Cancel and Manager: `TreeQueueManager`). Processor/Run is the
--                  step relation of the tasks of one tree with the callers that enqueue. Saved has
--                  `to_dict` and `from_dict` of nodes, trees and the repository.
--
-- How they interact: the manager looks a tree up in the repository, and the processor starts one task
-- for one node of the tree at a time; a task starts the next node of the tree's queue, awaits the
-- callbacks for it and ends. The transport draws all its events from one builder, and the contract
-- reads these events back. Native events pass the policy instead, the tracker observes what was sent,
-- and the same contract reads it.
-- A provider's calls go through the limiter, which acquires its slots from the sliding window.
--
-- Fuel: `get_descendants` and `get_pending_children` loop over a stack and take fuel; `none` is a loop
-- that has not ended. For `get_descendants` enough fuel exists in every well-formed tree. `feed` has
-- one unit more than its buffer has characters, and the caller of the provider's limiter makes two
-- passes for a slot, since it is alone.
--
-- Parameters: `json` (Sse/Builder/ToolArgs, `JsonCodec`), `str` of values that are no strings, the
-- tokenizer, which may raise, drawn uuids, the exception that preparing a request may raise, the
-- provider's chunks, and the parsers of thinking tags and of tools in the text, which the transport
-- uses through an interface. An event loop's answer whether a task is done is a function, and so are the call that the limiter retries, its duration and the random jitters,
-- `datetime.isoformat` and its inverse, and `json.dump` and `json.load` of the model state.
--
-- Not modelled: logging, what callbacks do, file and network I/O, chat platforms, rendering, HTTP
-- routes, settings, and a consumer that cancels the stream. The text format of the events, the
-- semaphore of the provider limiter, the pause and the shutdown of the messaging limiter, the parser of tools in the
-- text, the conversion of messages and the session store are left for later.
pub mod Base
pub mod Cli
pub mod Keys
pub mod Messaging
pub mod Providers
pub mod RateLimit
pub mod Sse
pub mod Trees
