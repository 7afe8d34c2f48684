-- ===== src/Trees.antt =====
-- messaging/trees/: the message trees of a chat, their queues, the index over all trees and the
-- manager that processes one node of a tree at a time.
pub mod Queue
pub mod Node
pub mod Saved
pub mod Tree
pub mod Descend
pub mod Processor
pub mod Repository
pub mod Cancel
pub mod Manager
mod Tests
