-- ===== src/Protocol.antt =====
-- src/rbprotocol.h, src/rbprotocol.cpp: the class `Protocol`, one child module for each group of
-- its methods.
pub mod State
pub mod Send
pub mod Handle
pub mod Tasks
pub mod Invariant
