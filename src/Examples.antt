-- ===== src/Examples.antt =====
-- Concrete inputs of the theorems, and tests of the definitions.
mod Pages
mod Trie
mod Findings
mod Serving
mod Batcher
mod Sd
mod Tuner
mod Ranking
mod TrieServing
mod TrieExecutor
mod BaseServing
mod Executor
mod Responder
mod Client
mod Types
mod Ops
mod Utils
