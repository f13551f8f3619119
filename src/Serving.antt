-- ===== src/Serving.antt =====
-- shortfin/python/shortfin_apps/llm/components: the execution of batches of inference requests.
pub mod Requests
pub mod Executor
pub mod Batcher
pub mod Generate
pub mod TrieServing
pub mod TrieExecutor
pub mod BaseServing
pub mod Responder
pub mod Client
