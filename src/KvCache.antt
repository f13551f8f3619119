-- ===== src/KvCache.antt =====
-- shortfin/python/shortfin_apps/llm/components/kvcache: the pool of key-value cache pages, the
-- cache without sharing and the cache that shares prefixes through a trie.
pub mod PagePool
pub mod BaseCache
pub mod TrieNode
pub mod Trie
pub mod TrieEviction
pub mod TrieMethods
