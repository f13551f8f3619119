-- ===== src/Serving/TrieExecutor.antt =====
-- The executor of service.py over the trie cache: it publishes the pages of its requests, and releases
-- them where it fails.
use shark_platform.Prelude.{
  ℕ, ◌/◌, ◌≤◌, ◌≡◌, ◌≢◌, ap, false, Option, none, some, List, [], ◌∷◌, length, All,
}
use shark_platform.Prelude.Exec.{Exec, Result, ok, err, continue, ◌>>=◌}
use shark_platform.KvCache.Trie.{Runtime, TrieCache}
use shark_platform.KvCache.TrieMethods.{alloc_at, publish_pages_for_tokens, release_pages}
use shark_platform.KvCache.TrieMethods.Invariant.{Inv}
use shark_platform.KvCache.TrieMethods.Edits.{Apart, publish_pages-Apart}
use shark_platform.KvCache.TrieMethods.Release.{release-Inv}
use shark_platform.KvCache.TrieMethods.Publish.{publish_pages-Inv}
use shark_platform.Serving.Requests.{InferencePhase}
use shark_platform.Serving.Executor.{ExecArgs}
use shark_platform.Serving.Executor.Run.{
  ExecObject, ExecOps, publish_allocated_pages, publish_all, invoke_and_publish, run,
}
use shark_platform.Serving.Executor.Run.Kept.{run_kept}

-- The device's part of the operations, over this cache.
abbrev pub over_trie : {L A : Type 0} → Runtime → ExecOps TrieCache L A → ExecOps TrieCache L A
over_trie rt device = record device {
  pages = λ a c. (alloc_at c a).pages;
  publish_pages_for_tokens = λ a tokens. publish_pages_for_tokens rt a tokens false;
  release_pages = release_pages;
}

-- An allocation that can be published for some tokens: it is not released, and no more of its pages are
-- published than the tokens fill.
abbrev pub IsPublishable : TrieCache → List ℕ → ℕ → Type 0
IsPublishable c tokens a =
    ((alloc_at c a).is_released ≡ false)
    × ((alloc_at c a).number_of_published_pages ≤ length tokens / c.tokens_per_page)

abbrev pub IfAllocated : (ℕ → Type 0) → Option ℕ → Type 0
IfAllocated P none = Unit
IfAllocated P (some a) = P a

-- The allocations of a batch can be published, and each has one request.
abbrev pub AreReady : {A : Type 0} → TrieCache → List (ExecObject A) → Type 0
AreReady c [] = Unit
AreReady c (r ∷ rs) =
    IfAllocated (λ a. IsPublishable c r.input_token_ids a × All (λ q. q.allocation ≢ some a) rs)
      r.allocation
    × AreReady c rs

module _ {L A : Type 0} (rt : Runtime) (device : ExecOps TrieCache L A) where
  Apart-AreReady :
      (a : ℕ) (c d : TrieCache) (rs : List (ExecObject A))
      → Apart a c d
      → All (λ q. q.allocation ≢ some a) rs
      → AreReady c rs
      → AreReady d rs
  Apart-AreReady a c d [] p h v = tt
  Apart-AreReady a c d (r ∷ rs) p (h, hs) (v, vs) =
      (still r.allocation h v, Apart-AreReady a c d rs p hs vs)
    where
      still :
          (o : Option ℕ)
          → o ≢ some a
          → IfAllocated
              (λ b. IsPublishable c r.input_token_ids b × All (λ q. q.allocation ≢ some b) rs)
              o
          → IfAllocated
              (λ b. IsPublishable d r.input_token_ids b × All (λ q. q.allocation ≢ some b) rs)
              o
      still none k w = tt
      still (some b) k (w, u) = (rw (p.others b (λ e. k (ap some e)), p.page_size) w, u)

  publish_allocated :
      (o : Option ℕ) (ids : List ℕ) (rs : List (ExecObject A)) (c : TrieCache)
      → Inv c
      → IfAllocated (λ a. IsPublishable c ids a × All (λ q. q.allocation ≢ some a) rs) o
      → AreReady c rs
      → let d = (publish_allocated_pages (over_trie rt device) o ids c).1 in Inv d × AreReady d rs
  publish_allocated none ids rs c v _ hs = (v, hs)
  publish_allocated (some a) ids rs c v ((live, later), apart) hs = (
    publish_pages-Inv rt a ids false c v live later,
    Apart-AreReady a c _ rs (publish_pages-Apart rt a ids false c) apart hs,
  )

  continue_kept :
      {B C : Type 0} (m : Result B) (rest : B → Exec TrieCache C) (c : TrieCache)
      → Inv c
      → ((b : B) → Inv (rest b c).1)
      → Inv (continue m rest c).1
  continue_kept (ok b) rest c v h = h b
  continue_kept (err e) rest c v h = v

  publish_all-Inv :
      (rs : List (ExecObject A)) (c : TrieCache)
      → Inv c
      → AreReady c rs
      → Inv (publish_all (over_trie rt device) rs c).1
  unfolding publish_all ◌>>=◌
  publish_all-Inv [] c v _ = v
  publish_all-Inv (r ∷ rs) c v (h, hs) =
      let (u, us) = publish_allocated r.allocation r.input_token_ids rs c v h hs in
      continue_kept _ (λ _. publish_all (over_trie rt device) rs) _ u
        (λ _. publish_all-Inv rs _ u us)

  -- Other processes call the cache while the executor awaits the device. They keep the invariant, as
  -- `TrieServing` shows of them, and leave the allocations of the batch alone.
  pub record IsConsiderate (phase : InferencePhase) (rs : List (ExecObject A)) : Type 0 where
    pub invoked :
        (args : ExecArgs) (c : TrieCache)
        → Inv c
        → AreReady c rs
        → let d = (device.invoke phase args c).1 in Inv d × AreReady d rs
    pub transferred : (x : A) (c : TrieCache) → Inv c → Inv (device.transfer x c).1

  invoke_and_publish-Inv :
      (phase : InferencePhase) (args : ExecArgs) (rs : List (ExecObject A)) (c : TrieCache)
      → IsConsiderate phase rs
      → Inv c
      → AreReady c rs
      → Inv (invoke_and_publish (over_trie rt device) phase args rs c).1
  unfolding invoke_and_publish ◌>>=◌
  invoke_and_publish-Inv phase args rs c w v h =
      let (u, us) = w.invoked args c v h in
      let d : TrieCache = (device.invoke phase args c).1 in
      let published = publish_all-Inv rs d u us in
      continue_kept (device.invoke phase args c).0 _ d u (λ l.
        continue_kept (publish_all (over_trie rt device) rs d).0 _ _ published (λ _. published))

  -- Where the allocations of a batch can be published, and other processes keep the invariant and leave
  -- these allocations alone, an executor keeps the invariant of the trie cache, whether it answers its
  -- requests or gives them up.
  pub run-Inv :
      (phase : InferencePhase) (seq_stride : ℕ) (entrypoints : List ℕ) (rs : List (ExecObject A))
      (c : TrieCache)
      → IsConsiderate phase rs
      → Inv c
      → AreReady c rs
      → Inv (run (over_trie rt device) phase seq_stride entrypoints rs c).1
  run-Inv phase seq_stride entrypoints rs c w v h =
      run_kept (over_trie rt device) Inv (λ a d u. release-Inv a d u) w.transferred phase seq_stride
        entrypoints rs c v (λ args. invoke_and_publish-Inv phase args rs c w v h)
