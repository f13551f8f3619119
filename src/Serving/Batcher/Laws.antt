-- ===== src/Serving/Batcher/Laws.antt =====
-- What the batcher relies on in a cache. `HasRoom c a n` says that the allocation `a` exists and that
-- its pages have room for `n` tokens; `Later c d`, that `d` comes from `c` by calls of the cache.
use shark_platform.Prelude.{ℕ, ◌≤◌, ◌≡◌, List, length}
use shark_platform.Prelude.Exec.{ok}
use shark_platform.Serving.Batcher.{CacheOps}

pub record CacheLaws {S : Type 0} (ops : CacheOps S) : Type 1 where
  pub IsGood : S → Type 0
  pub HasRoom : S → ℕ → ℕ → Type 0
  pub Later : S → S → Type 0
  pub later_refl : (c : S) → Later c c
  pub later_trans : (c d e : S) → Later c d → Later d e → Later c e
  pub later_room : (c d : S) (a n : ℕ) → Later c d → HasRoom c a n → HasRoom d a n
  pub less_room : (c : S) (a m n : ℕ) → m ≤ n → HasRoom c a n → HasRoom c a m
  pub acquire_good :
      (tokens : List ℕ) (extra : ℕ) (c : S)
      → IsGood c
      → let d = (ops.acquire_pages_for_tokens tokens extra c).1 in IsGood d × Later c d
  pub acquire_room :
      (tokens : List ℕ) (extra : ℕ) (c : S) (a : ℕ)
      → IsGood c
      → (ops.acquire_pages_for_tokens tokens extra c).0 ≡ ok a
      → HasRoom (ops.acquire_pages_for_tokens tokens extra c).1 a (length tokens)
  pub extend_good :
      (a : ℕ) (tokens : List ℕ) (extra : ℕ) (c : S)
      → IsGood c
      → HasRoom c a 0
      → let d = (ops.extend_allocation a tokens extra c).1 in IsGood d × Later c d
  pub release_good :
      (a : ℕ) (c : S) → IsGood c → let d = ops.release_pages a c in IsGood d × Later c d
