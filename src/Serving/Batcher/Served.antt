-- ===== src/Serving/Batcher/Served.antt =====
-- What a request of a launched flight has, over any cache that keeps the laws.
use shark_platform.Prelude.{ℕ, ◌≡◌, refl, Option, none, some, List, [], ◌∷◌, All}
use shark_platform.Serving.Batcher.{CacheOps, Pending}
use shark_platform.Serving.Batcher.Laws.{CacheLaws}
use shark_platform.Serving.Batcher.Allocated.{room_for, PlacedIn, IsPlaced}

module _ {S : Type 0} {ops : CacheOps S} (laws : CacheLaws ops) where
  -- The request has an allocation, which has room for the tokens if it is a prefill.
  abbrev pub IsServed : S → Pending → Type 0
  IsServed c r = (a : ℕ) × (r.allocation ≡ some a) × laws.HasRoom c a (room_for r)

  IsPlaced-IsServed : (c : S) (r : Pending) → IsPlaced laws c r → IsServed c r
  IsPlaced-IsServed c r h = served r.allocation refl h
    where
      served : (o : Option ℕ) → r.allocation ≡ o → PlacedIn laws c (room_for r) o → IsServed c r
      served none e h = absurd h
      served (some a) e h = (a, e, h)

  All-IsServed : (c : S) (rs : List Pending) → All (IsPlaced laws c) rs → All (IsServed c) rs
  All-IsServed c [] _ = tt
  All-IsServed c (r ∷ rs) (h, hs) = (IsPlaced-IsServed c r h, All-IsServed c rs hs)

  pub flights-IsServed :
      (c : S) (fs : List (List Pending))
      → All (All (IsPlaced laws c)) fs
      → All (All (IsServed c)) fs
  flights-IsServed c [] _ = tt
  flights-IsServed c (f ∷ fs) (h, hs) = (All-IsServed c f h, flights-IsServed c fs hs)
