-- ===== src/Serving/Batcher/Allocated/Kept.antt =====
-- What handling a message keeps: the cache is good, and the requests are backed by it.
use mathlib.Core.Path.{subst}
use mathlib.Core.List.{Permᴰ}
use shark_platform.Prelude.{
  ℕ, ◌+◌, ◌&&◌, sym, Option, none, some, List, [], ◌∷◌, ◌++◌, length, All, ltb, ◌==◌, Bool-cases,
  inl, inr,
}
use shark_platform.Prelude.Exec.{Exec, Error, Result, ok, err, continue, update, ◌>>=◌}
use shark_platform.Serving.Batcher.{
  CacheOps, Pending, Message, exec_request, strobe_message, Boarding, Batcher, is_prefill, launch,
  take_off_prefills, take_off_decodes, board_prefills, board_decodes, kill_left, flight,
  board_flights, add_pending, receive, handle,
}
use shark_platform.Serving.Batcher.Laws.{CacheLaws}
use shark_platform.Serving.Batcher.Allocated.{
  IsPlaced, IsBacked, Boarded, PlacedIn-later, PlacedIn-BackedIn, room_for, All-IsBacked,
  prefill_loop-Boarded, boarding_decodes-Boarded,
}

module _ {S : Type 0} {ops : CacheOps S} (laws : CacheLaws ops) where
  open laws use {IsGood, Later}

  -- Every request in a flight has an allocation with room for it, and every pending one has none or
  -- one that exists.
  pub record IsSound (s : Batcher S) : Type 0 where
    pub good : IsGood s.cache
    pub prefills : All (IsBacked laws s.cache) s.pending_prefills
    pub decodes : All (IsBacked laws s.cache) s.pending_decodes
    pub flights : All (All (IsPlaced laws s.cache)) s.flights

  All-IsPlaced :
      (c d : S) (rs : List Pending)
      → Later c d
      → All (IsPlaced laws c) rs
      → All (IsPlaced laws d) rs
  All-IsPlaced c d [] l _ = tt
  All-IsPlaced c d (r ∷ rs) l (h, hs) =
      (PlacedIn-later laws c d (room_for r) r.allocation l h, All-IsPlaced c d rs l hs)

  flights-later :
      (c d : S) (fs : List (List Pending))
      → Later c d
      → All (All (IsPlaced laws c)) fs
      → All (All (IsPlaced laws d)) fs
  flights-later c d [] l _ = tt
  flights-later c d (f ∷ fs) l (h, hs) = (All-IsPlaced c d f l h, flights-later c d fs l hs)

  -- The cache is called by others than the batcher, too.
  pub IsSound-later :
      (s : Batcher S) (c : S)
      → IsGood c
      → Later s.cache c
      → IsSound s
      → IsSound (record s { cache = c })
  IsSound-later s c g l v = record {
    good = g;
    prefills = All-IsBacked laws s.cache c s.pending_prefills l v.prefills;
    decodes = All-IsBacked laws s.cache c s.pending_decodes l v.decodes;
    flights = flights-later s.cache c s.flights l v.flights;
  }

  All-Permᴰ : (P : Pending → Type 0) {xs ys : List Pending} → Permᴰ xs ys → All P ys → All P xs
  All-Permᴰ P Permᴰ.nil h = h
  All-Permᴰ P (Permᴰ.cons e p) (h, hs) = (subst P (sym e) h, All-Permᴰ P p hs)
  All-Permᴰ P (Permᴰ.swap d e) (h, (k, hs)) = (subst P (sym d) k, (subst P (sym e) h, hs))
  All-Permᴰ P (Permᴰ.trans p q) h = All-Permᴰ P p (All-Permᴰ P q h)

  -- The pending requests stand in sets, which are gone through in any order.
  pub IsSound-reordered :
      (s : Batcher S) (prefills decodes : List Pending)
      → Permᴰ prefills s.pending_prefills
      → Permᴰ decodes s.pending_decodes
      → IsSound s
      → IsSound (record s { pending_prefills = prefills; pending_decodes = decodes })
  IsSound-reordered s prefills decodes p q v = record {
    good = v.good;
    prefills = All-Permᴰ _ p v.prefills;
    decodes = All-Permᴰ _ q v.decodes;
    flights = v.flights;
  }

  launched :
      (c : S) (rs : List Pending) (fs : List (List Pending))
      → All (IsPlaced laws c) rs
      → All (All (IsPlaced laws c)) fs
      → All (All (IsPlaced laws c)) (launch rs fs)
  launched c [] fs h k = k
  launched c (r ∷ rs) fs h k = (h, k)

  put_back :
      (c : S) (rs left : List Pending)
      → All (IsPlaced laws c) rs
      → All (IsBacked laws c) left
      → All (IsBacked laws c) (rs ++ left)
  put_back c [] left _ k = k
  put_back c (r ∷ rs) left (h, hs) k =
      (PlacedIn-BackedIn laws c (room_for r) r.allocation h, put_back c rs left hs k)

  module _ (s : Batcher S) (b : Boarding S) (v : IsSound s) (w : Boarded laws s.cache b) where
    moved : IsSound (record s { cache = b.cache })
    moved = IsSound-later s b.cache w.good w.later v

    -- What the batcher is when a flight is launched, or when its requests are put back.
    prefills_gone : IsSound (record s {
      cache = b.cache;
      pending_prefills = b.left;
      flights = launch b.boarded s.flights;
    })
    prefills_gone = record {
      good = w.good;
      prefills = w.backed;
      decodes = moved.decodes;
      flights = launched b.cache b.boarded s.flights w.placed moved.flights;
    }

    prefills_back : IsSound (record s { cache = b.cache; pending_prefills = b.boarded ++ b.left })
    prefills_back = record {
      good = w.good;
      prefills = put_back b.cache b.boarded b.left w.placed w.backed;
      decodes = moved.decodes;
      flights = moved.flights;
    }

    decodes_gone : IsSound (record s {
      cache = b.cache;
      pending_decodes = b.left;
      flights = launch b.boarded s.flights;
    })
    decodes_gone = record {
      good = w.good;
      prefills = moved.prefills;
      decodes = w.backed;
      flights = launched b.cache b.boarded s.flights w.placed moved.flights;
    }

    decodes_back : IsSound (record s { cache = b.cache; pending_decodes = b.boarded ++ b.left })
    decodes_back = record {
      good = w.good;
      prefills = moved.prefills;
      decodes = put_back b.cache b.boarded b.left w.placed w.backed;
      flights = moved.flights;
    }

  module _ (s : Batcher S) (b : Boarding S) (v : IsSound s) (w : Boarded laws s.cache b) where
    take_off_prefills-IsSound : IsSound (take_off_prefills b s).1
    unfolding take_off_prefills
    take_off_prefills-IsSound = taken b.failure
      where
        taken : (o : Option Error) → IsSound (take_off_prefills (record b { failure = o }) s).1
        taken none = prefills_gone s b v w
        taken (some x) = prefills_back s b v w

    take_off_decodes-IsSound : IsSound (take_off_decodes b s).1
    unfolding take_off_decodes
    take_off_decodes-IsSound = taken b.failure
      where
        taken : (o : Option Error) → IsSound (take_off_decodes (record b { failure = o }) s).1
        taken none = decodes_gone s b v w
        taken (some x) = decodes_back s b v w

  abbrev Keeps : {A : Type 0} → Exec (Batcher S) A → Type 0
  Keeps run = (s : Batcher S) → IsSound s → IsSound (run s).1

  continue-Keeps :
      {A B : Type 0} (r : Result A) (rest : A → Exec (Batcher S) B) (t : Batcher S)
      → IsSound t
      → ((a : A) → Keeps (rest a))
      → IsSound (continue r rest t).1
  continue-Keeps (ok a) rest t v k = k a t v
  continue-Keeps (err e) rest t v k = v

  Keeps-bind :
      {A B : Type 0} (first : Exec (Batcher S) A) (rest : A → Exec (Batcher S) B)
      → Keeps first
      → ((a : A) → Keeps (rest a))
      → Keeps (first >>= rest)
  unfolding ◌>>=◌
  Keeps-bind first rest h k s v = continue-Keeps (first s).0 rest (first s).1 (h s v) k

  module _ (ideal : ℕ) where
    board_prefills-Keeps : Keeps (board_prefills ops ideal)
    unfolding board_prefills
    board_prefills-Keeps s v =
        take_off_prefills-IsSound s _ v
          (prefill_loop-Boarded laws ideal s.pending_prefills s.cache v.good v.prefills)

    board_decodes-Keeps : Keeps (board_decodes ops ideal)
    unfolding board_decodes
    board_decodes-Keeps s v =
        take_off_decodes-IsSound s _ v
          (boarding_decodes-Boarded laws ideal s.pending_decodes s.cache v.good v.decodes)

    flight-Keeps : Keeps (flight ops ideal)
    unfolding flight
    flight-Keeps s v =
        Keeps-bind (board_prefills ops ideal) _ board_prefills-Keeps
          (λ u.
            Keeps-bind (board_decodes ops ideal) (λ w. update kill_left) board_decodes-Keeps
              λ u t w. record {
                good = w.good;
                prefills = tt;
                decodes = w.decodes;
                flights = w.flights;
              })
          (record s { strobes = 0 })
          (record {
            good = v.good;
            prefills = v.prefills;
            decodes = v.decodes;
            flights = v.flights;
          })

    pub board_flights-Keeps : Keeps (board_flights ops ideal)
    unfolding board_flights
    board_flights-Keeps s v =
        let waiting : ℕ = length s.pending_prefills + length s.pending_decodes in
        elim (Bool-cases (waiting == 0)) [
          | inl h ↦ rw h v
          | inr h ↦ elim (Bool-cases (ltb waiting ideal && ltb s.strobes 2)) [
            | inl k ↦ rw (h, k) v
            | inr k ↦ rw (h, k) (flight-Keeps s v)
          ]
        ]

    -- The allocation of a request that arrives exists, if it has one.
    abbrev pub IsWelcome : Batcher S → Message → Type 0
    IsWelcome s strobe_message = Unit
    IsWelcome s (exec_request r) = IsBacked laws s.cache r

    All-add_pending :
        (c : S) (r : Pending) (rs : List Pending)
        → IsBacked laws c r
        → All (IsBacked laws c) rs
        → All (IsBacked laws c) (add_pending r rs)
    All-add_pending c r [] h _ = (h, tt)
    All-add_pending c r (x ∷ xs) h (k, ks) = elim (Bool-cases (x.rid == r.rid)) [
      | inl e ↦ rw e (k, ks)
      | inr e ↦ rw e (k, All-add_pending c r xs h ks)
    ]

    pub receive-IsSound :
        (m : Message) (s : Batcher S) → IsWelcome s m → IsSound s → IsSound (receive m s)
    unfolding receive
    receive-IsSound strobe_message s _ v = record {
      good = v.good;
      prefills = v.prefills;
      decodes = v.decodes;
      flights = v.flights;
    }
    receive-IsSound (exec_request r) s h v = elim (Bool-cases (is_prefill r.phase)) [
      | inl e ↦ rw e (record {
        good = v.good;
        prefills = All-add_pending s.cache r s.pending_prefills h v.prefills;
        decodes = v.decodes;
        flights = v.flights;
      })
      | inr e ↦ rw e (record {
        good = v.good;
        prefills = v.prefills;
        decodes = All-add_pending s.cache r s.pending_decodes h v.decodes;
        flights = v.flights;
      })
    ]

    -- Whether it returns or raises, the handling of a message whose request has no allocation, or one
    -- that exists, keeps the cache good, gives every request in a flight an allocation with room for
    -- it, and leaves no pending request with an allocation that does not exist.
    pub handle-IsSound :
        (m : Message) (s : Batcher S) → IsWelcome s m → IsSound s → IsSound (handle ops ideal m s).1
    unfolding handle
    handle-IsSound m s h v = board_flights-Keeps (receive m s) (receive-IsSound m s h v)
