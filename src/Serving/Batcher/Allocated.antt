-- ===== src/Serving/Batcher/Allocated.antt =====
-- The batcher over a cache that keeps its laws: the requests of every flight have allocations that
-- exist, those of prefills with room for their tokens, and the cache stays good.
pub mod Kept
use shark_platform.Prelude.{
  ℕ, zero, suc, ◌+◌, ◌≤◌, ◌≡◌, refl, true, false, Option, none, some, List, [], ◌∷◌, ◌++◌, arith,
  length, All, if◌then◌else◌, Bool-cases, Option-cases, inl, inr,
}
use shark_platform.Prelude.Exec.{Error, Result, ok, err}
use shark_platform.Serving.Batcher.{
  CacheOps, Pending, Boarding, halt, keep, board, is_prefill, is_cache_failure, free_cache_pages,
  prefill_one, prefill_loop, decode_one, extend_one, boarding_decodes,
}
use shark_platform.Serving.Batcher.Laws.{CacheLaws}

-- The tokens for which a flight needs room: a decode has been given room by `extend_allocation`.
abbrev pub room_for : Pending → ℕ
room_for r = if is_prefill r.phase then length r.input_token_ids else 0

module _ {S : Type 0} {ops : CacheOps S} (laws : CacheLaws ops) where
  open laws use {
    IsGood, HasRoom, Later, later_refl, later_trans, later_room, less_room, acquire_good,
    acquire_room, extend_good, release_good,
  }

  abbrev pub PlacedIn : S → ℕ → Option ℕ → Type 0
  PlacedIn c n none = ⊥
  PlacedIn c n (some a) = HasRoom c a n

  abbrev pub BackedIn : S → Option ℕ → Type 0
  BackedIn c none = Unit
  BackedIn c (some a) = HasRoom c a 0

  -- A request that can fly, and one whose allocation exists if it has one.
  abbrev pub IsPlaced : S → Pending → Type 0
  IsPlaced c r = PlacedIn c (room_for r) r.allocation

  abbrev pub IsBacked : S → Pending → Type 0
  IsBacked c r = BackedIn c r.allocation

  pub PlacedIn-later :
      (c d : S) (n : ℕ) (o : Option ℕ) → Later c d → PlacedIn c n o → PlacedIn d n o
  PlacedIn-later c d n none l h = h
  PlacedIn-later c d n (some a) l h = later_room c d a n l h

  pub BackedIn-later : (c d : S) (o : Option ℕ) → Later c d → BackedIn c o → BackedIn d o
  BackedIn-later c d none l h = tt
  BackedIn-later c d (some a) l h = later_room c d a 0 l h

  pub PlacedIn-BackedIn : (c : S) (n : ℕ) (o : Option ℕ) → PlacedIn c n o → BackedIn c o
  PlacedIn-BackedIn c n none h = tt
  PlacedIn-BackedIn c n (some a) h = less_room c a 0 n (omega arith) h

  pub All-IsBacked :
      (c d : S) (rs : List Pending) → Later c d → All (IsBacked c) rs → All (IsBacked d) rs
  All-IsBacked c d [] l _ = tt
  All-IsBacked c d (r ∷ rs) l (h, hs) =
      (BackedIn-later c d r.allocation l h, All-IsBacked c d rs l hs)

  pub record Boarded (c : S) (b : Boarding S) : Type 0 where
    pub good : IsGood b.cache
    pub later : Later c b.cache
    pub placed : All (IsPlaced b.cache) b.boarded
    pub backed : All (IsBacked b.cache) b.left

  Boarded-halt :
      (c d : S) (rs : List Pending) (e : Option Error)
      → IsGood d
      → Later c d
      → All (IsBacked c) rs
      → Boarded c (halt rs d e)
  Boarded-halt c d rs e g l h = record {
    good = g;
    later = l;
    placed = tt;
    backed = All-IsBacked c d rs l h;
  }

  Boarded-from : (c d : S) (b : Boarding S) → Later c d → Boarded d b → Boarded c b
  Boarded-from c d b l v = record {
    good = v.good;
    later = later_trans c d b.cache l v.later;
    placed = v.placed;
    backed = v.backed;
  }

  Boarded-board :
      (c d : S) (now : Pending) (b : Boarding S)
      → Later c d
      → IsPlaced d now
      → Boarded d b
      → Boarded c (board now b)
  Boarded-board c d now b l p v = record {
    good = v.good;
    later = later_trans c d b.cache l v.later;
    placed = (PlacedIn-later d b.cache (room_for now) now.allocation v.later p, v.placed);
    backed = v.backed;
  }

  Boarded-keep :
      (c d : S) (r : Pending) (b : Boarding S)
      → Later c d
      → IsBacked c r
      → Boarded d b
      → Boarded c (keep r b)
  Boarded-keep c d r b l h v =
      let later = later_trans c d b.cache l v.later in
      record {
        good = v.good;
        later = later;
        placed = v.placed;
        backed = (BackedIn-later c b.cache r.allocation later h, v.backed);
      }

  free_cache_pages-good :
      (r : Pending) (c : S)
      → IsGood c
      → IsGood (free_cache_pages ops r c) × Later c (free_cache_pages ops r c)
  free_cache_pages-good r c g = elim (Option-cases r.allocation) [
    | inl e ↦ rw e (g, later_refl c)
    | inr (a, e) ↦ rw e (release_good a c g)
  ]

  room_for-le : (r : Pending) → room_for r ≤ length r.input_token_ids
  room_for-le r = ground arith

  -- One prefill, where the acquisition has led from `c` to `got`.
  Boarded-prefill_one :
      (r : Pending) (rs : List Pending) (c : S) (got : Result ℕ × S) (again onward : S → Boarding S)
      → is_prefill r.phase ≡ true
      → IsGood got.1 × Later c got.1
      → ((a : ℕ) → got.0 ≡ ok a → HasRoom got.1 a (length r.input_token_ids))
      → All (IsBacked c) (r ∷ rs)
      → ((d : S) → IsGood d → All (IsBacked d) rs → Boarded d (again d))
      → ((d : S) → IsGood d → All (IsBacked d) rs → Boarded d (onward d))
      → Boarded c (prefill_one ops r rs got again onward)
  unfolding prefill_one
  Boarded-prefill_one r rs c (ok a, d) again onward h (g, l) room (hr, hs) u v =
      let (g', l') = free_cache_pages-good r d g in
      let freed = free_cache_pages ops r d in
      let now = record r { allocation = some a } in
      let far = later_trans c d freed l l' in
      let placed = less_room d a (room_for now) _ (room_for-le now) (room a refl) in
      Boarded-board c freed now (onward freed) far (later_room d freed a _ l' placed)
        (v freed g' (All-IsBacked c freed rs far hs))
  Boarded-prefill_one r rs c (err e, d) again onward h (g, l) room (hr, hs) u v =
      elim (Bool-cases (is_cache_failure e)) [
        | inl y ↦ rw y (Boarded-keep c d r (again d) l hr (u d g (All-IsBacked c d rs l hs)))
        | inr n ↦ rw n (Boarded-halt c d (r ∷ rs) (some e) g l (hr, hs))
      ]

  pub prefill_loop-Boarded :
      (room : ℕ) (rs : List Pending) (c : S)
      → IsGood c
      → All (IsBacked c) rs
      → Boarded c (prefill_loop ops room rs c)
  unfolding prefill_loop
  prefill_loop-Boarded room [] c g h = Boarded-halt c c [] none g (later_refl c) h
  prefill_loop-Boarded zero (r ∷ rs) c g h = Boarded-halt c c (r ∷ rs) _ g (later_refl c) h
  prefill_loop-Boarded (suc room) (r ∷ rs) c g h = elim (Bool-cases (is_prefill r.phase)) [
    | inl y ↦ rw y (
        Boarded-prefill_one r rs c _ _ _ y (acquire_good r.input_token_ids 0 c g)
          (λ a e. acquire_room r.input_token_ids 0 c a g e) h (prefill_loop-Boarded (suc room) rs)
          (prefill_loop-Boarded room rs))
    | inr n ↦ rw n (Boarded-halt c c (r ∷ rs) _ g (later_refl c) h)
  ]

  Boarded-decode_one :
      (r : Pending) (rs : List Pending) (c : S) (a : ℕ) (got : Result (Unit {0}) × S)
      (onward : S → Boarding S)
      → is_prefill r.phase ≡ false
      → r.allocation ≡ some a
      → IsGood got.1 × Later c got.1
      → All (IsBacked c) (r ∷ rs)
      → ((d : S) → IsGood d → All (IsBacked d) rs → Boarded d (onward d))
      → Boarded c (decode_one ops r rs got onward)
  unfolding decode_one
  Boarded-decode_one r rs c a (ok u, d) onward h e (g, l) (hr, hs) v =
      Boarded-board c d r (onward d) l (rw (h, e) (later_room c d a 0 l (rw e at hr)))
        (v d g (All-IsBacked c d rs l hs))
  Boarded-decode_one r rs c a (err x, d) onward h e (g, l) hs v = Boarded-halt c d (r ∷ rs) _ g l hs

  Boarded-extend_one :
      (r : Pending) (rs : List Pending) (o : Option ℕ) (c : S) (onward : S → Boarding S)
      → is_prefill r.phase ≡ false
      → r.allocation ≡ o
      → IsGood c
      → All (IsBacked c) (r ∷ rs)
      → ((d : S) → IsGood d → All (IsBacked d) rs → Boarded d (onward d))
      → Boarded c (extend_one ops r rs o c onward)
  unfolding extend_one
  Boarded-extend_one r rs none c onward n e g h v = Boarded-halt c c (r ∷ rs) _ g (later_refl c) h
  Boarded-extend_one r rs (some a) c onward n e g h v =
      Boarded-decode_one r rs c a _ onward n e (extend_good a r.input_token_ids 1 c g (rw e at h.0))
        h v

  pub boarding_decodes-Boarded :
      (room : ℕ) (rs : List Pending) (c : S)
      → IsGood c
      → All (IsBacked c) rs
      → Boarded c (boarding_decodes ops room rs c)
  unfolding boarding_decodes
  boarding_decodes-Boarded room [] c g h = Boarded-halt c c [] none g (later_refl c) h
  boarding_decodes-Boarded zero (r ∷ rs) c g h = Boarded-halt c c (r ∷ rs) _ g (later_refl c) h
  boarding_decodes-Boarded (suc room) (r ∷ rs) c g h = elim (Bool-cases (is_prefill r.phase)) [
    | inl y ↦ rw y (Boarded-halt c c (r ∷ rs) _ g (later_refl c) h)
    | inr n ↦
        rw n
          (Boarded-extend_one r rs r.allocation c _ n refl g h (boarding_decodes-Boarded room rs))
  ]
