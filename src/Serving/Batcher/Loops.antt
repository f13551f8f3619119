-- ===== src/Serving/Batcher/Loops.antt =====
-- The loops over the pending requests: no request is lost or doubled, and no flight is too large.
use shark_platform.Prelude.{
  ℕ, zero, suc, ◌+◌, ◌≤◌, ◌≡◌, ◌≢◌, refl, Option, none, some, List, [], ◌∷◌, arith, length, All,
  ◌==◌, if◌then◌else◌, Bool-cases, inl, inr,
}
use shark_platform.Prelude.Count.{total}
use shark_platform.Prelude.Exec.{Error, Result, ok, err}
use shark_platform.Serving.Batcher.{
  CacheOps, Pending, Boarding, halt, keep, board, is_prefill, is_cache_failure, prefill_one,
  prefill_loop, decode_one, extend_one, boarding_decodes,
}

-- How often a request is in a list.
abbrev pub seen : ℕ → List Pending → ℕ
seen p = total (λ r. if r.rid == p then 1 else 0)

abbrev pub HasPages : Pending → Type 0
HasPages r = r.allocation ≢ none

pub record Boards {S : Type 0} (room : ℕ) (rs : List Pending) (b : Boarding S) : Type 0 where
  pub kept : (p : ℕ) → seen p b.boarded + seen p b.left ≡ seen p rs
  pub bounded : length b.boarded ≤ room
  pub allocated : All HasPages b.boarded

module _ {S : Type 0} where
  Boards-halt :
      (room : ℕ) (rs : List Pending) (c : S) (e : Option Error) → Boards room rs (halt rs c e)
  Boards-halt room rs c e = record {
    kept = λ p. omega arith;
    bounded = omega arith;
    allocated = tt;
  }

  Boards-keep :
      (room : ℕ) (r : Pending) (rs : List Pending) (b : Boarding S)
      → Boards room rs b
      → Boards room (r ∷ rs) (keep r b)
  Boards-keep room r rs b v = record {
    kept = λ p. omega (arith, v.kept p);
    bounded = v.bounded;
    allocated = v.allocated;
  }

  Boards-board :
      (room a : ℕ) (r now : Pending) (rs : List Pending) (b : Boarding S)
      → now.rid ≡ r.rid
      → now.allocation ≡ some a
      → Boards room rs b
      → Boards (suc room) (r ∷ rs) (board now b)
  Boards-board room a r now rs b same has v = record {
    kept = λ p. rw same (omega (arith, v.kept p));
    bounded = omega (arith, v.bounded);
    allocated = ((λ e. ground (arith, has)), v.allocated);
  }

module _ {S : Type 0} (ops : CacheOps S) where
  Boards-prefill_one :
      (room : ℕ) (r : Pending) (rs : List Pending) (got : Result ℕ × S)
      (again onward : S → Boarding S)
      → ((c : S) → Boards (suc room) rs (again c))
      → ((c : S) → Boards room rs (onward c))
      → Boards (suc room) (r ∷ rs) (prefill_one ops r rs got again onward)
  unfolding prefill_one
  Boards-prefill_one room r rs (ok a, c) again onward u v =
      Boards-board room a r (record r { allocation = some a }) rs _ refl refl (v _)
  Boards-prefill_one room r rs (err e, c) again onward u v =
      elim (Bool-cases (is_cache_failure e)) [
        | inl h ↦ rw h (Boards-keep (suc room) r rs (again c) (u c))
        | inr h ↦ rw h (Boards-halt (suc room) (r ∷ rs) c (some e))
      ]

  pub prefill_loop-Boards :
      (room : ℕ) (rs : List Pending) (c : S) → Boards room rs (prefill_loop ops room rs c)
  unfolding prefill_loop
  prefill_loop-Boards room [] c = Boards-halt room [] c none
  prefill_loop-Boards zero (r ∷ rs) c = Boards-halt 0 (r ∷ rs) c _
  prefill_loop-Boards (suc room) (r ∷ rs) c = elim (Bool-cases (is_prefill r.phase)) [
    | inl h ↦ rw h (
        Boards-prefill_one room r rs _ _ _ (prefill_loop-Boards (suc room) rs)
          (prefill_loop-Boards room rs))
    | inr h ↦ rw h (Boards-halt (suc room) (r ∷ rs) c _)
  ]

  Boards-extend_one :
      (room : ℕ) (r : Pending) (rs : List Pending) (o : Option ℕ) (c : S) (onward : S → Boarding S)
      → r.allocation ≡ o
      → ((c : S) → Boards room rs (onward c))
      → Boards (suc room) (r ∷ rs) (extend_one ops r rs o c onward)
  unfolding extend_one decode_one
  Boards-extend_one room r rs none c onward e v = Boards-halt (suc room) (r ∷ rs) c _
  Boards-extend_one room r rs (some a) c onward e v =
      extended (ops.extend_allocation a r.input_token_ids 1 c)
    where
      extended :
          (got : Result (Unit {0}) × S)
          → Boards (suc room) (r ∷ rs) (decode_one ops r rs got onward)
      extended (ok u, c') = Boards-board room a r r rs (onward c') refl e (v c')
      extended (err x, c') = Boards-halt (suc room) (r ∷ rs) c' _

  pub boarding_decodes-Boards :
      (room : ℕ) (rs : List Pending) (c : S) → Boards room rs (boarding_decodes ops room rs c)
  unfolding boarding_decodes
  boarding_decodes-Boards room [] c = Boards-halt room [] c none
  boarding_decodes-Boards zero (r ∷ rs) c = Boards-halt 0 (r ∷ rs) c _
  boarding_decodes-Boards (suc room) (r ∷ rs) c = elim (Bool-cases (is_prefill r.phase)) [
    | inl h ↦ rw h (Boards-halt (suc room) (r ∷ rs) c _)
    | inr h ↦
        rw h (Boards-extend_one room r rs r.allocation c _ refl (boarding_decodes-Boards room rs))
  ]
