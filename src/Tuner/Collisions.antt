-- ===== src/Tuner/Collisions.antt =====
-- tuner/tuner/libtuner.py: `find_collisions`, `collision_handler` and the end of `compile`, which keeps
-- one candidate of those that are compiled to the same bytes. A hash is a text.
pub mod Firsts
use shark_platform.Prelude.{
  ℕ, zero, suc, Bool, true, false, ◌||◌, Option, none, some, List, [], ◌∷◌, ◌++◌, map, length, ltb,
  ◌==◌, if◌then◌else◌,
}
use shark_platform.Prelude.Dict.{get, put}

abbrev pub Hash : Type 0
Hash = List ℕ

-- hash_count[hash_val].append(index), or a new list
abbrev pub count : ℕ → Hash → List (Hash × List ℕ) → List (Hash × List ℕ)
count index hash_val counts = elim (get hash_val counts) [
  | none ↦ put hash_val (index ∷ []) counts
  | some indices ↦ put hash_val (indices ++ index ∷ []) counts
]

unfoldable pub hash_count : List (ℕ × Hash) → List (Hash × List ℕ) → List (Hash × List ℕ)
hash_count [] counts = counts
hash_count ((index, hash_val) ∷ rest) counts = hash_count rest (count index hash_val counts)

-- any(len(indices) > 1 for ...)
unfoldable pub any_collided : List (Hash × List ℕ) → Bool
any_collided [] = false
any_collided ((h, indices) ∷ rest) = ltb 1 (length indices) || any_collided rest

unfoldable pub find_collisions : List (ℕ × Hash) → Bool × List (Hash × List ℕ)
find_collisions hash_list = let counts = hash_count hash_list [] in (any_collided counts, counts)

-- indices[0], of lists that are not empty
abbrev pub first : List ℕ → ℕ
first [] = 0
first (i ∷ is) = i

abbrev pub unique_indexes : List (Hash × List ℕ) → List ℕ
unique_indexes [] = []
unique_indexes ((h, indices) ∷ rest) = first indices ∷ unique_indexes rest

unfoldable pub collision_handler : List (ℕ × Hash) → Bool × List ℕ
collision_handler index_hash_list =
    let (collision_detected, hash_list) = find_collisions index_hash_list in
    if collision_detected then (true, unique_indexes hash_list) else (false, [])

-- The candidates that `compile` returns.
unfoldable pub unique_candidates : List (ℕ × Hash) → List ℕ
unique_candidates compiled_candidate_hashes =
    let (collision_detected, unique) = collision_handler compiled_candidate_hashes in
    if collision_detected then unique else map (λ c. c.0) compiled_candidate_hashes
