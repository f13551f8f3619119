-- ===== src/Serving/Executor/Rows.antt =====
-- The rows of a batch when every item fits.
use shark_platform.Prelude.{
  ℕ, zero, suc, ◌-◌, ◌≤◌, ◌≡◌, refl, List, [], ◌∷◌, ◌++◌, map, arith, length, All,
}
use shark_platform.Prelude.Exec.{ok}
use shark_platform.Serving.Executor.{filled, populate, replicate}

-- A row as long as the batch is wide: the items, then the value it is filled with.
abbrev pub padded : ℕ → ℕ → List ℕ → List ℕ
padded value size items = items ++ replicate (size - length items) value

-- The rows of the requests, then rows of zeros up to the size of the batch.
abbrev pub padded_rows : ℕ → ℕ → List (List ℕ) → List (List ℕ)
padded_rows bs size rows =
    map (padded 0 size) rows ++ replicate (bs - length rows) (replicate size 0)

pub filled-fits :
    (value size : ℕ) (items : List ℕ)
    → length items ≤ size
    → filled value size items ≡ ok (padded value size items)
unfolding filled
filled-fits value size items h = ground arith

pub populate-fits :
    (bs size : ℕ) (rows : List (List ℕ))
    → length rows ≤ bs
    → All (λ items. length items ≤ size) rows
    → populate bs size rows ≡ ok (padded_rows bs size rows)
unfolding populate
populate-fits zero size [] h fits = refl
populate-fits zero size (items ∷ rows) h fits = elim h [ ]
populate-fits (suc bs) size [] h fits =
    rw (populate-fits bs size [] (omega arith) tt) (ground arith)
populate-fits (suc bs) size (items ∷ rows) h fits =
    rw (filled-fits 0 size items fits.0, populate-fits bs size rows (omega arith) fits.1)
      (ground arith)
