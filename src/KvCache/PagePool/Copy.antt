-- ===== src/KvCache/PagePool/Copy.antt =====
-- `copy_page`: what the copy holds, and what stays as it was.
use mathlib.Core.List.{reverse}
use shark_platform.Prelude.{
  ℕ, zero, suc, ◌<◌, ◌≡◌, refl, some, List, [], ◌∷◌, ◌++◌, arith, length, get_or, set, ◌==◌, ◌&&◌,
  ltb, if◌then◌else◌, get_or-set, get_or-set_cases,
}
use shark_platform.Prelude.Exec.{Result, ok, err, type_error}
use shark_platform.KvCache.PagePool.{
  PageTable, PagePool, copy_rows, copy_page, reset_offset, acquire_free_pages,
}
use shark_platform.KvCache.PagePool.Acquire.{refused, granted, acquire_free_pages-Acquired}

-- The elements of page `j` on device `k`.
abbrev pub row : List PageTable → ℕ → ℕ → List ℕ
row tables k j = get_or (get_or tables k []) j []

row-set :
    (table : PageTable) (src dst j : ℕ)
    → get_or (set table dst (get_or table src [])) j []
      ≡ (if j == dst && ltb dst (length table) then get_or table src [] else get_or table j [])
row-set table src dst j = ground (
  arith,
  get_or-set_cases table dst j (get_or table src []) [],
  get_or-set table dst j (get_or table src []) [],
)

-- On every device, the copy reads as its source did if the table has that page, and every other page
-- as before.
pub row-copy_rows :
    (tables : List PageTable) (src dst k j : ℕ)
    → row (copy_rows src dst tables) k j ≡ (
        if j == dst && ltb dst (length (get_or tables k []))
        then row tables k src
        else row tables k j)
unfolding copy_rows
row-copy_rows [] src dst k j = ground arith
row-copy_rows (table ∷ tables) src dst zero j = row-set table src dst j
row-copy_rows (table ∷ tables) src dst (suc k) j = row-copy_rows tables src dst k j

pub data Copied (src : ℕ) (p : PagePool) (out : Result ℕ × PagePool) : Type 0 where
  exhausted : p.available_pages ≡ [] → out ≡ (err type_error, p) → Copied src p out
  copied :
      (dst : ℕ) (rest : List ℕ) (q : PagePool)
      → p.available_pages ≡ rest ++ dst ∷ []
      → out ≡ (ok dst, q)
      → q.available_pages ≡ rest
      → q.attn_page_entries ≡ reset_offset dst p.attn_page_entries
      → ((k j : ℕ)
          → row q.page_tables k j ≡ (
              if j == dst && ltb dst (length (get_or p.page_tables k []))
              then row p.page_tables k src
              else row p.page_tables k j))
      → Copied src p out

none_free : (xs : List ℕ) → length xs < 1 → xs ≡ []
none_free [] h = refl
none_free (x ∷ xs) h = absurd (omega arith)

-- The pool after the copying loop.
abbrev copy_state : ℕ → ℕ → PagePool → PagePool
copy_state src dst p = record p {
  page_tables = copy_rows src dst p.page_tables;
  attn_page_entries = reset_offset dst p.attn_page_entries;
}

copy_granted :
    (src : ℕ) (p : PagePool) (pages rest : List ℕ)
    → p.available_pages ≡ rest ++ reverse pages
    → length pages ≡ 1
    → acquire_free_pages 1 p ≡ (ok (some pages), record p { available_pages = rest })
    → Copied src p (copy_page src p)
unfolding copy_page
copy_granted src p [] rest e n run = absurd (omega arith)
copy_granted src p (dst ∷ []) rest e n run =
    copied dst rest (copy_state src dst (record p { available_pages = rest })) e (rw run) refl refl
      (row-copy_rows p.page_tables src dst)
copy_granted src p (dst ∷ x ∷ xs) rest e n run = absurd (omega arith)

-- `copy_page` raises a `TypeError` and changes nothing when no page is free. Otherwise it takes the
-- last free page, starts it at offset 0, and makes it hold on every device what the source page
-- holds; all other pages keep their contents.
pub copy_page-Copied : (src : ℕ) (p : PagePool) → Copied src p (copy_page src p)
unfolding copy_page
copy_page-Copied src p = elim (acquire_free_pages-Acquired 1 p) [
  | refused few run ↦ exhausted (none_free _ few) (rw run)
  | granted pages rest e n run ↦ copy_granted src p pages rest e n run
]
