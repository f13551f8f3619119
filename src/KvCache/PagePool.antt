-- ===== src/KvCache/PagePool.antt =====
-- kvcache/page_pool.py. A page is handled by reference: the handle of a page is its index in
-- `attn_page_entries`, which is its `index` field too. The lock makes each method one step.
-- Device memory is a parameter of `init`: the page tables as `device_array.for_device` returns them.
pub mod Acquire
pub mod Copy
use shark_platform.Prelude.{
  ℕ, zero, suc, ◌+◌, Bool, false, Option, none, some, List, [], ◌∷◌, ◌++◌, map, length, get_or, set,
  ltb, if◌then◌else◌,
}
use shark_platform.Prelude.Exec.{
  Exec, ok, pure, raise, ◌>>=◌, ◌>>◌, index_error, type_error, value_error,
}

pub record PageInfo : Type 0 where
  pub index : ℕ
  pub token_offset : ℕ
  pub token_count : ℕ
  pub writing : Bool
  pub read_ref_count : ℕ

-- The elements of one page, and the rows of a page table.
abbrev pub PageTable : Type 0
PageTable = List (List ℕ)

pub record PagePool : Type 0 where
  pub alloc_page_count : ℕ
  pub attn_page_entries : List PageInfo
  pub available_pages : List ℕ
  pub page_tables : List PageTable

abbrev pub fresh_page : ℕ → PageInfo
fresh_page i = record {
  index = i;
  token_offset = 0;
  token_count = 0;
  writing = false;
  read_ref_count = 0;
}

-- range(start, start + n)
abbrev pub range_from : ℕ → ℕ → List ℕ
range_from start zero = []
range_from start (suc n) = start ∷ range_from (suc start) n

unfoldable pub init : List PageTable → ℕ → PagePool
init page_tables count = record {
  alloc_page_count = count;
  attn_page_entries = map fresh_page (range_from 0 count);
  available_pages = range_from 0 count;
  page_tables = page_tables;
}

-- list.pop(): the last element.
pop_from : ℕ → List ℕ → ℕ × List ℕ
pop_from x [] = (x, [])
pop_from x (y ∷ ys) = let (last, rest) = pop_from y ys in (last, x ∷ rest)

unfoldable pub pop : Exec (List ℕ) ℕ
unfolding pop_from
pop [] = raise index_error []
pop (x ∷ xs) = let (last, rest) = pop_from x xs in pure last rest

-- [self.available_pages.pop() for _ in range(count)]
unfoldable pub pop_pages : ℕ → Exec (List ℕ) (List ℕ)
unfolding pop ◌>>=◌
pop_pages zero = pure []
pop_pages (suc n) = do page ← pop; pages ← pop_pages n; pure (page ∷ pages)

-- Runs an action on the list of available pages.
on_available : Exec (List ℕ) (List ℕ) → Exec PagePool (List ℕ)
on_available m pool =
    let (r, available) = m pool.available_pages in (r, record pool { available_pages = available })

unfoldable pub acquire_free_pages : ℕ → Exec PagePool (Option (List ℕ))
unfolding pop_pages on_available ◌>>=◌
acquire_free_pages count pool =
    if ltb (length pool.available_pages) count
    then pure none pool
    else (do pages ← on_available (pop_pages count); pure (some pages)) pool

unfoldable pub free_pages : List ℕ → PagePool → PagePool
free_pages pages pool = record pool { available_pages = pool.available_pages ++ pages }

-- dst_view.copy_from(src_view) on each device
unfoldable pub copy_rows : ℕ → ℕ → List PageTable → List PageTable
copy_rows src dst [] = []
copy_rows src dst (table ∷ tables) = set table dst (get_or table src []) ∷ copy_rows src dst tables

-- (dst_page,) = pages
unfoldable pub single : Option (List ℕ) → Exec PagePool ℕ
single none = raise type_error
single (some []) = raise value_error
single (some (page ∷ [])) = pure page
single (some (page ∷ other ∷ more)) = raise value_error

-- dst_page.token_offset = 0, through the reference.
abbrev pub reset_offset : ℕ → List PageInfo → List PageInfo
reset_offset i entries =
    set entries i (record (get_or entries i (fresh_page i)) { token_offset = 0 })

-- The copying loop and the metadata of the new page.
unfoldable pub fill_page : ℕ → ℕ → Exec PagePool ℕ
unfolding copy_rows
fill_page src dst pool = pure dst (record pool {
  page_tables = copy_rows src dst pool.page_tables;
  attn_page_entries = reset_offset dst pool.attn_page_entries;
})

unfoldable pub copy_page : ℕ → Exec PagePool ℕ
unfolding single fill_page ◌>>=◌
copy_page src = do pages ← acquire_free_pages 1; dst ← single pages; fill_page src dst
