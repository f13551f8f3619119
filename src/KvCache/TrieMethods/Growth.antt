-- ===== src/KvCache/TrieMethods/Growth.antt =====
-- Allocations are never taken out of the cache's list, and never lose a page.
pub mod Requests
use shark_platform.Prelude.{
  ℕ, ◌+◌, ◌≤◌, ◌<◌, ◌≡◌, refl, sym, ap, ◌∙◌, inl, inr, true, false, Bool, List, [], ◌∷◌, ◌++◌,
  arith, length, set, get_or, take, drop, ◌*◌, ◌/◌, get_or-set_cases, get_or-append, length-append,
  length-set, get_or_outside, Bool-cases, ltb, ◌==◌, if◌then◌else◌,
}
use shark_platform.KvCache.Trie.{Runtime, match, blocks, TrieCache, Allocation}
use shark_platform.Prelude.Exec.{Error, Result, ok, err}
use shark_platform.KvCache.TrieEviction.Evict.{Frame}
use shark_platform.KvCache.TrieMethods.{
  no_allocation, alloc_at, on_alloc, incref, decref, release_pages, is_nil, note_leaf,
  move_reference, link_blocks, publish, publish_pages_for_tokens, agree, new_pages,
  new_pages_needed, extend_allocation, acquire_pages_for_tokens, allocation_of, new_allocation,
}
use shark_platform.KvCache.TrieMethods.NewPages.{Request, served, denied, new_pages-Request}
use shark_platform.KvCache.TrieMethods.Edits.{Editing, publish_pages-edits}
use shark_platform.KvCache.TrieMethods.Invariant.{Inv}
use shark_platform.KvCache.TrieMethods.Acquire.{match-Referred, Referred}

pub record Grows (s t : TrieCache) : Type 0 where
  pub page_size : t.tokens_per_page ≡ s.tokens_per_page
  pub more : length s.allocations ≤ length t.allocations
  pub longer : (a : ℕ) → length (alloc_at s a).pages ≤ length (alloc_at t a).pages

pub Grows-trans : {s t u : TrieCache} → Grows s t → Grows t u → Grows s u
Grows-trans g h = record {
  page_size = h.page_size ∙ g.page_size;
  more = omega (arith, g.more, h.more);
  longer = λ a. omega (arith, g.longer a, h.longer a);
}

pub Grows-same :
    (s t : TrieCache)
    → t.tokens_per_page ≡ s.tokens_per_page
    → t.allocations ≡ s.allocations
    → Grows s t
Grows-same s t e f = record {
  page_size = e;
  more = rw f (omega arith);
  longer = λ a. rw f (omega arith);
}

-- An allocation is replaced by one with as many pages at least.
pub Grows-set :
    (s : TrieCache) (a : ℕ) (x : Allocation)
    → length (alloc_at s a).pages ≤ length x.pages
    → Grows s (record s { allocations = set s.allocations a x })
Grows-set s a x h = record {
  page_size = refl;
  more = omega (arith, length-set s.allocations a x);
  longer = λ b. elim (get_or-set_cases s.allocations a b x no_allocation) [
    | inl e ↦ rw e (omega arith)
    | inr (same, _, e) ↦ rw (e, sym same) h
  ];
}

pub Grows-append :
    (s : TrieCache) (x : Allocation) → Grows s (record s { allocations = s.allocations ++ x ∷ [] })
Grows-append s x = record {
  page_size = refl;
  more = omega (arith, length-append s.allocations (x ∷ []));
  longer = λ b.
      rw (get_or-append s.allocations x b no_allocation)
        (elim (Bool-cases (b == length s.allocations)) [
          | inl e ↦
              rw (e, get_or_outside s.allocations b no_allocation (ground arith)) (omega arith)
          | inr e ↦ rw e (omega arith)
        ]);
}

pub Grows-on_alloc :
    (s : TrieCache) (a : ℕ) (f : Allocation → Allocation)
    → length (alloc_at s a).pages ≤ length (f (alloc_at s a)).pages
    → Grows s (on_alloc a f s)
Grows-on_alloc s a f h = Grows-set s a (f (alloc_at s a)) h

pub release-Grows : (a : ℕ) (s : TrieCache) → Grows s (release_pages a s)
unfolding release_pages
release-Grows a s = elim (Bool-cases (alloc_at s a).is_released) [
  | inl e ↦ rw e (Grows-same s s refl refl)
  | inr e ↦
      let t = decref (alloc_at s a).last_cached_node s in
      rw e (
        Grows-trans (Grows-same s t refl refl)
          (Grows-on_alloc t a (λ x. record x { is_released = true }) (omega arith)))
]

pub renamed-Grows :
    (a : ℕ) (tokens : List ℕ) (s : TrieCache)
    → Grows s (on_alloc a (λ x. record x { tokens = tokens }) s)
renamed-Grows a tokens s = Grows-on_alloc s a (λ x. record x { tokens = tokens }) (omega arith)

Editing-Grows : (a : ℕ) → Editing a Grows
Editing-Grows a = record {
  same = Grows-same;
  trans = λ s t u. Grows-trans;
  edited = λ s f h. Grows-on_alloc s a f (omega (arith, ap length (h (alloc_at s a))));
}

pub publish_pages-Grows :
    (rt : Runtime) (a : ℕ) (tokens : List ℕ) (incomplete : Bool) (s : TrieCache)
    → Grows s (publish_pages_for_tokens rt a tokens incomplete s).1
publish_pages-Grows rt a = publish_pages-edits rt a (Editing-Grows a)
