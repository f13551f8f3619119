-- ===== src/KvCache/TrieMethods/Edits.antt =====
-- `publish_pages_for_tokens` edits one allocation, and none of its pages.
use shark_platform.Prelude.{
  ℕ, ◌*◌, ◌/◌, ◌≡◌, ◌≢◌, refl, sym, ◌∙◌, inl, inr, Bool, List, [], ◌∷◌, length, take, drop,
  get_or-set_cases, Bool-cases, ltb,
}
use shark_platform.KvCache.Trie.{Runtime, TrieCache, Allocation, blocks}
use shark_platform.KvCache.TrieMethods.{
  no_allocation, alloc_at, on_alloc, incref, decref, note_leaf, move_reference, link_blocks,
  publish, publish_pages_for_tokens, agree,
}

-- A relation between states that holds where the allocations are the same, or one is edited.
pub record Editing (a : ℕ) (R : TrieCache → TrieCache → Type 0) : Type 0 where
  pub same :
      (s t : TrieCache)
      → t.tokens_per_page ≡ s.tokens_per_page
      → t.allocations ≡ s.allocations
      → R s t
  pub trans : (s t u : TrieCache) → R s t → R t u → R s u
  pub edited :
      (s : TrieCache) (f : Allocation → Allocation)
      → ((x : Allocation) → (f x).pages ≡ x.pages)
      → R s (on_alloc a f s)

module _ (rt : Runtime) (a : ℕ) {R : TrieCache → TrieCache → Type 0} (E : Editing a R) where
  move_reference-edits :
      (cur : ℕ) (unpublished : List (List ℕ)) (s : TrieCache)
      → R s (move_reference a cur unpublished s)
  move_reference-edits cur [] s = E.same s s refl refl
  move_reference-edits cur (b ∷ bs) s =
      let t = decref (alloc_at s a).last_cached_node (incref cur s) in
      E.trans s t _ (E.same s t refl refl)
        (E.edited t (λ x. record x { last_cached_node = cur }) (λ x. refl))

  link_blocks-edits :
      (bs : List (List ℕ)) (ps : List ℕ) (cur : ℕ) (s : TrieCache)
      → R s (link_blocks rt cur bs ps s).1
  unfolding link_blocks
  link_blocks-edits [] ps cur s = E.same s s refl refl
  link_blocks-edits (b ∷ bs) [] cur s = E.same s s refl refl
  link_blocks-edits (b ∷ bs) (p ∷ ps) cur s =
      E.trans s _ _ (E.same s _ refl refl) (link_blocks-edits bs ps _ _)

  publish-edits : (count : ℕ) (s : TrieCache) → R s (publish rt a count s)
  unfolding publish
  publish-edits count s =
      let alloc = alloc_at s a in
      let done = alloc.number_of_published_pages in
      let bs = blocks s.tokens_per_page (drop (done * s.tokens_per_page) alloc.tokens) in
      let (cur, t) =
        link_blocks rt alloc.last_cached_node bs (drop done (take count alloc.pages)) s in
      let noted = note_leaf cur t in
      let moved = move_reference a cur bs noted in
      E.trans s t _ (link_blocks-edits bs (drop done (take count alloc.pages)) _ s) (
        E.trans t noted _ (E.same t noted refl refl) (
          E.trans noted moved _ (move_reference-edits cur bs noted)
            (E.edited moved (λ x. record x { number_of_published_pages = count }) (λ x. refl))))

  pub publish_pages-edits :
      (tokens : List ℕ) (incomplete : Bool) (s : TrieCache)
      → R s (publish_pages_for_tokens rt a tokens incomplete s).1
  unfolding publish_pages_for_tokens
  publish_pages-edits tokens incomplete s =
      let count = length tokens / s.tokens_per_page in
      let renamed = on_alloc a (λ x. record x { tokens = tokens }) s in
      let rename : R s renamed = E.edited s (λ x. record x { tokens = tokens }) (λ x. refl) in
      elim (Bool-cases (agree (alloc_at s a).tokens tokens)) [
        | inr differs ↦ rw differs (E.same s s refl refl)
        | inl agrees ↦ elim (Bool-cases (ltb (length (alloc_at s a).tokens) (length tokens))) [
          | inl longer ↦ elim (Bool-cases incomplete) [
            | inl b ↦ rw (agrees, longer, b) rename
            | inr b ↦
                rw (agrees, longer, b) (E.trans s renamed _ rename (publish-edits count renamed))
          ]
          | inr shorter ↦ elim (Bool-cases incomplete) [
            | inl b ↦ rw (agrees, shorter, b) (E.same s s refl refl)
            | inr b ↦ rw (agrees, shorter, b) (publish-edits count s)
          ]
        ]
      ]

-- All allocations but one are the same.
pub record Apart (a : ℕ) (s t : TrieCache) : Type 0 where
  pub page_size : t.tokens_per_page ≡ s.tokens_per_page
  pub others : (b : ℕ) → b ≢ a → alloc_at t b ≡ alloc_at s b

Editing-Apart : (a : ℕ) → Editing a (Apart a)
Editing-Apart a = record {
  same = λ s t e f. record { page_size = e; others = λ b h. rw f refl };
  trans = λ s t u g h. record {
    page_size = h.page_size ∙ g.page_size;
    others = λ b k. h.others b k ∙ g.others b k;
  };
  edited = λ s f h. record {
    page_size = refl;
    others = λ b k. elim (get_or-set_cases s.allocations a b (f (alloc_at s a)) no_allocation) [
      | inl e ↦ e
      | inr (e, _, _) ↦ absurd (k (sym e))
    ];
  };
}

pub publish_pages-Apart :
    (rt : Runtime) (a : ℕ) (tokens : List ℕ) (incomplete : Bool) (s : TrieCache)
    → Apart a s (publish_pages_for_tokens rt a tokens incomplete s).1
publish_pages-Apart rt a = publish_pages-edits rt a (Editing-Apart a)
