-- ===== src/KvCache/TrieEviction/Loop.antt =====
-- The eviction loop: which pages it takes from the trie, and what it spares.
use shark_platform.Prelude.{
  ℕ, zero, suc, ◌+◌, ◌≤◌, ◌≡◌, refl, inl, inr, List, [], ◌∷◌, ◌++◌, arith, length, All, Bool-cases,
  ◌==◌, if◌then◌else◌,
}
use shark_platform.Prelude.Count.{count}
use shark_platform.Prelude.Exec.{Error, Result, ok, err, ◌>>=◌}
use shark_platform.KvCache.TrieNode.{node}
use shark_platform.KvCache.TrieNode.Links.{WellLinked}
use shark_platform.KvCache.TrieNode.Weight.{linked}
use shark_platform.KvCache.Trie.{Runtime, TrieCache}
use shark_platform.KvCache.TrieEviction.{Entry, before, least, heappop, evict_leaf, evict_loop}
use shark_platform.KvCache.TrieEviction.Effect.{
  Effect, Effect-trans, Effect-same, Effect-detach, linked_after,
}
use shark_platform.KvCache.TrieEviction.Leaf.{
  Rest-refl, IsUnused, LeafOutcome, evicted, untouched, half_way, evict_leaf-LeafOutcome,
}

module _ (rt : Runtime) where
  least-All {κ} :
      (P : Entry → Type κ) (e : Entry) (es : List Entry)
      → P e
      → All P es
      → P (least rt e es).0 × All P (least rt e es).1
  unfolding least
  least-All P e [] h hs = (h, tt)
  least-All P e (x ∷ xs) h (hx, hs) = elim (Bool-cases (before rt x e)) [
    | inl b ↦ rw b (let (m, others) = least-All P x xs hx hs in (m, (h, others)))
    | inr b ↦ rw b (let (m, others) = least-All P e xs h hs in (m, (hx, others)))
  ]

All-append {ℓ κ} :
    {A : Type ℓ} (P : A → Type κ) (xs ys : List A) → All P xs → All P ys → All P (xs ++ ys)
All-append P [] ys hx hy = hy
All-append P (x ∷ xs) ys hx hy = (hx.0, All-append P xs ys hx.1 hy)

All-map {ℓ κ} :
    {A : Type ℓ} {P Q : A → Type κ} (f : (a : A) → P a → Q a) (xs : List A) → All P xs → All Q xs
All-map f [] h = tt
All-map f (x ∷ xs) h = (f x h.0, All-map f xs h.1)

-- How the loop ends: with pages that it took from the trie, or with an exception.
pub data LoopOutcome (remaining : ℕ) (s : TrieCache) (out : Result (List ℕ) × TrieCache)
    : Type 0 where
  returned :
      (pages : List ℕ) (t : TrieCache)
      → out ≡ (ok pages, t)
      → Effect s t
      → ((p : ℕ) → linked p t.nodes + count p pages ≡ linked p s.nodes)
      → length pages ≤ remaining
      → LoopOutcome remaining s out
  raised :
      (e : Error) (t : TrieCache)
      → out ≡ (err e, t)
      → Effect s t
      → ((p : ℕ) → linked p t.nodes ≤ linked p s.nodes)
      → LoopOutcome remaining s out

module _ (rt : Runtime) where
  -- The loop from any heap of unused entries, for some number of rounds.
  abbrev Loops : ℕ → Type 0
  Loops k =
      (heap : List Entry) (s : TrieCache)
      → WellLinked s.tokens_per_page s.nodes
      → All (IsUnused s.nodes) heap
      → LoopOutcome k s (evict_loop rt k heap s)

  module _ (k : ℕ) (e : Entry) (es : List Entry) (s : TrieCache) where
    abbrev first : Entry
    first = (least rt e es).0

    abbrev others : List Entry
    others = (least rt e es).1

    -- A round that returned, and the rest of the loop.
    after_round :
        (pushed : List Entry) (t : TrieCache)
        → evict_leaf first.1 s ≡ (ok pushed, t)
        → Effect s t
        → ((p : ℕ)
            → linked p t.nodes + (if (node s.nodes first.1).page == p then 1 else 0)
              ≡ linked p s.nodes)
        → LoopOutcome k t (evict_loop rt k (pushed ++ others) t)
        → LoopOutcome (suc k) s (evict_loop rt (suc k) (e ∷ es) s)
    unfolding evict_loop heappop ◌>>=◌
    after_round pushed t run f moved (returned pages u run' g kept few) =
        returned ((node s.nodes first.1).page ∷ pages) u (rw (run, run')) (Effect-trans f g)
          (λ p. omega (arith, moved p, kept p)) (omega arith)
    after_round pushed t run f moved (raised x u run' g kept) =
        raised x u (rw (run, run')) (Effect-trans f g) (λ p. omega (arith, moved p, kept p))

    round :
        Loops k
        → WellLinked s.tokens_per_page s.nodes
        → IsUnused s.nodes first
        → All (IsUnused s.nodes) others
        → LeafOutcome first.1 s (evict_leaf first.1 s)
        → LoopOutcome (suc k) s (evict_loop rt (suc k) (e ∷ es) s)
    unfolding evict_loop heappop ◌>>=◌
    round loop w h hs (evicted parent pushed t par run moved r un) =
        let f : Effect s t = Effect-detach first.1 parent s t par moved r w h in
        after_round pushed t run f (linked_after first.1 parent s t par moved r w h) (
          loop (pushed ++ others) t (rw r.page_size f.linked_well) (
            All-append (IsUnused t.nodes) pushed others un
              (All-map (λ x u. cc (f.counts x.1, u)) others hs)))
    round loop w h hs (untouched x t run same r) =
        raised x t (rw run) (Effect-same w same r) (λ p. rw same (omega arith))
    round loop w h hs (half_way parent x t par run moved r) =
        raised x t (rw run) (Effect-detach first.1 parent s t par moved r w h)
          (λ p. omega (arith, linked_after first.1 parent s t par moved r w h p))

  -- From a heap of unused nodes the loop takes at most `remaining` pages. Each page that it returns
  -- leaves the trie as often as it is returned; if the loop raises, no page enters the trie. In both
  -- cases the trie stays well linked, and a node that is referred to keeps its place.
  pub evict_loop-LoopOutcome : (remaining : ℕ) → Loops remaining
  unfolding evict_loop heappop
  evict_loop-LoopOutcome zero heap s w h =
      returned [] s refl (Effect-same w refl (Rest-refl s)) (λ p. omega arith) (omega arith)
  evict_loop-LoopOutcome (suc k) [] s w h =
      returned [] s refl (Effect-same w refl (Rest-refl s)) (λ p. omega arith) (omega arith)
  evict_loop-LoopOutcome (suc k) (e ∷ es) s w (he, hes) =
      let (h, hs) = least-All rt (IsUnused s.nodes) e es he hes in
      round k e es s (evict_loop-LoopOutcome k) w h hs (evict_leaf-LeafOutcome _ s)
