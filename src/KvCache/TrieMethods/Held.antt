-- ===== src/KvCache/TrieMethods/Held.antt =====
-- The pages that the cache and its allocations hold: free, linked in the trie, or private to an
-- allocation, that is, acquired and not published.
use shark_platform.Prelude.{
  ℕ, zero, suc, ◌+◌, ◌≤◌, ◌≡◌, refl, List, [], ◌∷◌, ◌++◌, arith, length, take, drop,
}
use shark_platform.Prelude.Count.{count, count-append, total}
use shark_platform.KvCache.Trie.{TrieCache, Allocation}
use shark_platform.KvCache.TrieEviction.Evict.{free_or_linked}

abbrev pub unpublished : Allocation → List ℕ
unpublished a = drop a.number_of_published_pages a.pages

abbrev pub private : ℕ → List Allocation → ℕ
private p = total (λ a. count p (unpublished a))

abbrev pub held : ℕ → TrieCache → ℕ
held p s = free_or_linked p s + private p s.allocations

count-drop-le : (p n : ℕ) (xs : List ℕ) → count p (drop n xs) ≤ count p xs
count-drop-le p zero xs = omega arith
count-drop-le p (suc n) [] = omega arith
count-drop-le p (suc n) (x ∷ xs) = omega (arith, count-drop-le p n xs)

-- Dropping from a longer list leaves no more than dropping and then adding.
pub count-drop-append :
    (p n : ℕ) (xs ys : List ℕ) → count p (drop n (xs ++ ys)) ≤ count p (drop n xs) + count p ys
count-drop-append p zero xs ys = omega (arith, count-append p xs ys)
count-drop-append p (suc n) [] ys = omega (arith, count-drop-le p (suc n) ys)
count-drop-append p (suc n) (x ∷ xs) ys = count-drop-append p n xs ys

-- What was matched is published, and what is new is private.
pub drop-length-append : (xs ys : List ℕ) → drop (length xs) (xs ++ ys) ≡ ys
drop-length-append [] ys = refl
drop-length-append (x ∷ xs) ys = drop-length-append xs ys

-- A list from `d` on is its part up to `c` and the rest.
pub count-slice :
    (p d c : ℕ) (xs : List ℕ)
    → d ≤ c
    → count p (drop d (take c xs)) + count p (drop c xs) ≡ count p (drop d xs)
count-slice p zero zero xs h = omega arith
count-slice p zero (suc c) [] h = omega arith
count-slice p zero (suc c) (x ∷ xs) h = omega (arith, count-slice p zero c xs (omega arith))
count-slice p (suc d) zero xs h = absurd (omega arith)
count-slice p (suc d) (suc c) [] h = omega arith
count-slice p (suc d) (suc c) (x ∷ xs) h = count-slice p d c xs (omega arith)
