-- ===== src/KvCache/PagePool/Acquire.antt =====
-- `acquire_free_pages` and `free_pages`: which pages leave the pool, and that none is lost.
use mathlib.Core.List.{reverse, reverse-cons, append_assoc, append-nil}
use shark_platform.Prelude.{
  ℕ, zero, suc, ◌+◌, ◌≤◌, ◌<◌, ◌≡◌, refl, sym, ap, inl, inr, Option, none, some, List, [], ◌∷◌,
  ◌++◌, arith, length, length-append, Bool-cases, ltb,
}
use shark_platform.Prelude.Count.{count, count-append}
use shark_platform.Prelude.Exec.{Result, ok}
use shark_platform.KvCache.PagePool.{range_from, PagePool, pop_from, pop_pages, acquire_free_pages}

pop_from-split : (x : ℕ) (xs : List ℕ) → x ∷ xs ≡ (pop_from x xs).1 ++ (pop_from x xs).0 ∷ []
unfolding pop_from
pop_from-split x [] = refl
pop_from-split x (y ∷ ys) = ap (◌∷◌ x) (pop_from-split y ys)

-- What popping `n` elements of `xs` gives: the last ones, latest first.
pub record Popped (n : ℕ) (xs : List ℕ) : Type 0 where
  pub pages : List ℕ
  pub rest : List ℕ
  pub runs : pop_pages n xs ≡ (ok pages, rest)
  pub split : xs ≡ rest ++ reverse pages
  pub size : length pages ≡ n

Popped-suc : (n x : ℕ) (xs : List ℕ) → Popped n (pop_from x xs).1 → Popped (suc n) (x ∷ xs)
unfolding pop_pages
Popped-suc n x xs more = record {
  pages = (pop_from x xs).0 ∷ more.pages;
  rest = more.rest;
  runs = rw more.runs;
  split =
      rw (reverse-cons (pop_from x xs).0 more.pages, ← append_assoc, ← more.split)
        (pop_from-split x xs);
  size = ap suc more.size;
}

pub pop_pages-Popped : (n : ℕ) (xs : List ℕ) → n ≤ length xs → Popped n xs
unfolding pop_pages
pop_pages-Popped zero xs h = record {
  pages = [];
  rest = xs;
  runs = refl;
  split = sym (append-nil xs);
  size = refl;
}
pop_pages-Popped (suc n) [] h = elim h [ ]
pop_pages-Popped (suc n) (x ∷ xs) h = Popped-suc n x xs (
    pop_pages-Popped n (pop_from x xs).1 (
      omega (
        arith,
        ap length (pop_from-split x xs),
        length-append (pop_from x xs).1 ((pop_from x xs).0 ∷ []),
      )))

-- The two ways in which a request for pages ends.
pub data Acquired (n : ℕ) (p : PagePool) (out : Result (Option (List ℕ)) × PagePool) : Type 0 where
  refused : length p.available_pages < n → out ≡ (ok none, p) → Acquired n p out
  granted :
      (pages rest : List ℕ)
      → p.available_pages ≡ rest ++ reverse pages
      → length pages ≡ n
      → out ≡ (ok (some pages), record p { available_pages = rest })
      → Acquired n p out

-- `acquire_free_pages` never raises. It refuses exactly when fewer pages are free than asked for,
-- and then changes nothing; otherwise it hands out the last `n` free pages, the last one first, and
-- keeps the others in their order.
pub acquire_free_pages-Acquired : (n : ℕ) (p : PagePool) → Acquired n p (acquire_free_pages n p)
unfolding acquire_free_pages
acquire_free_pages-Acquired n p = elim (Bool-cases (ltb (length p.available_pages) n)) [
  | inl few ↦ refused (ground arith) (rw few)
  | inr enough ↦
      let got : Popped n p.available_pages = pop_pages-Popped n p.available_pages (ground arith) in
      granted got.pages got.rest got.split got.size (rw (enough, got.runs))
]

count-reverse : (a : ℕ) (xs : List ℕ) → count a (reverse xs) ≡ count a xs
count-reverse a [] = refl
count-reverse a (x ∷ xs) =
    rw reverse-cons (omega (arith, count-append a (reverse xs) (x ∷ []), count-reverse a xs))

-- A granted request moves pages, and neither loses nor duplicates one.
pub count-granted :
    (a : ℕ) (avail pages rest : List ℕ)
    → avail ≡ rest ++ reverse pages
    → count a avail ≡ count a rest + count a pages
count-granted a avail pages rest e =
    rw e (omega (arith, count-append a rest (reverse pages), count-reverse a pages))

-- A new pool has each of its pages once.
pub count-range :
    (p start n : ℕ)
    → (p < start → count p (range_from start n) ≡ 0) × (count p (range_from start n) ≤ 1)
count-range p start zero = (λ h. omega arith, omega arith)
count-range p start (suc n) =
    let (below, once) = count-range p (suc start) n in
    (λ h. ground (arith, below (omega arith)), ground (arith, below))
