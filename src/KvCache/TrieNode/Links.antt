-- ===== src/KvCache/TrieNode/Links.antt =====
-- The trie is a tree whose edges agree with its nodes, whatever is created, unlinked or counted.
use shark_platform.Prelude.{
  ℕ, suc, ◌<◌, ◌≡◌, ◌≢◌, refl, ◌∙◌, inl, inr, ◌&&◌, none, some, List, [], ◌∷◌, ◌++◌, arith, length,
  set, length-set, length-append, get_or-set, get_or-set_cases, get_or-append, get_or_outside,
  Bool-cases, ◌==◌, list_eq, list_eq_iff, if◌then◌else◌,
}
use shark_platform.Prelude.Dict
use shark_platform.Prelude.Dict.{get-put, get-remove, get-nil}
use shark_platform.KvCache.TrieNode.{
  TrieNode, Nodes, node, new_node, with_child, without_child, orphan, create_child, detach,
}

-- An edge from `n` to `c` under the key `k`: the child is younger, is filed under its own tokens, a
-- full page of them, and points back at `n`.
pub record Edge (size : ℕ) (nodes : Nodes) (n c : ℕ) (k : List ℕ) : Type 0 where
  pub younger : n < c
  pub exists : c < length nodes
  pub key : (node nodes c).tokens ≡ k
  pub back : (node nodes c).parent ≡ some n
  pub full : length k ≡ size

pub record WellLinked (size : ℕ) (nodes : Nodes) : Type 0 where
  pub has_root : 0 < length nodes
  pub edge :
      (n c : ℕ) (k : List ℕ) → Dict.get k (node nodes n).children ≡ some c → Edge size nodes n c k
  pub older : (i p : ℕ) → (node nodes i).parent ≡ some p → p < i

-- Two stores that differ in counts and times alone.
pub record SameLinks (xs ys : Nodes) : Type 0 where
  pub size : length ys ≡ length xs
  pub tokens : (i : ℕ) → (node ys i).tokens ≡ (node xs i).tokens
  pub page : (i : ℕ) → (node ys i).page ≡ (node xs i).page
  pub children : (i : ℕ) → (node ys i).children ≡ (node xs i).children
  pub parent : (i : ℕ) → (node ys i).parent ≡ (node xs i).parent

pub SameLinks-refl : (xs : Nodes) → SameLinks xs xs
SameLinks-refl xs = record {
  size = refl;
  tokens = λ i. refl;
  page = λ i. refl;
  children = λ i. refl;
  parent = λ i. refl;
}

pub SameLinks-trans : {xs ys zs : Nodes} → SameLinks xs ys → SameLinks ys zs → SameLinks xs zs
SameLinks-trans f g = record {
  size = cc (f.size, g.size);
  tokens = λ i. cc (f.tokens i, g.tokens i);
  page = λ i. cc (f.page i, g.page i);
  children = λ i. cc (f.children i, g.children i);
  parent = λ i. cc (f.parent i, g.parent i);
}

pub SameLinks-WellLinked :
    {size : ℕ} {xs ys : Nodes} → SameLinks xs ys → WellLinked size xs → WellLinked size ys
SameLinks-WellLinked {size} {xs} {ys} same w = record {
  has_root = omega (arith, same.size);
  edge = λ n c k h.
      let e : Edge size xs n c k = w.edge n c k (cc (same.children n, h)) in
      record {
        younger = e.younger;
        exists = omega (arith, same.size, e.exists);
        key = cc (same.tokens c, e.key);
        back = cc (same.parent c, e.back);
        full = e.full;
      };
  older = λ i p h. w.older i p (cc (same.parent i, h));
}

-- A change of counts and times keeps the links.
pub SameLinks-set :
    (nodes : Nodes) (i : ℕ) (n : TrieNode)
    → n.tokens ≡ (node nodes i).tokens
    → n.page ≡ (node nodes i).page
    → n.children ≡ (node nodes i).children
    → n.parent ≡ (node nodes i).parent
    → SameLinks nodes (set nodes i n)
SameLinks-set nodes i n t p c r = record {
  size = length-set nodes i n;
  tokens = λ j. ground (arith, get_or-set_cases nodes i j n (new_node [] 0 none 0));
  page = λ j. ground (arith, get_or-set_cases nodes i j n (new_node [] 0 none 0));
  children = λ j. ground (arith, get_or-set_cases nodes i j n (new_node [] 0 none 0));
  parent = λ j. ground (arith, get_or-set_cases nodes i j n (new_node [] 0 none 0));
}

module _ (self : ℕ) (tokens : List ℕ) (page now : ℕ) (nodes : Nodes)
    (inside : self < length nodes) where
  abbrev child : ℕ
  child = length nodes

  abbrev born : TrieNode
  born = new_node tokens page (some self) now

  abbrev grown : Nodes
  grown = nodes ++ born ∷ []

  length-grown : length grown ≡ suc (length nodes)
  length-grown = omega (arith, length-append nodes (born ∷ []))

  node-grown_self : node grown self ≡ node nodes self
  node-grown_self = ground (arith, get_or-append nodes born self (new_node [] 0 none 0))

  abbrev created : Nodes
  created = (create_child self tokens page now nodes).1

  pub length-create_child : length created ≡ suc (length nodes)
  unfolding create_child
  length-create_child = length-set grown self _ ∙ length-grown

  -- The store after `create_child`, node by node.
  pub node-create_child :
      (j : ℕ)
      → node created j ≡ (
          if self == j
          then with_child (node nodes self) tokens child
          else if j == child
          then born
          else node nodes j)
  unfolding create_child
  node-create_child j =
      rw
        (
          get_or-set grown self j _ (new_node [] 0 none 0) (omega (arith, length-grown)),
          node-grown_self,
        )
        (rw (get_or-append nodes born j (new_node [] 0 none 0)))

  module _ {size : ℕ} (full : length tokens ≡ size) (w : WellLinked size nodes) where
    kept : (n c : ℕ) (k : List ℕ) → Edge size nodes n c k → Edge size created n c k
    kept n c k e = record {
      younger = e.younger;
      exists = omega (arith, length-create_child, e.exists);
      key = ground (arith, node-create_child c, e.key, e.exists);
      back = ground (arith, node-create_child c, e.back, e.exists);
      full = e.full;
    }

    added : (n c : ℕ) (k : List ℕ) → self ≡ n → child ≡ c → tokens ≡ k → Edge size created n c k
    added n c k en ec ek = record {
      younger = omega arith;
      exists = omega (arith, length-create_child);
      key = ground (arith, node-create_child c);
      back = ground (arith, node-create_child c);
      full = rw (← ek) full;
    }

    Edge-create_child :
        (n c : ℕ) (k : List ℕ)
        → Dict.get k (node created n).children ≡ some c
        → Edge size created n c k
    Edge-create_child n c k h = elim (Bool-cases (self == n && list_eq tokens k)) [
      | inl new ↦
          added n c k (ground arith)
            (ground (arith, node-create_child n, get-put tokens k child (node nodes self).children))
            (ground (arith, list_eq_iff tokens k))
      | inr old ↦ kept n c k (
          w.edge n c k (
            ground (
              arith,
              node-create_child n,
              get-put tokens k child (node nodes self).children,
              get-nil {V = ℕ} k,
              get_or_outside nodes child (new_node [] 0 none 0),
            )))
    ]

    -- A new child keeps the links.
    pub create_child-WellLinked : WellLinked size created
    create_child-WellLinked = record {
      has_root = omega (arith, length-create_child);
      edge = Edge-create_child;
      older = λ i p h. ground (arith, node-create_child i, w.older i p);
    }

module _ (self parent : ℕ) (nodes : Nodes) (inside : self < length nodes)
    (before : parent < self) where
  abbrev detached : Nodes
  detached = detach self parent nodes

  abbrev deleted : Nodes
  deleted = set nodes parent (without_child (node nodes parent) (node nodes self).tokens)

  pub length-detach : length detached ≡ length nodes
  unfolding detach
  length-detach = length-set deleted self _ ∙ length-set nodes parent _

  node-deleted :
      (j : ℕ)
      → node deleted j ≡ (
          if parent == j
          then without_child (node nodes parent) (node nodes self).tokens
          else node nodes j)
  node-deleted j = get_or-set nodes parent j _ (new_node [] 0 none 0) (omega arith)

  -- The store after an unlinking, node by node.
  pub node-detach :
      (j : ℕ)
      → node detached j ≡ (
          if self == j
          then orphan (node nodes self)
          else if parent == j
          then without_child (node nodes parent) (node nodes self).tokens
          else node nodes j)
  unfolding detach
  node-detach j =
      rw
        (get_or-set deleted self j _ (new_node [] 0 none 0) (
          omega (
            arith,
            length-set nodes parent (without_child (node nodes parent) (node nodes self).tokens),
          )))
        (ground (arith, node-deleted j, node-deleted self))

  module _ {size : ℕ} (w : WellLinked size nodes)
      (child : (node nodes self).parent ≡ some parent) where
    -- An edge that survives does not lead to the unlinked node.
    survives : (n c : ℕ) (k : List ℕ) → Edge size nodes n c k → self ≢ c → Edge size detached n c k
    survives n c k e other = record {
      younger = e.younger;
      exists = omega (arith, length-detach, e.exists);
      key = ground (arith, node-detach c, e.key, other);
      back = ground (arith, node-detach c, e.back, other);
      full = e.full;
    }

    was_edge :
        (n c : ℕ) (k : List ℕ)
        → Dict.get k (node detached n).children ≡ some c
        → Dict.get k (node nodes n).children ≡ some c
    was_edge n c k h =
        ground
          (arith, node-detach n, get-remove (node nodes self).tokens k (node nodes parent).children)

    Edge-detach :
        (n c : ℕ) (k : List ℕ)
        → Dict.get k (node detached n).children ≡ some c
        → Edge size detached n c k
    Edge-detach n c k h =
        let e : Edge size nodes n c k = w.edge n c k (was_edge n c k h) in
        survives n c k e λ same. ground (
          arith,
          node-detach n,
          get-remove (node nodes self).tokens k (node nodes parent).children,
          list_eq_iff (node nodes self).tokens k,
          e.back,
          e.key,
        )

    -- An unlinked node leaves the links of the others as they are.
    pub detach-WellLinked : WellLinked size detached
    detach-WellLinked = record {
      has_root = omega (arith, length-detach);
      edge = Edge-detach;
      older = λ i p h. ground (arith, node-detach i, w.older i p);
    }
