-- ===== src/Ops/Lookup.antt =====
-- What `find_overrides` finds, with its cache, against a search of the registered overrides.
use shark_platform.Prelude.{
  ℕ, ◌≡◌, refl, sym, ap, ◌∙◌, Bool, true, false, Option, some, List, [], ◌∷◌, map, length, ◌==◌,
  if◌then◌else◌, inl, inr, Bool-cases, Option-cases, list_eq, list_eq_iff,
}
use shark_platform.Prelude.Dict
use shark_platform.Prelude.Dict.{get-put}
use shark_platform.Prelude.Exec.{
  Exec, Error, Result, ok, err, attempt, ◌>>=◌, Result-cases, type_error,
}
use shark_platform.Ops.{
  Runtime, TargetOverride, SignatureDispatcher, new_dispatcher, override, ArgSpec, anything,
  of_type, of_expr, accepts, matches_types, matches_spec, match_targets, remember, reversed,
  lookup_targets, find_overrides, type_of_arg,
}
use shark_platform.Ops.Ranking.{ranked, any, ranked-IsSorted, sort-append}

abbrev raised : Result Bool → Bool
raised (ok b) = false
raised (err e) = true

abbrev holds : Result Bool → Bool
holds (ok b) = b
holds (err e) = false

-- The targets of the overrides that pass a test.
unfoldable pub targets : (TargetOverride → Bool) → List TargetOverride → List ℕ
targets p [] = []
targets p (o ∷ os) = let rest = targets p os in if p o then o.target ∷ rest else rest

module _ {V : Type 0} (py : Runtime V) where
  -- Comparing the types raises an exception.
  abbrev pub is_malformed : List ℕ → TargetOverride → Bool
  is_malformed ts o = raised (matches_spec py o o.type_spec ts)

  abbrev pub fits : List ℕ → TargetOverride → Bool
  fits ts o = holds (matches_spec py o o.type_spec ts)

  if-err :
      (b : Bool) (r : Result Bool) {e : Error} → (if b then r else ok false) ≡ err e → r ≡ err e
  if-err true r h = h
  if-err false r h = absurd (cc)

  matches_types-err :
      (o : TargetOverride) (es : List ArgSpec) (ts : List ℕ) {e : Error}
      → matches_types py o es ts ≡ err e
      → e ≡ type_error
  unfolding matches_types
  matches_types-err o [] ts h = absurd (cc)
  matches_types-err o (anything ∷ es) [] h = absurd (cc)
  matches_types-err o (of_type x ∷ es) [] h = absurd (cc)
  matches_types-err o (of_expr x ∷ es) [] h = absurd (cc)
  matches_types-err o (anything ∷ es) (t ∷ ts) h = matches_types-err o es ts h
  matches_types-err o (of_expr x ∷ es) (t ∷ ts) h = cc
  matches_types-err o (of_type x ∷ es) (t ∷ ts) h =
      matches_types-err o es ts (if-err (accepts py o x t) _ h)

  matches_spec-err :
      (o : TargetOverride) (es : List ArgSpec) (ts : List ℕ) {e : Error}
      → matches_spec py o es ts ≡ err e
      → e ≡ type_error
  unfolding matches_spec
  matches_spec-err o (of_expr x ∷ []) ts h = absurd (cc)
  matches_spec-err o (of_expr x ∷ s ∷ es) ts h = cc
  matches_spec-err o [] ts h = matches_types-err o [] ts (if-err (0 == length ts) _ h)
  matches_spec-err o (anything ∷ es) ts h =
      matches_types-err o (anything ∷ es) ts (if-err (length (anything ∷ es) == length ts) _ h)
  matches_spec-err o (of_type x ∷ es) ts h =
      matches_types-err o (of_type x ∷ es) ts (if-err (length (of_type x ∷ es) == length ts) _ h)

  pub match_targets-malformed :
      (ts : List ℕ) (os : List TargetOverride)
      → any (is_malformed ts) os ≡ true
      → match_targets py ts os ≡ err type_error
  unfolding match_targets attempt any
  match_targets-malformed ts [] h = absurd (cc)
  match_targets-malformed ts (o ∷ os) h = elim (Result-cases (matches_spec py o o.type_spec ts)) [
    | inl (b, e) ↦ rw (e, match_targets-malformed ts os (rw e at h)) refl
    | inr (x, e) ↦ rw e (ap err (matches_spec-err o o.type_spec ts e))
  ]

  pub match_targets-fits :
      (ts : List ℕ) (os : List TargetOverride)
      → any (is_malformed ts) os ≡ false
      → match_targets py ts os ≡ ok (targets (fits ts) os)
  unfolding match_targets attempt any targets
  match_targets-fits ts [] h = refl
  match_targets-fits ts (o ∷ os) h = elim (Result-cases (matches_spec py o o.type_spec ts)) [
    | inl (b, e) ↦ rw (e, match_targets-fits ts os (rw e at h)) refl
    | inr (x, e) ↦ absurd (let q : true ≡ false = rw e at h in cc)
  ]

  -- The overrides are kept in order, and what the cache knows is what a search would find.
  pub record IsCoherent (os : List TargetOverride) (d : SignatureDispatcher) : Type 0 where
    pub kept : d.overrides ≡ ranked os
    pub known :
        (ts found : List ℕ)
        → Dict.get ts d.target_cache ≡ some found
        → match_targets py ts (ranked os) ≡ ok found

  -- A computation gives a result, and leaves the dispatcher coherent.
  abbrev pub Answers :
      {A : Type 0} → List TargetOverride → Exec SignatureDispatcher A → Result A → Type 0
  Answers os run r =
      (d : SignatureDispatcher) → IsCoherent os d → ((run d).0 ≡ r) × IsCoherent os (run d).1

  pub Answers-bind :
      {A B : Type 0} (os : List TargetOverride) (first : Exec SignatureDispatcher A)
      (rest : A → Exec SignatureDispatcher B) (r : Result A) (s : A → Result B)
      → Answers os first r
      → ((a : A) → Answers os (rest a) (s a))
      → Answers os (first >>= rest) (attempt r s)
  unfolding ◌>>=◌ attempt
  Answers-bind os first rest (ok a) s h k d c = let (e, c') = h d c in rw e (k a (first d).1 c')
  Answers-bind os first rest (err e) s h k d c = let (e', c') = h d c in rw e' (refl, c')

  pub new-IsCoherent : IsCoherent [] new_dispatcher
  unfolding ranked Dict.get
  new-IsCoherent = record { kept = refl; known = λ ts found h. absurd (cc) }

  pub override-IsCoherent :
      (o : TargetOverride) (os : List TargetOverride) (d : SignatureDispatcher)
      → IsCoherent os d
      → IsCoherent (o ∷ os) (override o d)
  unfolding override ranked Dict.get
  override-IsCoherent o os d c = record {
    kept = rw c.kept (sort-append o (ranked os) (ranked-IsSorted os));
    known = λ ts found h. absurd (cc);
  }

  remember-Answers :
      (ts : List ℕ) (os : List TargetOverride) (r : Result (List ℕ))
      → match_targets py ts (ranked os) ≡ r
      → Answers os (remember py ts r) r
  unfolding remember
  remember-Answers ts os (err e) h d c = (refl, c)
  remember-Answers ts os (ok found) h d c = (
    refl,
    record {
      kept = c.kept;
      known = λ us more k. elim (Bool-cases (list_eq ts us)) [
        | inl y ↦
            let same = (list_eq_iff ts us).0 y in
            let value = rw (get-put ts us found d.target_cache, y) at k in cc
        | inr n ↦ c.known us more (rw (get-put ts us found d.target_cache, n) at k)
      ];
    },
  )

  lookup_targets-Answers :
      (ts : List ℕ) (os : List TargetOverride)
      → Answers os (lookup_targets py ts) (match_targets py ts (ranked os))
  unfolding lookup_targets
  lookup_targets-Answers ts os d c = elim (Option-cases (Dict.get ts d.target_cache)) [
    | inl e ↦
        let kept = ap (match_targets py ts) c.kept in
        let (p, q) = remember-Answers ts os (match_targets py ts d.overrides) (sym kept) d c in
        rw (lookup_targets, e) (p ∙ kept, q)
    | inr (found, e) ↦ rw (lookup_targets, e) (sym (c.known ts found e), c)
  ]

  pub find_overrides-Answers :
      (tensors : List (Option V)) (os : List TargetOverride)
      → Answers os (find_overrides py tensors) (
          attempt
            (match_targets py (map (type_of_arg py) tensors) (ranked os))
            λ found. ok (reversed found))
  unfolding find_overrides
  find_overrides-Answers tensors os =
      Answers-bind os _ _ _ _ (lookup_targets-Answers (map (type_of_arg py) tensors) os)
        λ found d c. (refl, c)
