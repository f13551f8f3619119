-- ===== src/Types/Theta/Selection.antt =====
-- What `select` takes of a dictionary.
use shark_platform.Prelude.{
  ◌≡◌, refl, sym, ◌∙◌, Bool, true, false, not, none, some, list_eq, list_eq_iff, if◌then◌else◌,
  Bool-cases, inl, inr,
}
use shark_platform.Types.Names.{Text}
use shark_platform.Types.Theta.{
  Node, nothing, tensor, dict, Tree, empty, entry, item, set_item, new_prefix, accum, select,
  starts_with,
}
use shark_platform.Types.Theta.Paths.{item-set_item}
use shark_platform.Types.Theta.RoundTrip.{flipped}
use shark_platform.Types.Theta.Leaves.{Distinct}

pub Distinct-set_item : (k : Text) (v : Node) (t : Tree) → Distinct t → Distinct (set_item k v t)
unfolding set_item item
Distinct-set_item k v empty h = (refl, tt)
Distinct-set_item k v (entry j w t) h = elim (Bool-cases (list_eq j k)) [
  | inl e ↦ rw e h
  | inr e ↦ rw e (rw (item-set_item k j v t, flipped j k e) h.0, Distinct-set_item k v t h.1)
]

pub Distinct-accum : (prefix : Text) (t r : Tree) → Distinct r → Distinct (accum prefix t r)
unfolding accum
Distinct-accum prefix empty r h = h
Distinct-accum prefix (entry k (dict s) t) r h =
    Distinct-accum prefix t _ (Distinct-accum (new_prefix prefix k) s r h)
Distinct-accum prefix (entry k nothing t) r h =
    Distinct-accum prefix t _ (Distinct-set_item (new_prefix prefix k) nothing r h)
Distinct-accum prefix (entry k (tensor x) t) r h =
    Distinct-accum prefix t _ (Distinct-set_item (new_prefix prefix k) (tensor x) r h)

-- Whether `select` takes a name.
abbrev pub takes : Bool → Text → Text → Bool
takes with_name name k = if with_name then starts_with name k else not (starts_with name k)

pub item-select :
    (b : Bool) (name k : Text) (t : Tree)
    → item (select b name t) k ≡ (if takes b name k then item t k else none)
unfolding item select
item-select b name k empty = elim (Bool-cases (takes b name k)) [
  | inl e ↦ rw e refl
  | inr e ↦ rw e refl
]
item-select b name k (entry j v t) = elim (Bool-cases (takes b name j)) [
  | inl e ↦ elim (Bool-cases (list_eq j k)) [
    | inl f ↦
        let taken : takes b name k ≡ true = rw (← (list_eq_iff j k).0 f) e in rw (e, f, taken) refl
    | inr f ↦ rw (e, f, item-select b name k t) refl
  ]
  | inr e ↦ elim (Bool-cases (list_eq j k)) [
    | inl f ↦
        let left : takes b name k ≡ false = rw (← (list_eq_iff j k).0 f) e in
        rw (e, item-select b name k t, left) refl
    | inr f ↦ rw (e, item-select b name k t, f) refl
  ]
]

pub Distinct-select : (b : Bool) (name : Text) (t : Tree) → Distinct t → Distinct (select b name t)
unfolding select
Distinct-select b name empty h = tt
Distinct-select b name (entry j v t) h = elim (Bool-cases (takes b name j)) [
  | inl e ↦ rw e (rw (item-select b name j t, e) h.0, Distinct-select b name t h.1)
  | inr e ↦ rw e (Distinct-select b name t h.1)
]

pub select-some :
    (b : Bool) (name k : Text) (t : Tree) (v : Node)
    → item (select b name t) k ≡ some v
    → item t k ≡ some v
select-some b name k t v h = elim (Bool-cases (takes b name k)) [
  | inl e ↦ let there : item t k ≡ some v = sym (rw e at (item-select b name k t)) ∙ h in there
  | inr e ↦ let there : none ≡ some v = sym (rw e at (item-select b name k t)) ∙ h in absurd (cc)
]
