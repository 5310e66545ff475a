-- ===== src/Db/Priors.antt =====
-- nteedb-core/db.go: the entries of meta.json that adoptSchema writes, by their names.
use ntee_db.Base.{
  ◌≡◌, refl, ap, sym, ◌∙◌, Bool, true, false, not, ◌||◌, Option, none, some, List, [], ◌∷◌, ◌++◌,
  arith, Bool-cases, Option-cases, inl, inr, if◌then◌else◌,
}
use mathlib.Core.Path.{subst}
use ntee_db.Bytes.{Bytes, bytes_eq, bytes_less}
use ntee_db.Bytes.Laws.{bytes_eq→eq, same-eq-bytes_eq}
use ntee_db.Btree
use ntee_db.Btree.{All}
use ntee_db.SecIndex.{IndexDef}
use ntee_db.Meta.{MetaIndex}
use ntee_db.Db.Schema.{
  is_member, prior_of, declares, is_complete, declared_entry, adopt_declared, incomplete_names,
  soft_dropped,
}

-- No two indexes have a name, which Open refuses.
abbrev pub Distinct : List IndexDef → Type 0
Distinct [] = Unit
Distinct (d ∷ ds) = (declares ds d.name ≡ false) × Distinct ds

-- The index that is declared with a name.
unfoldable pub definition_of : Bytes → List IndexDef → Option IndexDef
definition_of name [] = none
definition_of name (d ∷ ds) = if bytes_eq d.name name then some d else definition_of name ds

-- The entry of an index that is declared no more.
abbrev pub soft_drop : Option MetaIndex → Option MetaIndex
soft_drop none = none
soft_drop (some mi) = some (record mi { dropped = true })

pub not_declared :
    (name : Bytes) (ds : List IndexDef) → definition_of name ds ≡ none → declares ds name ≡ false
unfolding definition_of declares
not_declared name [] h = refl
not_declared name (d ∷ ds) h = ground (arith, not_declared name ds)

pub is_declared :
    (name : Bytes) (ds : List IndexDef) (d : IndexDef)
    → definition_of name ds ≡ some d
    → (declares ds name ≡ true) × (d.name ≡ name)
unfolding definition_of declares
is_declared name [] d h = absurd (cc)
is_declared name (e ∷ ds) d h = ground (arith, is_declared name ds d, bytes_eq→eq e.name name)

-- Of two lists, the entry of a name that one of them has not.
pub prior_of-left :
    (name : Bytes) (xs ys : List MetaIndex)
    → prior_of name ys ≡ none
    → prior_of name (xs ++ ys) ≡ prior_of name xs
unfolding prior_of
prior_of-left name [] ys h = h
prior_of-left name (x ∷ xs) ys h = ground (arith, prior_of-left name xs ys h)

pub prior_of-right :
    (name : Bytes) (xs ys : List MetaIndex)
    → prior_of name xs ≡ none
    → prior_of name (xs ++ ys) ≡ prior_of name ys
unfolding prior_of
prior_of-right name [] ys h = refl
prior_of-right name (x ∷ xs) ys h = elim (Option-cases (prior_of name xs)) [
  | inl miss ↦ ground (arith, prior_of-right name xs ys miss)
  | inr (mi, hit) ↦ absurd (ground arith)
]

pub prior_of-kept :
    (defs : List IndexDef) (name : Bytes) (ms : List MetaIndex)
    → declares defs name ≡ true
    → prior_of name (soft_dropped defs ms) ≡ none
unfolding prior_of soft_dropped
prior_of-kept defs name [] h = refl
prior_of-kept defs name (m ∷ ms) h = elim (Bool-cases (bytes_eq m.name name)) [
  | inl here ↦
      let same : declares defs m.name ≡ true =
        ap (declares defs) (bytes_eq→eq m.name name here) ∙ h in
      ground (arith, same, prior_of-kept defs name ms h)
  | inr there ↦ ground (arith, prior_of-kept defs name ms h)
]

pub prior_of-gone :
    (defs : List IndexDef) (name : Bytes) (ms : List MetaIndex)
    → declares defs name ≡ false
    → prior_of name (soft_dropped defs ms) ≡ soft_drop (prior_of name ms)
unfolding prior_of soft_dropped
prior_of-gone defs name [] h = refl
prior_of-gone defs name (m ∷ ms) h = elim (Bool-cases (bytes_eq m.name name)) [
  | inl here ↦
      let same : declares defs m.name ≡ false =
        ap (declares defs) (bytes_eq→eq m.name name here) ∙ h in
      elim (Option-cases (prior_of name ms)) [
        | inl miss ↦ ground (arith, same, prior_of-gone defs name ms h)
        | inr (mi, hit) ↦ ground (arith, same, prior_of-gone defs name ms h)
      ]
  | inr there ↦ elim (Option-cases (prior_of name ms)) [
    | inl miss ↦ ground (arith, prior_of-gone defs name ms h)
    | inr (mi, hit) ↦ ground (arith, prior_of-gone defs name ms h)
  ]
]

is_member-put :
    (name n : Bytes) (ns : List Bytes)
    → is_member name (Btree.put bytes_less n ns) ≡ (bytes_eq n name || is_member name ns)
unfolding is_member Btree.put
is_member-put name n [] = refl
is_member-put name n (x ∷ xs) =
    ground (arith, is_member-put name n xs, same-eq-bytes_eq n x, bytes_eq→eq n x)

module _ (had_data : Bool) (prior : List MetaIndex) where
  abbrev pub completeness : IndexDef → Bool
  completeness d = is_complete had_data (prior_of d.name prior) d

  pub undeclared :
      (name : Bytes) (ds : List IndexDef)
      → declares ds name ≡ false
      → (prior_of name (adopt_declared had_data prior ds) ≡ none)
        × (is_member name (incomplete_names (adopt_declared had_data prior ds)) ≡ false)
  unfolding prior_of declares adopt_declared incomplete_names is_member
  undeclared name [] h = (refl, refl)
  undeclared name (d ∷ ds) h =
      let rest = undeclared name ds (ground arith) in
      (
        ground (arith, rest.0),
        ground (
          arith,
          rest.1,
          is_member-put name d.name (incomplete_names (adopt_declared had_data prior ds)),
        ),
      )

  pub adopted :
      (name : Bytes) (ds : List IndexDef) (d : IndexDef)
      → Distinct ds
      → definition_of name ds ≡ some d
      → (prior_of name (adopt_declared had_data prior ds)
          ≡ some (declared_entry d (completeness d)))
        × (is_member name (incomplete_names (adopt_declared had_data prior ds))
            ≡ not (completeness d))
  unfolding prior_of definition_of adopt_declared incomplete_names
  adopted name [] d s h = absurd (cc)
  adopted name (e ∷ ds) d s h = elim (Bool-cases (bytes_eq e.name name)) [
    | inl here ↦
        let same : e ≡ d = ground arith in
        let (none_there, not_there) =
          undeclared name ds (ap (declares ds) (sym (bytes_eq→eq e.name name here)) ∙ s.0) in
        subst
          (λ x.
            (prior_of name (adopt_declared had_data prior (e ∷ ds))
              ≡ some (declared_entry x (completeness x)))
            × (is_member name (incomplete_names (adopt_declared had_data prior (e ∷ ds)))
                ≡ not (completeness x)))
          same
          (
            ground (arith, none_there),
            ground (
              arith,
              not_there,
              is_member-put name e.name (incomplete_names (adopt_declared had_data prior ds)),
            ),
          )
    | inr there ↦
        let rest = adopted name ds d s.1 (ground arith) in
        (
          ground (arith, rest.0),
          ground (
            arith,
            rest.1,
            is_member-put name e.name (incomplete_names (adopt_declared had_data prior ds)),
          ),
        )
  ]
