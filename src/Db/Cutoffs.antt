-- ===== src/Db/Cutoffs.antt =====
-- nteedb-core/rangedel.go: which keys a range delete takes.
use ntee_db.Base.{
  ◌≡◌, refl, ap, sym, ◌∙◌, true, false, none, some, List, [], ◌∷◌, if◌then◌else◌, Bool-cases,
  Option-cases, inl, inr, arith,
}
use ntee_db.Bytes.{Bytes, bytes_less, bytes_eq}
use ntee_db.Bytes.Laws.{bytes_eq_sym, bytes_less_irrefl, bytes_less_trans, bytes_eq→eq}
use ntee_db.Btree.{IsSorted, find, from}
use ntee_db.Btree.{All}
use ntee_db.PkIndex
use ntee_db.PkIndex.{PkEntry, pk_order, key_only}
use ntee_db.PkIndex.Laws.{get-remove, same_key}
use ntee_db.SecIndex.{has_pk}
use ntee_db.Index.View.{IsTrees}
use ntee_db.Db.{Env}
use ntee_db.Db.Ranges.{below, above, remove_keys}

less_of_eq : (k j cutoff : Bytes) → bytes_eq j k ≡ true → bytes_less k cutoff ≡ bytes_less j cutoff
less_of_eq k j cutoff h = ap (λ x. bytes_less x cutoff) (sym (bytes_eq→eq j k h))

greater_of_eq :
    (k j cutoff : Bytes) → bytes_eq j k ≡ true → bytes_less cutoff k ≡ bytes_less cutoff j
greater_of_eq k j cutoff h = ap (bytes_less cutoff) (sym (bytes_eq→eq j k h))

below-has_pk :
    (cutoff j : Bytes) (xs : List PkEntry)
    → bytes_less j cutoff ≡ false
    → has_pk (below cutoff xs) j ≡ false
unfolding has_pk below
below-has_pk cutoff j [] h = refl
below-has_pk cutoff j (x ∷ xs) h =
    ground (arith, below-has_pk cutoff j xs h, less_of_eq x.key j cutoff, bytes_eq_sym j x.key)

above-has_pk :
    (cutoff j : Bytes) (xs : List PkEntry)
    → bytes_less cutoff j ≡ false
    → has_pk (above cutoff xs) j ≡ false
unfolding has_pk above
above-has_pk cutoff j [] h = refl
above-has_pk cutoff j (x ∷ xs) h =
    ground (arith, above-has_pk cutoff j xs h, greater_of_eq x.key j cutoff, bytes_eq_sym j x.key)

-- A key that is found is one of the items.
less_than_found :
    (j k : Bytes) (xs : List PkEntry) (e : PkEntry)
    → All (λ (y : PkEntry). bytes_less k y.key ≡ true) xs
    → find pk_order.less (key_only j) xs ≡ some e
    → bytes_less k j ≡ true
unfolding find
less_than_found j k [] e h f = absurd (cc)
less_than_found j k (x ∷ xs) e h f = elim (Bool-cases (bytes_eq j x.key)) [
  | inl here ↦ ground (arith, greater_of_eq x.key j k, h.0)
  | inr there ↦ less_than_found j k xs e h.1 (ground (arith, same_key (key_only j) x))
]

found-below :
    (cutoff j : Bytes) (xs : List PkEntry) (e : PkEntry)
    → IsSorted pk_order.less xs
    → find pk_order.less (key_only j) xs ≡ some e
    → bytes_less j cutoff ≡ true
    → has_pk (below cutoff xs) j ≡ true
unfolding has_pk below find
found-below cutoff j [] e s f h = absurd (cc)
found-below cutoff j (x ∷ xs) e s f h = elim (Bool-cases (bytes_eq j x.key)) [
  | inl here ↦ ground (arith, less_of_eq x.key j cutoff, bytes_eq_sym j x.key)
  | inr there ↦
      let later : find pk_order.less (key_only j) xs ≡ some e =
        ground (arith, same_key (key_only j) x) in
      ground (
        arith,
        bytes_less_trans x.key j cutoff (less_than_found j x.key xs e s.0 later) h,
        found-below cutoff j xs e s.1 later h,
        bytes_eq_sym j x.key,
      )
]

found-above :
    (cutoff j : Bytes) (xs : List PkEntry) (e : PkEntry)
    → find pk_order.less (key_only j) xs ≡ some e
    → bytes_less cutoff j ≡ true
    → has_pk (above cutoff (from pk_order.less (key_only cutoff) xs)) j ≡ true
unfolding has_pk above find from
found-above cutoff j [] e f h = absurd (cc)
found-above cutoff j (x ∷ xs) e f h = elim (Bool-cases (bytes_eq j x.key)) [
  | inl here ↦ ground (
    arith,
    less_of_eq x.key j cutoff here,
    greater_of_eq x.key j cutoff here,
    bytes_less_trans cutoff j cutoff h,
    bytes_less_irrefl cutoff,
    bytes_eq_sym j x.key,
  )
  | inr there ↦
      let later : find pk_order.less (key_only j) xs ≡ some e =
        ground (arith, same_key (key_only j) x) in
      ground (arith, found-above cutoff j xs e later h, bytes_eq_sym j x.key)
]

module _ (env : Env) (law : IsTrees env.trees) where
  get-remove_keys :
      (keys : List Bytes) (t : env.trees.pk.Tree) (j : Bytes)
      → PkIndex.get env.trees.pk (remove_keys env keys t) j
        ≡ (if has_pk keys j then none else PkIndex.get env.trees.pk t j)
  unfolding remove_keys has_pk
  get-remove_keys [] t j = refl
  get-remove_keys (k ∷ ks) t j =
      get-remove_keys ks (PkIndex.remove env.trees.pk t k) j
      ∙ ground (arith, get-remove env.trees.pk law.pk t k j, bytes_eq_sym k j)

  -- What is found in the tree is found in its items.
  find_of_get :
      (t : env.trees.pk.Tree) (j : Bytes) (e : PkEntry)
      → PkIndex.get env.trees.pk t j ≡ some e
      → find pk_order.less (key_only j) (env.trees.pk.scan t) ≡ some e
  unfolding PkIndex.get
  find_of_get t j e h = sym (law.pk.get-scan t (key_only j)) ∙ h

  pub get-below :
      (cutoff : Bytes) (t : env.trees.pk.Tree) (j : Bytes)
      → PkIndex.get env.trees.pk (remove_keys env (below cutoff (env.trees.pk.scan t)) t) j
        ≡ (if bytes_less j cutoff then none else PkIndex.get env.trees.pk t j)
  get-below cutoff t j = get-remove_keys _ t j ∙ picked
    where
      picked :
          (if has_pk (below cutoff (env.trees.pk.scan t)) j
            then none
            else PkIndex.get env.trees.pk t j)
          ≡ (if bytes_less j cutoff then none else PkIndex.get env.trees.pk t j)
      picked = elim (Option-cases (PkIndex.get env.trees.pk t j)) [
        | inl miss ↦ ground arith
        | inr (e, hit) ↦ ground (
          arith,
          below-has_pk cutoff j (env.trees.pk.scan t),
          found-below cutoff j (env.trees.pk.scan t) e (law.pk.scan-IsSorted t)
              (find_of_get t j e hit),
        )
      ]

  pub get-above :
      (cutoff : Bytes) (t : env.trees.pk.Tree) (j : Bytes)
      → PkIndex.get env.trees.pk
          (remove_keys env (above cutoff (env.trees.pk.ascend t (key_only cutoff))) t)
          j
        ≡ (if bytes_less cutoff j then none else PkIndex.get env.trees.pk t j)
  get-above cutoff t j =
      ap (λ xs. PkIndex.get env.trees.pk (remove_keys env (above cutoff xs) t) j)
        (law.pk.ascend-scan t (key_only cutoff))
      ∙ get-remove_keys _ t j
      ∙ picked
    where
      picked :
          (if has_pk (above cutoff (from pk_order.less (key_only cutoff) (env.trees.pk.scan t))) j
            then none
            else PkIndex.get env.trees.pk t j)
          ≡ (if bytes_less cutoff j then none else PkIndex.get env.trees.pk t j)
      picked = elim (Option-cases (PkIndex.get env.trees.pk t j)) [
        | inl miss ↦ ground arith
        | inr (e, hit) ↦ ground (
          arith,
          above-has_pk cutoff j (from pk_order.less (key_only cutoff) (env.trees.pk.scan t)),
          found-above cutoff j (env.trees.pk.scan t) e (find_of_get t j e hit),
        )
      ]
