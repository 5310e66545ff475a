-- ===== src/Btree/Items.antt =====
-- Laws of the items of a tree in order: insertion, removal and search.
use ntee_db.Base.{
  ◌≡◌, refl, true, none, some, List, [], ◌∷◌, ◌++◌, arith, if◌then◌else◌, Bool-cases, inl, inr,
}
use ntee_db.Order.{Order, same, same-same, not_less_less}
use ntee_db.Btree.{find, put, without, All, IsSorted}

pub All-map {ℓ κ λ'} :
    {A : Type ℓ} {P : A → Type κ} {Q : A → Type λ'} (xs : List A)
    → ((a : A) → P a → Q a)
    → All P xs
    → All Q xs
All-map [] f h = tt
All-map (x ∷ xs) f h = (f x h.0, All-map xs f h.1)

pub All-append :
    {A : Type 0} (P : A → Type 0) (xs ys : List A) → All P xs → All P ys → All P (xs ++ ys)
All-append P [] ys h k = k
All-append P (x ∷ xs) ys h k = (h.0, All-append P xs ys h.1 k)

module _ {A : Type 0} (o : Order A) where
  -- A search after an insertion.
  pub find-put :
      (j a : A) (xs : List A)
      → find o.less j (put o.less a xs) ≡ (if same o.less j a then some a else find o.less j xs)
  unfolding find put
  find-put j a [] = refl
  find-put j a (x ∷ xs) = ground (
    arith,
    find-put j a xs,
    same-same o a x j,
    o.cotrans a j x,
    o.cotrans x j a,
    o.cotrans j a x,
    o.cotrans j x a,
  )

  -- A search after a removal.
  pub find-without :
      (j a : A) (xs : List A)
      → find o.less j (without o.less a xs) ≡ (if same o.less j a then none else find o.less j xs)
  unfolding find without
  find-without j a [] = ground arith
  find-without j a (x ∷ xs) =
      ground (arith, find-without j a xs, same-same o a x j, same-same o j a x)

  pub put-All : (P : A → Type 0) (a : A) (xs : List A) → P a → All P xs → All P (put o.less a xs)
  unfolding put
  put-All P a [] p h = (p, tt)
  put-All P a (x ∷ xs) p h = ground (arith, put-All P a xs p h.1)

  pub put-IsSorted : (a : A) (xs : List A) → IsSorted o.less xs → IsSorted o.less (put o.less a xs)
  unfolding put
  put-IsSorted a [] h = (tt, tt)
  put-IsSorted a (x ∷ xs) h = elim (Bool-cases (o.less a x)) [
    | inl lt ↦ rw lt ((lt, All-map xs (λ y. o.trans a x y lt) h.0), h)
    | inr ge ↦ elim (Bool-cases (o.less x a)) [
      | inl gt ↦ rw (ge, gt) (put-All _ a xs gt h.0, put-IsSorted a xs h.1)
      | inr le ↦ rw (ge, le) (All-map xs (λ y. not_less_less o a x y le) h.0, h.1)
    ]
  ]

  pub without-All : (P : A → Type 0) (a : A) (xs : List A) → All P xs → All P (without o.less a xs)
  unfolding without
  without-All P a [] h = tt
  without-All P a (x ∷ xs) h = ground (arith, without-All P a xs h.1)

  pub without-IsSorted :
      (a : A) (xs : List A) → IsSorted o.less xs → IsSorted o.less (without o.less a xs)
  unfolding without
  without-IsSorted a [] h = tt
  without-IsSorted a (x ∷ xs) h =
      ground (arith, without-All (λ y. o.less x y ≡ true) a xs h.0, without-IsSorted a xs h.1)

  -- Probes that are the same find the same.
  pub find-same :
      (a c : A) (xs : List A) → same o.less a c ≡ true → find o.less a xs ≡ find o.less c xs
  unfolding find
  find-same a c [] h = refl
  find-same a c (x ∷ xs) h = ground (arith, find-same a c xs h, same-same o a c x h)

  -- What is found is the same as the probe.
  pub same-find : (a : A) (xs : List A) (x : A) → find o.less a xs ≡ some x → same o.less a x ≡ true
  unfolding find
  same-find a [] x h = ground arith
  same-find a (y ∷ ys) x h = ground (arith, same-find a ys x)
