-- ===== src/Bytes/Laws.antt =====
-- The order of Go strings is a strict linear order.
use ntee_db.Base.{◌≡◌, refl, ◌⊎◌, inl, inr, true, false, [], ◌∷◌, arith}
use ntee_db.Order.{Order, same}
use ntee_db.Bytes.{Bytes, bytes_less, bytes_eq}

pub bytes_less_irrefl : (a : Bytes) → bytes_less a a ≡ false
unfolding bytes_less
bytes_less_irrefl [] = refl
bytes_less_irrefl (x ∷ xs) = ground (arith, bytes_less_irrefl xs)

pub bytes_less_trans :
    (a b c : Bytes) → bytes_less a b ≡ true → bytes_less b c ≡ true → bytes_less a c ≡ true
unfolding bytes_less
bytes_less_trans [] [] c h k = ground arith
bytes_less_trans [] (y ∷ ys) [] h k = ground arith
bytes_less_trans [] (y ∷ ys) (z ∷ zs) h k = refl
bytes_less_trans (x ∷ xs) [] c h k = ground arith
bytes_less_trans (x ∷ xs) (y ∷ ys) [] h k = ground arith
bytes_less_trans (x ∷ xs) (y ∷ ys) (z ∷ zs) h k = ground (arith, bytes_less_trans xs ys zs)

pub bytes_less_cotrans :
    (a b c : Bytes) → bytes_less a c ≡ true → (bytes_less a b ≡ true) ⊎ (bytes_less b c ≡ true)
unfolding bytes_less
bytes_less_cotrans [] [] [] h = ground arith
bytes_less_cotrans [] [] (z ∷ zs) h = inr refl
bytes_less_cotrans [] (y ∷ ys) c h = inl refl
bytes_less_cotrans (x ∷ xs) b [] h = ground arith
bytes_less_cotrans (x ∷ xs) [] (z ∷ zs) h = inr refl
bytes_less_cotrans (x ∷ xs) (y ∷ ys) (z ∷ zs) h = ground (arith, bytes_less_cotrans xs ys zs)

-- The order of Go strings.
abbrev pub bytes_order : Order Bytes
bytes_order = record {
  less = bytes_less;
  irrefl = bytes_less_irrefl;
  trans = bytes_less_trans;
  cotrans = bytes_less_cotrans;
}

pub bytes_eq_refl : (a : Bytes) → bytes_eq a a ≡ true
unfolding bytes_eq
bytes_eq_refl [] = refl
bytes_eq_refl (x ∷ xs) = ground (arith, bytes_eq_refl xs)

-- Equality by `==` is equality, and is what neither side of the order tells apart.
pub bytes_eq→eq : (a b : Bytes) → bytes_eq a b ≡ true → a ≡ b
unfolding bytes_eq
bytes_eq→eq [] [] h = refl
bytes_eq→eq [] (y ∷ ys) h = ground arith
bytes_eq→eq (x ∷ xs) [] h = ground arith
bytes_eq→eq (x ∷ xs) (y ∷ ys) h = ground (arith, bytes_eq→eq xs ys)

pub same-eq-bytes_eq : (a b : Bytes) → same bytes_less a b ≡ bytes_eq a b
unfolding bytes_less bytes_eq
same-eq-bytes_eq [] [] = refl
same-eq-bytes_eq [] (y ∷ ys) = refl
same-eq-bytes_eq (x ∷ xs) [] = refl
same-eq-bytes_eq (x ∷ xs) (y ∷ ys) = ground (arith, same-eq-bytes_eq xs ys)

pub bytes_eq_sym : (a b : Bytes) → bytes_eq a b ≡ bytes_eq b a
unfolding bytes_eq
bytes_eq_sym [] [] = refl
bytes_eq_sym [] (y ∷ ys) = refl
bytes_eq_sym (x ∷ xs) [] = refl
bytes_eq_sym (x ∷ xs) (y ∷ ys) = ground (arith, bytes_eq_sym xs ys)
