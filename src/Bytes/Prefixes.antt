-- ===== src/Bytes/Prefixes.antt =====
-- strings.HasPrefix against the order of strings: what has a prefix stands together.
use ntee_db.Base.{◌≡◌, refl, true, false, [], ◌∷◌, arith}
use ntee_db.Bytes.{Bytes, bytes_less, has_prefix}

-- What is below a prefix does not have it.
pub has_prefix_below : (p x : Bytes) → bytes_less x p ≡ true → has_prefix x p ≡ false
unfolding bytes_less has_prefix
has_prefix_below [] [] h = ground arith
has_prefix_below [] (a ∷ x) h = ground arith
has_prefix_below (c ∷ p) [] h = refl
has_prefix_below (c ∷ p) (a ∷ x) h = ground (arith, has_prefix_below p x)

-- Behind the first that does not have it, none has.
pub has_prefix_above :
    (p x y : Bytes)
    → bytes_less x p ≡ false
    → has_prefix x p ≡ false
    → bytes_less x y ≡ true
    → has_prefix y p ≡ false
unfolding bytes_less has_prefix
has_prefix_above [] x y h k l = ground arith
has_prefix_above (c ∷ p) [] y h k l = ground arith
has_prefix_above (c ∷ p) (a ∷ x) [] h k l = refl
has_prefix_above (c ∷ p) (a ∷ x) (b ∷ y) h k l = ground (arith, has_prefix_above p x y)
