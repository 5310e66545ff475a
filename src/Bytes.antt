-- ===== src/Bytes.antt =====
-- Go strings and byte slices: lists of bytes, compared as Go compares strings.
use ntee_db.Base.{ℕ, Bool, true, false, List, [], ◌∷◌, ltb, if◌then◌else◌, ◌==◌, ◌&&◌}
pub mod Laws
pub mod Prefixes

abbrev pub Bytes : Type 0
Bytes = List ℕ

-- `a < b` on strings.
unfoldable pub bytes_less : Bytes → Bytes → Bool
bytes_less [] [] = false
bytes_less [] (y ∷ ys) = true
bytes_less (x ∷ xs) [] = false
bytes_less (x ∷ xs) (y ∷ ys) = if ltb x y then true else if ltb y x then false else bytes_less xs ys

-- `a == b` on strings.
unfoldable pub bytes_eq : Bytes → Bytes → Bool
bytes_eq [] [] = true
bytes_eq [] (y ∷ ys) = false
bytes_eq (x ∷ xs) [] = false
bytes_eq (x ∷ xs) (y ∷ ys) = x == y && bytes_eq xs ys

-- strings.HasPrefix(s, p)
unfoldable pub has_prefix : Bytes → Bytes → Bool
has_prefix s [] = true
has_prefix [] (y ∷ ys) = false
has_prefix (x ∷ xs) (y ∷ ys) = x == y && has_prefix xs ys
