-- ===== src/Btree.antt =====
-- github.com/tidwall/btree, which the store calls and does not implement: the operations that it
-- uses on a tree of items, as an interface, and what each does to the items in order.
use ntee_db.Base.{
  ℕ, suc, zero, ◌≡◌, Bool, true, false, not, Option, none, some, List, [], ◌∷◌, length,
  if◌then◌else◌, get_elem?,
}
use ntee_db.Order.{Order, same}
pub mod Items
pub mod Lists

-- The methods of `btree.BTreeG`, over the comparison that the tree was made with.
pub record Btree (A : Type 0) : Type 1 where
  pub Tree : Type 0
  pub new : Tree
  -- What Scan visits, which stops when its callback returns false.
  pub scan : Tree → List A
  pub get : Tree → A → Option A
  pub set : Tree → A → Tree
  pub delete : Tree → A → Tree
  pub load : Tree → A → Tree
  pub len : Tree → ℕ
  -- GetAt
  pub at : Tree → ℕ → Option A
  -- What Ascend visits from a pivot on, and an iterator from the item that Seek finds.
  pub ascend : Tree → A → List A
  -- What Prev visits from there; where Seek finds nothing, what Last and then Prev visit.
  pub descend : Tree → A → List A

-- The item that is the same as `a`.
unfoldable pub find {ℓ} : {A : Type ℓ} → (A → A → Bool) → A → List A → Option A
find less a [] = none
find less a (x ∷ xs) = if same less a x then some x else find less a xs

-- The items in order with `a` in its place, which replaces the item that is the same.
unfoldable pub put {ℓ} : {A : Type ℓ} → (A → A → Bool) → A → List A → List A
put less a [] = a ∷ []
put less a (x ∷ xs) =
    if less a x then a ∷ x ∷ xs else if less x a then x ∷ put less a xs else a ∷ xs

unfoldable pub without {ℓ} : {A : Type ℓ} → (A → A → Bool) → A → List A → List A
without less a [] = []
without less a (x ∷ xs) = let rest = without less a xs in if same less a x then rest else x ∷ rest

-- The items from the first that is not below `a`.
unfoldable pub from {ℓ} : {A : Type ℓ} → (A → A → Bool) → A → List A → List A
from less a [] = []
from less a (x ∷ xs) = let rest = from less a xs in if less x a then rest else x ∷ rest

-- The items below `a`, from the last on, behind those in `acc`.
unfoldable pub back_from {ℓ} : {A : Type ℓ} → (A → A → Bool) → A → List A → List A → List A
back_from less a acc [] = acc
back_from less a acc (x ∷ xs) = if less x a then back_from less a (x ∷ acc) xs else acc

abbrev pub All {ℓ κ} : {A : Type ℓ} → (A → Type κ) → List A → Type κ
All P [] = Unit
All P (x ∷ xs) = P x × All P xs

-- In ascending order, no two the same.
abbrev pub IsSorted {ℓ} : {A : Type ℓ} → (A → A → Bool) → List A → Type 0
IsSorted less [] = Unit
IsSorted less (x ∷ xs) = All (λ y. less x y ≡ true) xs × IsSorted less xs

-- What the documentation of the library promises, for a tree made with `less`.
pub record IsBtree {A : Type 0} (less : A → A → Bool) (b : Btree A) : Type 0 where
  pub scan-new : b.scan b.new ≡ []
  pub scan-set : (t : b.Tree) (a : A) → b.scan (b.set t a) ≡ put less a (b.scan t)
  pub scan-delete : (t : b.Tree) (a : A) → b.scan (b.delete t a) ≡ without less a (b.scan t)
  pub scan-load : (t : b.Tree) (a : A) → b.scan (b.load t a) ≡ put less a (b.scan t)
  pub get-scan : (t : b.Tree) (a : A) → b.get t a ≡ find less a (b.scan t)
  pub len-scan : (t : b.Tree) → b.len t ≡ length (b.scan t)
  pub at-scan : (t : b.Tree) (i : ℕ) → b.at t i ≡ get_elem? (b.scan t) i
  pub ascend-scan : (t : b.Tree) (a : A) → b.ascend t a ≡ from less a (b.scan t)
  pub descend-scan : (t : b.Tree) (a : A) → b.descend t a ≡ back_from less a [] (b.scan t)
  pub scan-IsSorted : (t : b.Tree) → IsSorted less (b.scan t)
