-- ===== src/SecIndex/Search.antt =====
-- nteedb-core/secindex.go: the bounds of the group of a value.
use ntee_db.Base.{
  ℕ, zero, suc, ◌+◌, ◌/◌, ◌≤◌, ◌<◌, ◌≡◌, refl, ap, sym, ◌∙◌, Bool, true, false, not, ◌||◌, List, [],
  ◌∷◌, length, get_elem?, ltb, if◌then◌else◌, arith,
}
use ntee_db.Bytes.{Bytes, bytes_less}
use ntee_db.Bytes.Laws.{bytes_order, bytes_eq→eq, same-eq-bytes_eq, bytes_less_trans}
use ntee_db.Order.{less_asym}
use ntee_db.Btree.{Btree, IsBtree, IsSorted, All}
use ntee_db.Sort.{search_from, sort_search, sort_search_lem}
use ntee_db.SecIndex
use ntee_db.SecIndex.{
  ValueKind, kind_string, kind_number, SecEntry, SecIndex, sec_less, value_equal, value_greater,
  or_zero, make_entry,
}
use ntee_db.Record.{AnyValue, text, number}
use ntee_db.Result.{ok}
use ntee_db.SecIndex.Order.{sec_order}

-- An entry carries the key that it was made with.
pub pk-make_entry :
    (k : ValueKind) (v : AnyValue) (key : Bytes) (e : SecEntry)
    → make_entry k v key ≡ ok e
    → e.pk ≡ key
unfolding make_entry
pk-make_entry kind_number (number n) key e h = ground arith
pk-make_entry kind_number v key e h = ground arith
pk-make_entry kind_string (text s) key e h = ground arith
pk-make_entry kind_string v key e h = ground arith

-- How many of the entries pass the test.
unfoldable pub rank : (SecEntry → Bool) → List SecEntry → ℕ
rank P [] = 0
rank P (x ∷ xs) = let r = rank P xs in if P x then suc r else r

module _ (less : SecEntry → SecEntry → Bool) (P : SecEntry → Bool)
    (down : (x y : SecEntry) → less x y ≡ true → P y ≡ true → P x ≡ true) where
  pub rank_zero :
      (x : SecEntry) (xs : List SecEntry)
      → All (λ y. less x y ≡ true) xs
      → P x ≡ false
      → rank P xs ≡ 0
  unfolding rank
  rank_zero x [] h p = refl
  rank_zero x (y ∷ ys) h p = ground (arith, down x y h.0, rank_zero x ys h.1 p)

  rank-le : (xs : List SecEntry) → rank P xs ≤ length xs
  unfolding rank
  rank-le [] = omega arith
  rank-le (x ∷ xs) = ground (arith, rank-le xs)

  -- The entries that pass stand before the others.
  test-rank :
      (xs : List SecEntry) (m : ℕ)
      → IsSorted less xs
      → m < length xs
      → P (or_zero (get_elem? xs m)) ≡ ltb m (rank P xs)
  unfolding rank
  test-rank [] m s h = absurd (omega arith)
  test-rank (x ∷ xs) zero s h = ground (arith, rank_zero x xs s.0)
  test-rank (x ∷ xs) (suc m) s h = ground (arith, test-rank xs m s.1, rank_zero x xs s.0)

  search-rank :
      (xs : List SecEntry)
      → IsSorted less xs
      → sort_search (length xs) (λ i. not (P (or_zero (get_elem? xs i)))) ≡ rank P xs
  search-rank xs s =
      sort_search_lem (length xs) _ (rank P xs)
        (λ m h. ground (arith, test-rank xs m s, rank-le xs))
        (λ m h k. ground (arith, test-rank xs m s)) (rank-le xs)

search_from_ext :
    (fuel : ℕ) (f g : ℕ → Bool)
    → ((i : ℕ) → f i ≡ g i)
    → (i j : ℕ) → search_from fuel f i j ≡ search_from fuel g i j
unfolding search_from
search_from_ext zero f g h i j = refl
search_from_ext (suc fuel) f g h i j = ground (
  arith,
  h ((i + j) / 2),
  search_from_ext fuel f g h ((i + j) / 2 + 1) j,
  search_from_ext fuel f g h i ((i + j) / 2),
)

search_ext : (n : ℕ) (f g : ℕ → Bool) → ((i : ℕ) → f i ≡ g i) → sort_search n f ≡ sort_search n g
unfolding sort_search
search_ext n f g h = search_from_ext n f g h 0 n

module _ (kind : ValueKind) (e : SecEntry) where
  pub less_down :
      (x y : SecEntry)
      → sec_less kind x y ≡ true
      → sec_less kind y e ≡ true
      → sec_less kind x e ≡ true
  less_down x y = (sec_order kind).trans x y e

  -- At or below the value of the entry.
  abbrev pub within : SecEntry → Bool
  within x = not (value_greater kind x e)

pub within_down :
    (kind : ValueKind) (e x y : SecEntry)
    → sec_less kind x y ≡ true
    → within kind e y ≡ true
    → within kind e x ≡ true
unfolding sec_less value_greater
within_down kind_number e x y h w = ground arith
within_down kind_string e x y h w =
    ground (arith, bytes_eq→eq x.s y.s, bytes_less_trans e.s x.s y.s)

module _ (trees : ValueKind → Btree SecEntry)
    (law : (k : ValueKind) → IsBtree (sec_less k) (trees k)) (si : SecIndex trees) where
  abbrev items : List SecEntry
  items = (trees si.kind).scan si.tree

  search_items :
      (test : SecEntry → Bool)
      → sort_search (SecIndex.count trees si) (λ i. test (SecIndex.at trees si i))
        ≡ sort_search (length items) (λ i. test (or_zero (get_elem? items i)))
  unfolding SecIndex.count SecIndex.at
  search_items test =
      ap (λ n. sort_search n (λ i. test (SecIndex.at trees si i))) ((law si.kind).len-scan si.tree)
      ∙ search_ext (length items) _ _
          (λ i. ap (λ o. test (or_zero o)) ((law si.kind).at-scan si.tree i))

  pub lower_bound-rank :
      (e : SecEntry) → SecIndex.lower_bound trees si e ≡ rank (λ x. sec_less si.kind x e) items
  unfolding SecIndex.lower_bound
  lower_bound-rank e =
      search_items (λ x. not (sec_less si.kind x e))
      ∙ search-rank (sec_less si.kind) (λ x. sec_less si.kind x e) (less_down si.kind e) items
          ((law si.kind).scan-IsSorted si.tree)

  upper_bound_value-rank :
      (e : SecEntry) → SecIndex.upper_bound_value trees si e ≡ rank (within si.kind e) items
  unfolding SecIndex.upper_bound_value
  upper_bound_value-rank e =
      search_items (λ x. value_greater si.kind x e)
      ∙ search_ext (length items) _ _
          (λ i. not_not (value_greater si.kind (or_zero (get_elem? items i)) e))
      ∙ search-rank (sec_less si.kind) (within si.kind e) (within_down si.kind e) items
          ((law si.kind).scan-IsSorted si.tree)
    where
      not_not : (b : Bool) → b ≡ not (not b)
      not_not true = refl
      not_not false = refl

nothing_below : (b : Bytes) → bytes_less b [] ≡ false
unfolding bytes_less
nothing_below [] = refl
nothing_below (c ∷ b) = refl

-- An entry with no key stands below the group of its value.
pub within_split :
    (kind : ValueKind) (e x : SecEntry)
    → e.pk ≡ []
    → ((within kind e x ≡ (sec_less kind x e || value_equal kind x e))
        × ((sec_less kind x e ≡ true) → value_equal kind x e ≡ false))
unfolding sec_less value_greater value_equal
within_split kind_number e x h =
    (ground (arith, nothing_below x.pk), λ k. ground (arith, nothing_below x.pk))
within_split kind_string e x h = (
  ground (
    arith,
    nothing_below x.pk,
    same-eq-bytes_eq x.s e.s,
    less_asym bytes_order x.s e.s,
    less_asym bytes_order e.s x.s,
  ),
  λ k. ground (arith, nothing_below x.pk),
)

rank_split :
    (kind : ValueKind) (e : SecEntry)
    → e.pk ≡ []
    → (xs : List SecEntry)
    → rank (within kind e) xs
      ≡ rank (λ x. sec_less kind x e) xs + rank (λ x. value_equal kind x e) xs
unfolding rank
rank_split kind e h [] = refl
rank_split kind e h (x ∷ xs) =
    let (both, one) = within_split kind e x h in ground (arith, both, one, rank_split kind e h xs)

-- The two bounds of a value, which binary search finds, stand apart by the number of the entries
-- of that value.
pub upper_bound_value-lower_bound :
    (trees : ValueKind → Btree SecEntry)
    → ((k : ValueKind) → IsBtree (sec_less k) (trees k))
    → (si : SecIndex trees) (probe : SecEntry) → probe.pk ≡ []
    → SecIndex.upper_bound_value trees si probe
      ≡ SecIndex.lower_bound trees si probe
        + rank (λ x. value_equal si.kind x probe) ((trees si.kind).scan si.tree)
upper_bound_value-lower_bound trees law si probe h =
    upper_bound_value-rank trees law si probe
    ∙ rank_split si.kind probe h ((trees si.kind).scan si.tree)
    ∙ ap (λ n. n + rank (λ x. value_equal si.kind x probe) ((trees si.kind).scan si.tree))
        (sym (lower_bound-rank trees law si probe))
