-- ===== src/SecIndex/Spans.antt =====
-- nteedb-core/secindex.go: the query by a range of values, and the test whether a value is there.
use ntee_db.Base.{
  ◌≡◌, refl, ap, ◌∙◌, Bool, true, false, not, ◌&&◌, List, [], ◌∷◌, arith, Bool-cases, inl, inr,
}
use ntee_db.Bytes.{Bytes}
use ntee_db.Btree.{Btree, IsBtree, IsSorted, All, from}
use ntee_db.Record.{AnyValue}
use ntee_db.Result.{Result, ok}
use ntee_db.SecIndex
use ntee_db.SecIndex.{
  ValueKind, SecEntry, SecIndex, make_entry, sec_less, value_equal, value_greater, group_of, up_to,
}
use ntee_db.SecIndex.Search.{pk-make_entry, within, within_down}
use ntee_db.SecIndex.Queries.{keys_where, equals, query_run}

abbrev pub is_some_key : List Bytes → Bool
is_some_key [] = false
is_some_key (k ∷ ks) = true

-- From one value to another.
abbrev pub spans : ValueKind → SecEntry → SecEntry → SecEntry → Bool
spans kind lo hi x = not (sec_less kind x lo) && within kind hi x

module _ (kind : ValueKind) (lo hi : SecEntry) where
  keys_none_above :
      (x : SecEntry) (xs : List SecEntry)
      → All (λ y. sec_less kind x y ≡ true) xs
      → within kind hi x ≡ false
      → keys_where (spans kind lo hi) xs ≡ []
  unfolding keys_where
  keys_none_above x [] s w = refl
  keys_none_above x (y ∷ ys) s w =
      ground (arith, within_down kind hi x y s.0, keys_none_above x ys s.1 w)

  up_to-from :
      (xs : List SecEntry)
      → IsSorted (sec_less kind) xs
      → up_to kind hi (from (sec_less kind) lo xs) ≡ keys_where (spans kind lo hi) xs
  unfolding up_to from keys_where
  up_to-from [] s = refl
  up_to-from (x ∷ xs) s = elim (Bool-cases (sec_less kind x lo)) [
    | inl low ↦ ground (arith, up_to-from xs s.1)
    | inr high ↦ ground (arith, keys_none_above x xs s.0, up_to-from xs s.1)
  ]

module _ (trees : ValueKind → Btree SecEntry)
    (law : (k : ValueKind) → IsBtree (sec_less k) (trees k)) (si : SecIndex trees) where
  -- The query by a range, of two values of the index's kind, returns the keys of exactly the
  -- entries whose value is not below the first and not above the second, in order.
  pub range_query_lem :
      (lo hi : AnyValue) (lo_e hi_e : SecEntry)
      → make_entry si.kind lo [] ≡ ok lo_e
      → make_entry si.kind hi [] ≡ ok hi_e
      → SecIndex.range_query trees si lo hi
        ≡ ok (keys_where (spans si.kind lo_e hi_e) ((trees si.kind).scan si.tree))
  unfolding SecIndex.range_query
  range_query_lem lo hi lo_e hi_e l h =
      rw (l, h, SecIndex.range_query)
        (ap (λ xs. ok (up_to si.kind hi_e xs)) ((law si.kind).ascend-scan si.tree lo_e)
          ∙ ap ok (up_to-from si.kind lo_e hi_e _ ((law si.kind).scan-IsSorted si.tree)))

  first_is_equal :
      (probe : SecEntry) (run : List SecEntry)
      → elim run as (λ _. Result Bool) [
        | [] ↦ ok false
        | e ∷ rest ↦ ok (value_equal si.kind e probe)
      ]
        ≡ ok (is_some_key (group_of si.kind probe run))
  unfolding group_of
  first_is_equal probe [] = refl
  first_is_equal probe (e ∷ rest) = ground arith

  -- The test whether a value of the index's kind is there holds exactly where the index has an
  -- entry of that value.
  pub exists_lem :
      (val : AnyValue) (probe : SecEntry)
      → make_entry si.kind val [] ≡ ok probe
      → SecIndex.exists trees si val
        ≡ ok (is_some_key (keys_where (equals si.kind probe) ((trees si.kind).scan si.tree)))
  unfolding SecIndex.exists
  exists_lem val probe m =
      rw (m, SecIndex.exists)
        (first_is_equal probe ((trees si.kind).ascend si.tree probe)
          ∙ ap (λ ks. ok (is_some_key ks))
              (query_run trees law si probe (pk-make_entry si.kind val [] probe m)))
