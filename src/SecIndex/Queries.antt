-- ===== src/SecIndex/Queries.antt =====
-- nteedb-core/secindex.go: the query by a value, and its limit.
use ntee_db.Base.{
  ℕ, zero, suc, ◌+◌, ◌^◌, ◌<◌, ◌≡◌, refl, ap, ◌∙◌, Bool, true, false, List, [], ◌∷◌, length, take,
  if◌then◌else◌, arith, Bool-cases, inl, inr,
}
use mathlib.Core.List.{reverse, reverse_aux}
use ntee_db.Base.Int.{ℤ, pos, negsuc, sub64, min_int64, ltb_ℤ, leb_ℤ, wrap64, ◌-ℤ◌}
use ntee_db.Bytes.{Bytes}
use ntee_db.Btree.{Btree, IsBtree, IsSorted, All, from}
use ntee_db.Record.{AnyValue}
use ntee_db.Result.{Result, ok}
use ntee_db.SecIndex
use ntee_db.SecIndex.{
  ValueKind, SecEntry, SecIndex, make_entry, sec_less, value_equal, first_matches, group_of,
  last_matches,
}
use ntee_db.SecIndex.Search.{pk-make_entry, within, within_down, within_split}

-- The keys of the entries that pass the test, in order.
unfoldable pub keys_where : (SecEntry → Bool) → List SecEntry → List Bytes
keys_where P [] = []
keys_where P (x ∷ xs) = let more = keys_where P xs in if P x then x.pk ∷ more else more

-- Whether an entry has the value of the probe.
abbrev pub equals : ValueKind → SecEntry → SecEntry → Bool
equals kind probe x = value_equal kind x probe

module _ (kind : ValueKind) (probe : SecEntry) (h : probe.pk ≡ []) where
  equals-within : (x : SecEntry) → within kind probe x ≡ false → equals kind probe x ≡ false
  equals-within x w = let (both, one) = within_split kind probe x h in ground (arith, both)

  pub keys_none :
      (x : SecEntry) (xs : List SecEntry)
      → All (λ y. sec_less kind x y ≡ true) xs
      → within kind probe x ≡ false
      → keys_where (equals kind probe) xs ≡ []
  unfolding keys_where
  keys_none x [] s w = refl
  keys_none x (y ∷ ys) s w =
      ground (arith, within_down kind probe x y s.0, equals-within y, keys_none x ys s.1 w)

  group_of-from :
      (xs : List SecEntry)
      → IsSorted (sec_less kind) xs
      → group_of kind probe (from (sec_less kind) probe xs) ≡ keys_where (equals kind probe) xs
  unfolding group_of from keys_where
  group_of-from [] s = refl
  group_of-from (x ∷ xs) s =
      let (both, one) = within_split kind probe x h in
      elim (Bool-cases (sec_less kind x probe)) [
        | inl low ↦ ground (arith, one low, group_of-from xs s.1)
        | inr high ↦ ground (arith, both, keys_none x xs s.0, group_of-from xs s.1)
      ]

  first_matches_all :
      (n : ℕ) (xs : List SecEntry) → first_matches kind probe (pos 0) n xs ≡ group_of kind probe xs
  unfolding first_matches group_of
  first_matches_all n [] = refl
  first_matches_all n (x ∷ xs) = ground (arith, first_matches_all (suc n) xs)

  first_matches_some :
      (l n d : ℕ) (xs : List SecEntry)
      → l ≡ n + suc d
      → first_matches kind probe (pos l) n xs ≡ take (suc d) (group_of kind probe xs)
  unfolding first_matches group_of
  first_matches_some l n d [] e = refl
  first_matches_some l n zero (x ∷ xs) e = ground arith
  first_matches_some l n (suc d) (x ∷ xs) e =
      ground (arith, first_matches_some l (suc n) d xs (omega arith))

take_long : (n : ℕ) (xs : List Bytes) → length xs < n → take n xs ≡ xs
take_long zero xs h = absurd (omega arith)
take_long (suc n) [] h = refl
take_long (suc n) (x ∷ xs) h = ap (λ ys. x ∷ ys) (take_long n xs (omega arith))

-- What a limit leaves of a group: the first, or the last in falling order.
abbrev pub limited : ℤ → List Bytes → List Bytes
limited (pos zero) ks = ks
limited (pos (suc l)) ks = take (suc l) ks
limited (negsuc l) ks = take (suc l) (reverse ks)

nonnegative : (n : ℕ) → leb_ℤ (pos 0) (pos n) ≡ true
nonnegative n = ground arith

negative : (l : ℕ) → leb_ℤ (pos 0) (negsuc l) ≡ false
negative l = ground arith

length-reverse : (xs : List Bytes) → length (reverse xs) ≡ length xs
length-reverse xs = aux xs [] ∙ omega arith
  where
    aux : (xs acc : List Bytes) → length (reverse_aux xs acc) ≡ length xs + length acc
    aux [] acc = omega arith
    aux (x ∷ xs) acc = aux xs (x ∷ acc) ∙ omega arith

pub negated : (l : ℕ) → suc l < 2 ^ 63 → sub64 (pos 0) (negsuc l) ≡ pos (suc l)
unfolding wrap64 ◌-ℤ◌
negated l h = ground arith

last_matches_pos :
    (l : ℕ) (grp : List Bytes) → last_matches (pos (suc l)) grp ≡ ok (take (suc l) (reverse grp))
unfolding last_matches
last_matches_pos l grp = ground (arith, length-reverse grp, take_long (suc l) (reverse grp))

last_matches_lem :
    (l : ℕ) (grp : List Bytes)
    → suc l < 2 ^ 63
    → last_matches (sub64 (pos 0) (negsuc l)) grp ≡ ok (take (suc l) (reverse grp))
last_matches_lem l grp h = ap (λ n. last_matches n grp) (negated l h) ∙ last_matches_pos l grp

module _ (trees : ValueKind → Btree SecEntry)
    (law : (k : ValueKind) → IsBtree (sec_less k) (trees k)) (si : SecIndex trees) where
  pub query_run :
      (probe : SecEntry)
      → probe.pk ≡ []
      → group_of si.kind probe ((trees si.kind).ascend si.tree probe)
        ≡ keys_where (equals si.kind probe) ((trees si.kind).scan si.tree)
  query_run probe h =
      ap (group_of si.kind probe) ((law si.kind).ascend-scan si.tree probe)
      ∙ group_of-from si.kind probe h ((trees si.kind).scan si.tree)
          ((law si.kind).scan-IsSorted si.tree)

  -- What follows the Seek.
  answered :
      (probe : SecEntry) (limit : ℤ) (run : List SecEntry)
      → probe.pk ≡ []
      → ltb_ℤ min_int64 limit ≡ true
      → elim run as (λ _. Result (List Bytes)) [
        | [] ↦ ok []
        | e ∷ rest ↦
            if leb_ℤ (pos 0) limit
            then ok (first_matches si.kind probe limit 0 (e ∷ rest))
            else last_matches (sub64 (pos 0) limit) (group_of si.kind probe (e ∷ rest))
      ]
        ≡ ok (limited limit (group_of si.kind probe run))
  unfolding group_of
  answered probe (pos zero) [] h small = refl
  answered probe (pos (suc l)) [] h small = refl
  answered probe (negsuc l) [] h small = refl
  answered probe (pos zero) (e ∷ rest) h small =
      ap ok (first_matches_all si.kind probe h 0 (e ∷ rest))
  answered probe (pos (suc l)) (e ∷ rest) h small =
      rw (nonnegative (suc l))
        (ap ok (first_matches_some si.kind probe h (suc l) 0 l (e ∷ rest) (omega arith)))
  answered probe (negsuc l) (e ∷ rest) h small =
      rw (negative l) (last_matches_lem l (group_of si.kind probe (e ∷ rest)) (ground arith))

  -- The query by a value of the index's kind, with a limit above the least int64, returns the keys
  -- of exactly the entries of that value in order: all for limit 0, the first for a positive
  -- limit, the last in falling order for a negative one.
  pub exact_lem :
      (val : AnyValue) (probe : SecEntry) (limit : ℤ)
      → make_entry si.kind val [] ≡ ok probe
      → ltb_ℤ min_int64 limit ≡ true
      → SecIndex.exact trees si val limit
        ≡ ok (limited limit (keys_where (equals si.kind probe) ((trees si.kind).scan si.tree)))
  unfolding SecIndex.exact
  exact_lem val probe limit m small =
      let h = pk-make_entry si.kind val [] probe m in
      rw (m, SecIndex.exact)
        (answered probe limit ((trees si.kind).ascend si.tree probe) h small
          ∙ ap (λ ks. ok (limited limit ks)) (query_run probe h))
