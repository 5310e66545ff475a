-- ===== src/SecIndex.antt =====
-- nteedb-core/secindex.go: one secondary index, its entries and its queries, over a tree of the
-- B-tree library. The part of the file on the store is modelled in Db.
use ntee_db.Base.{
  ℕ, zero, suc, ◌+◌, Bool, true, false, not, ◌&&◌, Option, none, some, List, [], ◌∷◌, ◌++◌, length,
  take, ltb, ◌==◌, if◌then◌else◌,
}
use mathlib.Core.List.{reverse}
use ntee_db.Base.Int.{ℤ, pos, pos_part, ◌-ℤ◌, ◌+ℤ◌, sub64, ltb_ℤ, leb_ℤ, eqb_ℤ}
use ntee_db.Bytes.{Bytes, bytes_less, bytes_eq, has_prefix}
use ntee_db.Btree.{Btree}
use ntee_db.Record.{AnyValue, text, number, other}
use ntee_db.Result.{Result, ok, err, wrong_kind, panic, ◌>>=◌}
use ntee_db.Sort.{sort_search}
pub mod Order
pub mod Search
pub mod Queries
pub mod Oldest
pub mod Spans
pub mod Groups
pub mod Grouped
pub mod Turns
pub mod Sought
pub mod Prefixed

pub data ValueKind : Type 0 where
  kind_string kind_number : ValueKind

pub record IndexDef : Type 0 where
  pub name : Bytes
  pub kind : ValueKind
  pub extract : Option (Bytes → Bytes → Option AnyValue)
  pub max_per_value : ℤ

-- A string index uses `s` alone, and a number index `f`.
pub record SecEntry : Type 0 where
  pub s : Bytes
  pub f : ℤ
  pub pk : Bytes

-- The cases of numbers of `toFloat` are one constructor here.
unfoldable pub to_float : AnyValue → Option ℤ
to_float (number n) = some n
to_float _ = none

unfoldable pub make_entry : ValueKind → AnyValue → Bytes → Result SecEntry
unfolding to_float
make_entry kind_number val pk = elim (to_float val) [
  | none ↦ err wrong_kind
  | some f ↦ ok (record { s = []; f = f; pk = pk })
]
make_entry kind_string (text s) pk = ok (record { s = s; f = pos 0; pk = pk })
make_entry kind_string _ pk = err wrong_kind

unfoldable pub sec_less : ValueKind → SecEntry → SecEntry → Bool
sec_less kind_number a b = if not (eqb_ℤ a.f b.f) then ltb_ℤ a.f b.f else bytes_less a.pk b.pk
sec_less kind_string a b =
    if not (bytes_eq a.s b.s) then bytes_less a.s b.s else bytes_less a.pk b.pk

unfoldable pub value_equal : ValueKind → SecEntry → SecEntry → Bool
value_equal kind_number a b = eqb_ℤ a.f b.f
value_equal kind_string a b = bytes_eq a.s b.s

unfoldable pub value_greater : ValueKind → SecEntry → SecEntry → Bool
value_greater kind_number a b = ltb_ℤ b.f a.f
value_greater kind_string a b = bytes_less b.s a.s

-- The ascending loop of `exact`: Item and Next from the position that Seek found.
unfoldable pub first_matches : ValueKind → SecEntry → ℤ → ℕ → List SecEntry → List Bytes
first_matches kind probe limit count [] = []
first_matches kind probe limit count (e ∷ rest) =
    let more = first_matches kind probe limit (suc count) rest in
    if not (value_equal kind e probe)
    then []
    else e.pk ∷ (if ltb_ℤ (pos 0) limit && eqb_ℤ (pos (suc count)) limit then [] else more)

-- The loop that collects the whole group.
unfoldable pub group_of : ValueKind → SecEntry → List SecEntry → List Bytes
group_of kind probe [] = []
group_of kind probe (e ∷ rest) =
    let more = group_of kind probe rest in
    if not (value_equal kind e probe) then [] else e.pk ∷ more

-- The last `n` of the group, from the end: a negative `n` is a negative capacity, which panics.
unfoldable pub last_matches : ℤ → List Bytes → Result (List Bytes)
last_matches n grp =
    if ltb_ℤ n (pos 0)
    then err panic
    else if ltb_ℤ (pos (length grp)) n
    then ok (reverse grp)
    else ok (take (pos_part n) (reverse grp))

-- The loop of `rangeQuery`.
unfoldable pub up_to : ValueKind → SecEntry → List SecEntry → List Bytes
up_to kind hi [] = []
up_to kind hi (e ∷ rest) =
    let more = up_to kind hi rest in if value_greater kind e hi then [] else e.pk ∷ more

-- `_, gone := pks[e.pk]`
unfoldable pub has_pk : List Bytes → Bytes → Bool
has_pk [] pk = false
has_pk (k ∷ ks) pk = if bytes_eq k pk then true else has_pk ks pk

-- The entries that `removePKs` collects.
unfoldable pub doomed_entries : List Bytes → List SecEntry → List SecEntry
unfolding has_pk
doomed_entries pks [] = []
doomed_entries pks (e ∷ rest) =
    let more = doomed_entries pks rest in if has_pk pks e.pk then e ∷ more else more

-- The loops of `prefix` in the group of one value: what they collect, and the items that are left.
unfoldable pub whole_group : Bytes → List SecEntry → List Bytes
whole_group v [] = []
whole_group v (e ∷ rest) =
    let more = whole_group v rest in if bytes_eq e.s v then e.pk ∷ more else []

unfoldable pub past_group : Bytes → List SecEntry → List SecEntry
past_group v [] = []
past_group v (e ∷ rest) =
    let later = past_group v rest in if bytes_eq e.s v then later else e ∷ rest

unfoldable pub some_of_group : Bytes → ℕ → List SecEntry → List Bytes
some_of_group v n [] = []
some_of_group v zero (e ∷ rest) = []
some_of_group v (suc n) (e ∷ rest) =
    let more = some_of_group v n rest in if bytes_eq e.s v then e.pk ∷ more else []

unfoldable pub past_some : Bytes → ℕ → List SecEntry → List SecEntry
past_some v n [] = []
past_some v zero (e ∷ rest) = e ∷ rest
past_some v (suc n) (e ∷ rest) =
    let later = past_some v n rest in if bytes_eq e.s v then later else e ∷ rest

-- `if ok && it.Item().s == v { ok = it.Seek(next) }`
abbrev pub skip_tail : Bytes → List SecEntry → List SecEntry → List SecEntry
skip_tail v [] next = []
skip_tail v (e ∷ rest) next = if bytes_eq e.s v then next else e ∷ rest

-- The second result of `GetAt`, which `at` drops, is whether the position is in range.
abbrev pub or_zero : Option SecEntry → SecEntry
or_zero none = record { s = []; f = pos 0; pk = [] }
or_zero (some e) = e

module _ (trees : ValueKind → Btree SecEntry) where
  pub record SecIndex : Type 0 where
    pub name : Bytes
    pub kind : ValueKind
    pub max : ℤ
    pub tree : (trees kind).Tree

  unfoldable pub new_sec_index : IndexDef → SecIndex
  new_sec_index def = record {
    name = def.name;
    kind = def.kind;
    max = def.max_per_value;
    tree = (trees def.kind).new;
  }

  unfoldable pub count : SecIndex → ℕ
  count si = (trees si.kind).len si.tree

  unfoldable pub at : SecIndex → ℕ → SecEntry
  at si i = or_zero ((trees si.kind).at si.tree i)

  unfoldable pub lower_bound : SecIndex → SecEntry → ℕ
  unfolding count at
  lower_bound si e = sort_search (count si) (λ i. not (sec_less si.kind (at si i) e))

  unfoldable pub upper_bound_value : SecIndex → SecEntry → ℕ
  unfolding count at
  upper_bound_value si e = sort_search (count si) (λ i. value_greater si.kind (at si i) e)

  unfoldable pub insert : SecIndex → SecEntry → SecIndex
  insert si e = record si { tree = (trees si.kind).set si.tree e }

  unfoldable pub remove : SecIndex → SecEntry → SecIndex
  remove si e = record si { tree = (trees si.kind).delete si.tree e }

  unfoldable pub remove_all : SecIndex → List SecEntry → SecIndex
  remove_all si [] = si
  remove_all si (e ∷ rest) = remove_all (remove si e) rest

  unfoldable pub remove_pks : SecIndex → List Bytes → SecIndex
  remove_pks si pks = remove_all si (doomed_entries pks ((trees si.kind).scan si.tree))

  -- A Seek that finds nothing returns early.
  unfoldable pub exact : SecIndex → AnyValue → ℤ → Result (List Bytes)
  exact si val limit = do
    probe ← make_entry si.kind val []
    elim ((trees si.kind).ascend si.tree probe) [
      | [] ↦ ok []
      | e ∷ rest ↦
          if leb_ℤ (pos 0) limit
          then ok (first_matches si.kind probe limit 0 (e ∷ rest))
          else last_matches (sub64 (pos 0) limit) (group_of si.kind probe (e ∷ rest))
    ]

  unfoldable pub exists : SecIndex → AnyValue → Result Bool
  exists si val = do
    probe ← make_entry si.kind val []
    elim ((trees si.kind).ascend si.tree probe) [
      | [] ↦ ok false
      | e ∷ rest ↦ ok (value_equal si.kind e probe)
    ]

  unfoldable pub range_query : SecIndex → AnyValue → AnyValue → Result (List Bytes)
  range_query si lo hi = do
    lo_e ← make_entry si.kind lo []
    hi_e ← make_entry si.kind hi []
    ok (up_to si.kind hi_e ((trees si.kind).ascend si.tree lo_e))

  -- Of the items at and behind the iterator: what one turn of the loop of `prefix` collects for the
  -- value `v`, and the items from which the next turn goes on.
  abbrev pub group_turn : SecIndex → ℤ → Bytes → List SecEntry → List Bytes × List SecEntry
  group_turn si limit v items =
      let next : SecEntry = record { s = v ++ 0 ∷ []; f = pos 0; pk = [] } in
      if eqb_ℤ limit (pos 0)
      then (whole_group v items, past_group v items)
      else if ltb_ℤ (pos 0) limit
      then (
        some_of_group v (pos_part limit) items,
        skip_tail v (past_some v (pos_part limit) items) ((trees si.kind).ascend si.tree next),
      )
      else (
        some_of_group v (pos_part (sub64 (pos 0) limit)) ((trees si.kind).descend si.tree next),
        (trees si.kind).ascend si.tree next,
      )

  unfoldable pub prefix_loop : SecIndex → Bytes → ℤ → ℕ → List SecEntry → List Bytes
  prefix_loop si p limit fuel [] = []
  prefix_loop si p limit zero (e ∷ rest) = []
  prefix_loop si p limit (suc fuel) (e ∷ rest) =
      let (out, items) = group_turn si limit e.s (e ∷ rest) in
      let more = prefix_loop si p limit fuel items in
      if not (has_prefix e.s p) then [] else out ++ more

  -- Each turn passes one item at least.
  unfoldable pub prefix : SecIndex → Bytes → ℤ → Result (List Bytes)
  unfolding prefix_loop
  prefix si p limit = elim si.kind [
    | kind_number ↦ err wrong_kind
    | kind_string ↦
        let items = (trees si.kind).ascend si.tree (record { s = p; f = pos 0; pk = [] }) in
        ok (prefix_loop si p limit (length items) items)
  ]

  -- The tests of `wouldSelfEvict` once the group passes the cap.
  unfoldable pub evicts_self : SecIndex → Bytes → ℕ → ℕ → SecEntry → Bool
  evicts_self si key lo hi self =
      let excess = pos hi -ℤ pos lo +ℤ pos 1 -ℤ si.max in
      let i = lower_bound si self in
      if ltb i hi && bytes_eq (at si i).pk key
      then false
      else not (bytes_less (at si (pos_part (pos lo +ℤ excess -ℤ pos 1))).pk key)

  unfoldable pub would_self_evict : SecIndex → AnyValue → Bytes → Result Bool
  unfolding evicts_self
  would_self_evict si val key = if leb_ℤ si.max (pos 0) then ok false else do
    probe ← make_entry si.kind val []
    let lo = lower_bound si probe
    let hi = upper_bound_value si probe
    if leb_ℤ (pos hi -ℤ pos lo +ℤ pos 1 -ℤ si.max) (pos 0)
        then ok false
        else do self ← make_entry si.kind val key; ok (evicts_self si key lo hi self)
