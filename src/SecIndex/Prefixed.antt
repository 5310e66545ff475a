-- ===== src/SecIndex/Prefixed.antt =====
-- nteedb-core/secindex.go: the query by a prefix, whose limit holds for each value.
use ntee_db.Base.{
  ℕ, zero, suc, ◌≤◌, ◌≡◌, refl, ap, sym, ◌∙◌, true, false, not, List, [], ◌∷◌, ◌++◌, length,
  if◌then◌else◌, Bool-cases, ◌⊎◌, inl, inr, arith,
}
use mathlib.Core.List.{append_assoc}
use mathlib.Core.Path.{subst}
use ntee_db.Base.Int.{ℤ, min_int64, ltb_ℤ}
use ntee_db.Bytes.{Bytes, bytes_less, has_prefix}
use ntee_db.Bytes.Laws.{bytes_eq→eq, bytes_eq_refl, bytes_less_irrefl, same-eq-bytes_eq}
use ntee_db.Bytes.Prefixes.{has_prefix_above}
use ntee_db.Btree.{Btree, IsBtree, All, IsSorted, from}
use ntee_db.Btree.Items.{All-map, All-append}
use ntee_db.Result.{Result, ok, err, wrong_kind}
use ntee_db.SecIndex
use ntee_db.SecIndex.{
  ValueKind, kind_string, kind_number, SecEntry, SecIndex, sec_less, past_group, whole_group,
  group_turn, prefix_loop, some_of_group, skip_tail, past_some,
}
use ntee_db.SecIndex.Queries.{keys_where, limited}
use ntee_db.SecIndex.Groups.{
  probe_of, value_le, in_group, pks, NotBelow, Above, Below, Within, split_group, in_group-Within,
  past_group-Above,
}
use ntee_db.SecIndex.Grouped.{
  has_value, answers, values_with, drop_value, past_group-All, past_group-IsSorted,
  length-past_group, keys_where-group, drop_value_group, values_with_none, values_with-append,
}
use ntee_db.SecIndex.Turns.{turn_lem}
use ntee_db.SecIndex.Sought.{sought, starts}

-- Neither is below the other.
same_value : (a b : Bytes) → bytes_less a b ≡ false → bytes_less b a ≡ false → b ≡ a
same_value a b h k = ground (arith, same-eq-bytes_eq b a, bytes_eq→eq b a)

module _ (trees : ValueKind → Btree SecEntry)
    (law : (k : ValueKind) → IsBtree (sec_less k) (trees k)) (si : SecIndex trees)
    (is_string : si.kind ≡ kind_string) where
  abbrev pub stored : List SecEntry
  stored = (trees si.kind).scan si.tree

  no_prefix_above :
      (p : Bytes) (e : SecEntry) (rest : List SecEntry)
      → bytes_less e.s p ≡ false
      → has_prefix e.s p ≡ false
      → All (λ y. sec_less si.kind e y ≡ true) rest
      → All (λ y. has_prefix y.s p ≡ false) rest
  no_prefix_above p e [] h k s = tt
  no_prefix_above p e (y ∷ ys) h k s =
      (at_or_above (Bool-cases (bytes_less e.s y.s)), no_prefix_above p e ys h k s.1)
    where
      at_or_above :
          (bytes_less e.s y.s ≡ true) ⊎ (bytes_less e.s y.s ≡ false) → has_prefix y.s p ≡ false
      at_or_above (inl l) = has_prefix_above p e.s y.s h k l
      at_or_above (inr l) =
          ap (λ s. has_prefix s p) (same_value e.s y.s l (value_le si.kind e y is_string s.0)) ∙ k

  module _ (p : Bytes) (limit : ℤ) (small : ltb_ℤ min_int64 limit ≡ true) where
    -- Where the loop stands: in front of it are entries of smaller values.
    record Stands (before es : List SecEntry) : Type 0 where
      parts : stored ≡ before ++ es
      sorted : IsSorted (sec_less si.kind) es
      from_prefix : NotBelow p es
      apart : All (λ y. Below y.s before) es

    -- What the head of the loop has behind it.
    Stands-high :
        {before : List SecEntry} (e : SecEntry) (rest : List SecEntry)
        → Stands before (e ∷ rest)
        → NotBelow e.s (e ∷ rest)
    Stands-high e rest st =
        (bytes_less_irrefl e.s, All-map rest (λ y. value_le si.kind e y is_string) st.sorted.0)

    Stands-later :
        (before : List SecEntry) (e : SecEntry) (rest : List SecEntry)
        → Stands before (e ∷ rest)
        → Stands (before ++ in_group e.s (e ∷ rest)) (past_group e.s (e ∷ rest))
    Stands-later before e rest st = record {
      parts =
          st.parts
          ∙ ap (λ xs. before ++ xs) (split_group e.s (e ∷ rest))
          ∙ sym (append_assoc before (in_group e.s (e ∷ rest)) (past_group e.s (e ∷ rest)));
      sorted = past_group-IsSorted si.kind e.s (e ∷ rest) st.sorted;
      from_prefix = past_group-All (λ y. bytes_less y.s p ≡ false) e.s (e ∷ rest) st.from_prefix;
      apart =
          apart_later (past_group e.s (e ∷ rest))
            (past_group-All (λ y. Below y.s before) e.s (e ∷ rest) st.apart)
            (past_group-Above e.s si.kind is_string (e ∷ rest) st.sorted (Stands-high e rest st));
    }
      where
        group_below :
            (y : SecEntry) (g : List SecEntry)
            → Within e.s g
            → bytes_less e.s y.s ≡ true
            → Below y.s g
        group_below y [] w l = tt
        group_below y (x ∷ g) w l = (ap (λ s. bytes_less s y.s) w.0 ∙ l, group_below y g w.1 l)

        apart_later :
            (later : List SecEntry)
            → All (λ y. Below y.s before) later
            → Above e.s later
            → All (λ y. Below y.s (before ++ in_group e.s (e ∷ rest))) later
        apart_later [] b a = tt
        apart_later (y ∷ ys) b a = (
          All-append (λ x. bytes_less x.s y.s ≡ true) before (in_group e.s (e ∷ rest)) b.0
              (group_below y (in_group e.s (e ∷ rest)) (in_group-Within e.s (e ∷ rest)) a.0),
          apart_later ys b.1 a.1,
        )

    past_head :
        (e : SecEntry) (rest : List SecEntry) → past_group e.s (e ∷ rest) ≡ past_group e.s rest
    unfolding past_group
    past_head e rest = ground (arith, bytes_eq_refl e.s)

    values_with_head :
        (before : List SecEntry) (e : SecEntry) (rest : List SecEntry)
        → Stands before (e ∷ rest)
        → has_prefix e.s p ≡ true
        → values_with p (e ∷ rest) ≡ e.s ∷ values_with p (past_group e.s (e ∷ rest))
    unfolding values_with
    values_with_head before e rest st has =
        let later =
          past_group-Above e.s si.kind is_string (e ∷ rest) st.sorted (Stands-high e rest st) in
        rw has (
          ap (λ vs. e.s ∷ vs)
            (ap (λ xs. drop_value e.s (values_with p xs)) (split_group e.s rest)
              ∙ drop_value_group p e.s (in_group e.s rest) (past_group e.s rest)
                  (in_group-Within e.s rest) (subst (Above e.s) (past_head e rest) later)
              ∙ ap (values_with p) (sym (past_head e rest))))

    keys_where_head :
        (before : List SecEntry) (e : SecEntry) (rest : List SecEntry)
        → Stands before (e ∷ rest)
        → keys_where (has_value e.s) stored ≡ pks (in_group e.s (e ∷ rest))
    keys_where_head before e rest st =
        ap (keys_where (has_value e.s))
          (st.parts ∙ ap (λ xs. before ++ xs) (split_group e.s (e ∷ rest)))
        ∙ keys_where-group e.s before (in_group e.s (e ∷ rest)) (past_group e.s (e ∷ rest))
            st.apart.0 (in_group-Within e.s (e ∷ rest))
            (past_group-Above e.s si.kind is_string (e ∷ rest) st.sorted (Stands-high e rest st))

    prefix_loop_lem :
        (fuel : ℕ) (before es : List SecEntry)
        → Stands before es
        → length es ≤ fuel
        → prefix_loop trees si p limit fuel es ≡ answers limit stored (values_with p es)
    unfolding prefix_loop values_with
    prefix_loop_lem fuel before [] st enough = refl
    prefix_loop_lem zero before (e ∷ rest) st enough = absurd (omega arith)
    prefix_loop_lem (suc fuel) before (e ∷ rest) st enough = elim (Bool-cases (has_prefix e.s p)) [
      | inr lacks ↦ rw lacks (
          ap (answers limit stored) (
            sym (
              values_with_none p rest
                (no_prefix_above p e rest st.from_prefix.0 lacks st.sorted.0))))
      | inl has ↦
          let later = past_group e.s (e ∷ rest) in
          ap
            (λ t.
              if not (has_prefix e.s p) then [] else t.0 ++ prefix_loop trees si p limit fuel t.1)
            (turn_lem trees law si is_string e.s before (e ∷ rest) st.parts st.sorted st.apart.0
              (Stands-high e rest st) limit small)
          ∙ ap
              (λ b.
                if not b
                then []
                else limited limit (pks (in_group e.s (e ∷ rest)))
                  ++ prefix_loop trees si p limit fuel later)
              has
          ∙ ap (λ ks. limited limit ks ++ prefix_loop trees si p limit fuel later)
              (sym (keys_where_head before e rest st))
          ∙ ap (λ out. limited limit (keys_where (has_value e.s) stored) ++ out)
              (prefix_loop_lem fuel (before ++ in_group e.s (e ∷ rest)) later
                (Stands-later before e rest st)
                (omega (arith, ap length (past_head e rest), length-past_group e.s rest)))
          ∙ ap (answers limit stored) (sym (values_with_head before e rest st has))
    ]

    -- On a string index and for a limit above the least int64, the query by a prefix returns, for
    -- each distinct value with the prefix in order, the keys of exactly the entries of that value,
    -- within the limit: all for 0, the first ones for a positive limit, the last in falling order
    -- for a negative one.
    pub prefix_lem :
        SecIndex.prefix trees si p limit ≡ ok (answers limit stored (values_with p stored))
    unfolding SecIndex.prefix
    prefix_lem =
        let items = (trees si.kind).ascend si.tree (probe_of p) in
        let found = (law si.kind).ascend-scan si.tree (probe_of p) in
        let (before, parts, sorted, high, below) =
          sought si.kind is_string p stored ((law si.kind).scan-IsSorted si.tree) in
        let es = from (sec_less si.kind) (probe_of p) stored in
        let run : SecIndex.prefix trees si p limit
            ≡ ok (prefix_loop trees si p limit (length items) items) =
          ap
            (λ k. elim k as (λ _. Result (List Bytes)) [
              | kind_number ↦ err wrong_kind
              | kind_string ↦ ok (prefix_loop trees si p limit (length items) items)
            ])
            is_string in
        run
        ∙ ap (λ xs. ok (prefix_loop trees si p limit (length xs) xs)) found
        ∙ ap ok (
            prefix_loop_lem (length es) before es
              (record {
                parts = parts;
                sorted = sorted;
                from_prefix = high;
                apart = starts si.kind is_string p before es below high;
              })
              (omega arith)
            ∙ ap (answers limit stored)
                (sym (values_with-append p before es below) ∙ ap (values_with p) (sym parts)))
