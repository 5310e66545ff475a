-- ===== src/SecIndex/Turns.antt =====
-- nteedb-core/secindex.go: one turn of the loop of `Prefix`, on a sorted rest of the tree.
use ntee_db.Base.{ℕ, zero, suc, ◌≡◌, refl, ap, ◌∙◌, true, false, List, [], ◌++◌, take, arith}
use mathlib.Core.List.{reverse, reverse_aux, reverse_aux-eq}
use ntee_db.Base.Int.{ℤ, pos, negsuc, min_int64, ltb_ℤ, eqb_ℤ}
use ntee_db.Bytes.{Bytes, bytes_eq}
use ntee_db.Btree.{Btree, IsBtree, All, IsSorted, from, back_from}
use ntee_db.Btree.Items.{All-map}
use ntee_db.SecIndex.{
  ValueKind, kind_string, SecEntry, SecIndex, sec_less, past_group, group_turn, some_of_group,
  skip_tail, past_some,
}
use ntee_db.SecIndex.Queries.{limited, negated}
use ntee_db.SecIndex.Groups.{
  next_of, in_group, pks, NotBelow, Above, Below, split_group, in_group-Within, whole_group-pks,
  some_of_group-take, skip_tail-past_some, past_group-Above, from-append, back_from-append,
  above_ne, below_ne,
}
use ntee_db.SecIndex.Grouped.{pks-reverse_aux, reverse_aux-All}

module _ (trees : ValueKind → Btree SecEntry)
    (law : (k : ValueKind) → IsBtree (sec_less k) (trees k)) (si : SecIndex trees)
    (is_string : si.kind ≡ kind_string) where
  abbrev stored : List SecEntry
  stored = (trees si.kind).scan si.tree

  module _ (v : Bytes) (before es : List SecEntry) (parts : stored ≡ before ++ es)
      (sorted : IsSorted (sec_less si.kind) es) (low : Below v before) (high : NotBelow v es) where
    ascend-next : (trees si.kind).ascend si.tree (next_of v) ≡ past_group v es
    ascend-next =
        (law si.kind).ascend-scan si.tree (next_of v)
        ∙ ap (from (sec_less si.kind) (next_of v)) parts
        ∙ from-append v si.kind is_string before es low sorted high

    descend-next :
        (trees si.kind).descend si.tree (next_of v)
        ≡ reverse (in_group v es) ++ reverse_aux before []
    descend-next =
        (law si.kind).descend-scan si.tree (next_of v)
        ∙ ap (back_from (sec_less si.kind) (next_of v) []) parts
        ∙ back_from-append v si.kind is_string [] before es low high
        ∙ reverse_aux-eq (in_group v es) (reverse_aux before [])

    above : Above v (past_group v es)
    above = past_group-Above v si.kind is_string es sorted high

    others : All (λ e. bytes_eq e.s v ≡ false) (past_group v es)
    others = All-map (past_group v es) (λ e. above_ne v e.s) above

    some_first : (n : ℕ) → some_of_group v n es ≡ take n (pks (in_group v es))
    some_first n =
        ap (some_of_group v n) (split_group v es)
        ∙ some_of_group-take v n (in_group v es) (past_group v es) (in_group-Within v es) others

    goes_on : (n : ℕ) → skip_tail v (past_some v n es) (past_group v es) ≡ past_group v es
    goes_on n =
        ap (λ xs. skip_tail v (past_some v n xs) (past_group v es)) (split_group v es)
        ∙ skip_tail-past_some v n (in_group v es) (past_group v es) (in_group-Within v es) others

    some_last :
        (n : ℕ)
        → some_of_group v n ((trees si.kind).descend si.tree (next_of v))
          ≡ take n (reverse (pks (in_group v es)))
    some_last n =
        ap (some_of_group v n) descend-next
        ∙ some_of_group-take v n (reverse (in_group v es)) (reverse_aux before [])
            (reverse_aux-All (λ e. e.s ≡ v) (in_group v es) [] (in_group-Within v es) tt)
            (reverse_aux-All (λ e. bytes_eq e.s v ≡ false) before []
              (All-map before (λ e. below_ne v e.s) low) tt)
        ∙ ap (take n) (pks-reverse_aux (in_group v es) [])

    pub turn_lem :
        (limit : ℤ)
        → ltb_ℤ min_int64 limit ≡ true
        → group_turn trees si limit v es ≡ (limited limit (pks (in_group v es)), past_group v es)
    turn_lem (pos zero) small = ap (λ ks. (ks, past_group v es)) (whole_group-pks v es)
    turn_lem (pos (suc l)) small =
        let some_limit : eqb_ℤ (pos (suc l)) (pos 0) ≡ false = ground arith in
        let ascending : ltb_ℤ (pos 0) (pos (suc l)) ≡ true = ground arith in
        rw (some_limit, ascending)
          (rw (some_first (suc l)) (rw ascend-next (rw (goes_on (suc l)) refl)))
    turn_lem (negsuc l) small =
        let some_limit : eqb_ℤ (negsuc l) (pos 0) ≡ false = ground arith in
        let descending : ltb_ℤ (pos 0) (negsuc l) ≡ false = ground arith in
        rw (some_limit, descending)
          (rw (negated l (ground arith)) (rw ascend-next (rw (some_last (suc l)) refl)))
