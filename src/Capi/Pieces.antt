-- ===== src/Capi/Pieces.antt =====
-- nteedb-js/capi/exports.go: the values of a batch, laid end to end by the caller.
use ntee_db.Base.{
  ℕ, ◌+◌, ◌<◌, ◌^◌, ◌≡◌, refl, ap, sym, ◌∙◌, Bool, true, false, ◌||◌, List, [], ◌∷◌, ◌++◌, map,
  length, take, drop, if◌then◌else◌, arith, length-append, take_append, drop_append,
}
use mathlib.Core.List.{append_assoc, append-nil}
use ntee_db.Base.Int.{◌+ℤ◌, pos, add64, ltb_ℤ, wrap64, wrap64_id}
use ntee_db.Bytes.{Bytes}
use ntee_db.Result.{panic}
use ntee_db.Record.{IndexValues}
use ntee_db.Db.Batch.{PutItem}
use ntee_db.Capi.Values.{core, length_mismatch, BinItem, made, refused, ◌>>=◌}
use ntee_db.Capi.Batches.{item_of, cut_items}

-- A record as the caller has it.
pub record Piece : Type 0 where
  pub key : Bytes
  pub value : Bytes
  pub ix : IndexValues

abbrev pub meta_of : Piece → BinItem
meta_of p = record { key = p.key; n = pos (length p.value); ix = p.ix }

abbrev pub stored_as : Piece → PutItem
stored_as p = item_of p.key p.value p.ix

-- The values end to end.
abbrev pub block : List Piece → Bytes
block [] = []
block (p ∷ ps) = p.value ++ block ps

end_of : (a b : ℕ) → a + b < 2 ^ 63 → add64 (pos a) (pos b) ≡ pos (a + b)
unfolding ◌+ℤ◌
end_of a b h = ap wrap64 (sum a b) ∙ wrap64_id (pos (a + b)) (ground arith)
  where
    sum : (a b : ℕ) → pos a +ℤ pos b ≡ pos (a + b)
    sum a b = ground arith

-- The guards pass.
passes :
    {A : Type 0} (a b c : Bool) (x y z : A)
    → a ≡ false
    → b ≡ false
    → c ≡ false
    → (if a || b then x else if c then y else z) ≡ z
passes false false false x y z h k l = refl
passes false false true x y z h k l = absurd (cc)
passes false true c x y z h k l = absurd (cc)
passes true b c x y z h k l = absurd (cc)

cut_off :
    (before v after : Bytes) → take (length v) (drop (length before) (before ++ (v ++ after))) ≡ v
cut_off before v after =
    ap (take (length v)) (drop_append before (v ++ after)) ∙ take_append v after

cut_from :
    (ps : List Piece) (before : Bytes)
    → length (before ++ block ps) < 2 ^ 63
    → cut_items (before ++ block ps) (length before) (map meta_of ps) ≡ made (map stored_as ps)
unfolding cut_items
cut_from [] before small = ground (arith, ap length (append-nil before))
cut_from (p ∷ ps) before small =
    let whole : Bytes = before ++ (p.value ++ block ps) in
    let grown : (before ++ p.value) ++ block ps ≡ whole = append_assoc before p.value (block ps) in
    let sizes : length whole ≡ length before + (length p.value + length (block ps)) =
      length-append before (p.value ++ block ps)
      ∙ ap (λ n. length before + n) (length-append p.value (block ps)) in
    let later : cut_items whole (length before + length p.value) (map meta_of ps)
        ≡ made (map stored_as ps) =
      ap (λ b. cut_items b (length before + length p.value) (map meta_of ps)) (sym grown)
      ∙ ap (λ n. cut_items ((before ++ p.value) ++ block ps) n (map meta_of ps))
          (sym (length-append before p.value))
      ∙ cut_from ps (before ++ p.value) (omega (arith, small, ap length grown)) in
    let end = end_of (length before) (length p.value) (omega (arith, small, sizes)) in
    passes (ltb_ℤ (meta_of p).n (pos 0)) _ _ (refused length_mismatch) (refused (core panic)) _
      (ground arith) (ap (ltb_ℤ (pos (length whole))) end ∙ ground (arith, sizes))
      (ap (λ e. ltb_ℤ e (pos 0)) end ∙ ground arith)
    ∙ ap
        (λ items. items >>= λ its.
          made (item_of p.key (take (length p.value) (drop (length before) whole)) p.ix ∷ its))
        later
    ∙ ap (λ v. made (item_of p.key v p.ix ∷ map stored_as ps)) (cut_off before p.value (block ps))

-- The values of records that are laid end to end, in a block shorter than 2 ^ 63 bytes, with their
-- lengths, are cut apart into exactly these records in order.
pub cut_items-block :
    (ps : List Piece)
    → length (block ps) < 2 ^ 63
    → cut_items (block ps) 0 (map meta_of ps) ≡ made (map stored_as ps)
cut_items-block ps small = cut_from ps [] small
