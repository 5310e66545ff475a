-- ===== src/Index/Appending.antt =====
-- What a record of a new key, above all the others, adds to the indexes.
use ntee_db.Base.{ℕ, ◌≡◌, refl, ap, ◌∙◌, true, false, none, some, List, [], ◌∷◌, ◌++◌, arith}
use ntee_db.Base.Int.{ℤ}
use ntee_db.Bytes.{Bytes}
use ntee_db.Order.{Order, less_asym}
use ntee_db.Btree.{find, put, All}
use ntee_db.Record.{IndexValues}
use ntee_db.PkIndex
use ntee_db.PkIndex.{PkEntry, pk_order, key_only}
use ntee_db.Index.{
  Trees, Index, SecIndexes, retract_entry, retract_sec, refresh_sec, put_key, insert_sec,
  rebuild_from,
}
use ntee_db.Index.View.{IsTrees}
use ntee_db.Index.Keys.{put_entry}

module _ {A : Type 0} (o : Order A) where
  pub put_last :
      (a : A) (xs : List A) → All (λ x. o.less x a ≡ true) xs → put o.less a xs ≡ xs ++ a ∷ []
  unfolding put
  put_last a [] below = refl
  put_last a (x ∷ xs) below = ground (arith, less_asym o x a below.0, put_last a xs below.1)

  put_over :
      (a b : A) (xs : List A)
      → o.less a b ≡ false
      → o.less b a ≡ false
      → All (λ x. o.less x a ≡ true) xs
      → put o.less a (xs ++ b ∷ []) ≡ xs ++ a ∷ []
  unfolding put
  put_over a b [] h k below = ground arith
  put_over a b (x ∷ xs) h k below =
      ground (arith, less_asym o x a below.0, put_over a b xs h k below.1)

  find_absent : (a : A) (xs : List A) → All (λ x. o.less x a ≡ true) xs → find o.less a xs ≡ none
  unfolding find
  find_absent a [] below = refl
  find_absent a (x ∷ xs) below = ground (arith, find_absent a xs below.1)

  find_last :
      (a b : A) (xs : List A)
      → o.less a b ≡ false
      → o.less b a ≡ false
      → All (λ x. o.less x a ≡ true) xs
      → find o.less a (xs ++ b ∷ []) ≡ some b
  unfolding find
  find_last a b [] h k below = ground arith
  find_last a b (x ∷ xs) h k below = ground (arith, find_last a b xs h k below.1)

pub rebuild_from-append :
    (trees : Trees) (xs : List PkEntry) (e : PkEntry) (sec : SecIndexes trees)
    → rebuild_from trees (xs ++ e ∷ []) sec
      ≡ insert_sec trees e.key e.ix (rebuild_from trees xs sec)
unfolding rebuild_from
rebuild_from-append trees [] e sec = refl
rebuild_from-append trees (x ∷ xs) e sec =
    rebuild_from-append trees xs e (insert_sec trees x.key x.ix sec)

module _ (trees : Trees) (law : IsTrees trees) (key : Bytes) (off n : ℕ) (exp : ℤ)
    (idx : Index trees)
    (below : All (λ x. pk_order.less x (key_only key) ≡ true) (trees.pk.scan idx.pk)) where
  abbrev blank_entry : PkEntry
  blank_entry = put_entry key off n exp []

  abbrev upserted : Index trees
  upserted = record idx { pk = PkIndex.upsert trees.pk idx.pk blank_entry }

  scan-upserted : trees.pk.scan upserted.pk ≡ trees.pk.scan idx.pk ++ blank_entry ∷ []
  unfolding PkIndex.upsert
  scan-upserted =
      ap (λ o. trees.pk.scan (trees.pk.set idx.pk (PkIndex.inherits o blank_entry)))
        (law.pk.get-scan idx.pk blank_entry ∙ find_absent pk_order blank_entry _ below)
      ∙ law.pk.scan-set idx.pk blank_entry
      ∙ put_last pk_order blank_entry _ below

  get-upserted : PkIndex.get trees.pk upserted.pk key ≡ some blank_entry
  unfolding PkIndex.get
  get-upserted =
      law.pk.get-scan upserted.pk (key_only key)
      ∙ ap (find pk_order.less (key_only key)) scan-upserted
      ∙ find_last pk_order (key_only key) blank_entry _ (pk_order.irrefl blank_entry)
          (pk_order.irrefl blank_entry) below

  retracted : retract_sec trees key upserted ≡ upserted
  unfolding retract_sec
  retracted = ap (retract_entry trees key upserted) get-upserted

  scan-set_ix :
      (ix : IndexValues)
      → trees.pk.scan (PkIndex.set_ix trees.pk upserted.pk key ix)
        ≡ trees.pk.scan idx.pk ++ put_entry key off n exp ix ∷ []
  unfolding PkIndex.set_ix PkIndex.get
  scan-set_ix ix =
      rw (get-upserted, PkIndex.set_ix)
        (law.pk.scan-set upserted.pk (put_entry key off n exp ix)
          ∙ ap (put pk_order.less (put_entry key off n exp ix)) scan-upserted
          ∙ put_over pk_order (put_entry key off n exp ix) blank_entry _
              (pk_order.irrefl blank_entry) (pk_order.irrefl blank_entry) below)

  pub scan-put_new :
      (ix : IndexValues)
      → trees.pk.scan (put_key trees key off n exp ix idx).pk
        ≡ trees.pk.scan idx.pk ++ put_entry key off n exp ix ∷ []
  unfolding put_key refresh_sec
  scan-put_new [] = ap (λ i. trees.pk.scan i.pk) retracted ∙ scan-upserted
  scan-put_new (v ∷ ix) =
      ap (λ i. trees.pk.scan (PkIndex.set_ix trees.pk i.pk key (v ∷ ix))) retracted
      ∙ scan-set_ix (v ∷ ix)

  pub sec-put_new :
      (ix : IndexValues)
      → (put_key trees key off n exp ix idx).sec ≡ insert_sec trees key ix idx.sec
  unfolding put_key refresh_sec insert_sec
  sec-put_new [] = ap (λ i. i.sec) retracted
  sec-put_new (v ∷ ix) = ap (λ i. insert_sec trees key (v ∷ ix) i.sec) retracted
