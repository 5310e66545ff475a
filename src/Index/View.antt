-- ===== src/Index/View.antt =====
-- Two indexes hold the same: the order of their trees' items is all that the store can see of them.
use ntee_db.Base.{
  ◌≡◌, refl, Bool, true, false, if◌then◌else◌, ap, sym, ◌∙◌, [], ◌∷◌, Option-cases, inl, inr, arith,
}
use mathlib.Core.Path.{subst}
use ntee_db.Result.{Result, ok, err}
use ntee_db.Bytes.{Bytes, bytes_eq}
use ntee_db.Btree.{IsBtree, find}
use ntee_db.Record.{AnyValue, IndexValues}
use ntee_db.PkIndex
use ntee_db.PkIndex.{PkEntry, pk_order, key_only, inherits}
use ntee_db.SecIndex
use ntee_db.SecIndex.{ValueKind, SecEntry, SecIndex, make_entry, sec_less}
use ntee_db.Index.{
  Trees, Index, SecIndexes, at_index, with_entry, insert_value, remove_value, insert_sec,
  remove_sec,
}

-- What the trees' documentation promises, of each tree that the store makes.
pub record IsTrees (trees : Trees) : Type 0 where
  pub pk : IsBtree pk_order.less trees.pk
  pub sec : (k : ValueKind) → IsBtree (sec_less k) (trees.sec k)

module _ (trees : Trees) where
  pub record SameSec (a b : SecIndex trees.sec) : Type 0 where
    pub name : a.name ≡ b.name
    pub kind : a.kind ≡ b.kind
    pub max : a.max ≡ b.max
    pub items : (trees.sec a.kind).scan a.tree ≡ (trees.sec b.kind).scan b.tree

  abbrev pub SameSecs : SecIndexes trees → SecIndexes trees → Type 0
  SameSecs [] [] = Unit
  SameSecs [] (b ∷ bs) = ⊥
  SameSecs (a ∷ as') [] = ⊥
  SameSecs (a ∷ as') (b ∷ bs) = SameSec a b × SameSecs as' bs

  pub record SameIndex (a b : Index trees) : Type 0 where
    pub pk : trees.pk.scan a.pk ≡ trees.pk.scan b.pk
    pub sec : SameSecs a.sec b.sec

module _ (trees : Trees) (law : IsTrees trees) where
  pub same_get :
      (a b : trees.pk.Tree) (e : PkEntry)
      → trees.pk.scan a ≡ trees.pk.scan b
      → trees.pk.get a e ≡ trees.pk.get b e
  same_get a b e h = law.pk.get-scan a e ∙ ap (find pk_order.less e) h ∙ sym (law.pk.get-scan b e)

  pub same_set :
      (a b : trees.pk.Tree) (e f : PkEntry)
      → trees.pk.scan a ≡ trees.pk.scan b
      → e ≡ f
      → trees.pk.scan (trees.pk.set a e) ≡ trees.pk.scan (trees.pk.set b f)
  same_set a b e f h p = law.pk.scan-set a e ∙ cc (h, p) ∙ sym (law.pk.scan-set b f)

  pub same_delete :
      (a b : trees.pk.Tree) (e : PkEntry)
      → trees.pk.scan a ≡ trees.pk.scan b
      → trees.pk.scan (trees.pk.delete a e) ≡ trees.pk.scan (trees.pk.delete b e)
  same_delete a b e h = law.pk.scan-delete a e ∙ cc h ∙ sym (law.pk.scan-delete b e)

  pub same_upsert :
      (a b : trees.pk.Tree) (e : PkEntry)
      → trees.pk.scan a ≡ trees.pk.scan b
      → trees.pk.scan (PkIndex.upsert trees.pk a e) ≡ trees.pk.scan (PkIndex.upsert trees.pk b e)
  unfolding PkIndex.upsert
  same_upsert a b e h = same_set a b _ _ h (ap (λ o. inherits o e) (same_get a b e h))

  pub same_set_ix :
      (a b : trees.pk.Tree) (key : Bytes) (ix : IndexValues)
      → trees.pk.scan a ≡ trees.pk.scan b
      → trees.pk.scan (PkIndex.set_ix trees.pk a key ix)
        ≡ trees.pk.scan (PkIndex.set_ix trees.pk b key ix)
  unfolding PkIndex.set_ix
  same_set_ix a b key ix h = elim (Option-cases (trees.pk.get a (key_only key))) [
    | inl miss ↦ ground (arith, same_get a b (key_only key) h)
    | inr (e, hit) ↦ ground (
      arith,
      same_get a b (key_only key) h,
      same_set a b (record e { ix = ix }) (record e { ix = ix }) h refl,
    )
  ]

  SameSec-insert :
      (a b : SecIndex trees.sec) (e : SecEntry)
      → SameSec trees a b
      → SameSec trees (SecIndex.insert trees.sec a e) (SecIndex.insert trees.sec b e)
  unfolding SecIndex.insert
  SameSec-insert a b e s = record {
    name = s.name;
    kind = s.kind;
    max = s.max;
    items =
        (law.sec a.kind).scan-set a.tree e
        ∙ cc (s.items, s.kind)
        ∙ sym ((law.sec b.kind).scan-set b.tree e);
  }

  SameSec-remove :
      (a b : SecIndex trees.sec) (e : SecEntry)
      → SameSec trees a b
      → SameSec trees (SecIndex.remove trees.sec a e) (SecIndex.remove trees.sec b e)
  unfolding SecIndex.remove
  SameSec-remove a b e s = record {
    name = s.name;
    kind = s.kind;
    max = s.max;
    items =
        (law.sec a.kind).scan-delete a.tree e
        ∙ cc (s.items, s.kind)
        ∙ sym ((law.sec b.kind).scan-delete b.tree e);
  }

  same_if :
      (c d : Bool) (xs ys xs' ys' : SecIndexes trees)
      → c ≡ d
      → SameSecs trees xs ys
      → SameSecs trees xs' ys'
      → SameSecs trees (if c then xs else xs') (if d then ys else ys')
  same_if true true xs ys xs' ys' h s t = s
  same_if true false xs ys xs' ys' h s t = cc
  same_if false true xs ys xs' ys' h s t = cc
  same_if false false xs ys xs' ys' h s t = t

  SameSecs-at_index :
      (name : Bytes) (f g : SecIndex trees.sec → SecIndex trees.sec)
      → ((a b : SecIndex trees.sec) → SameSec trees a b → SameSec trees (f a) (g b))
      → (xs ys : SecIndexes trees) → SameSecs trees xs ys
      → SameSecs trees (at_index trees name f xs) (at_index trees name g ys)
  unfolding at_index
  SameSecs-at_index name f g keeps [] [] s = tt
  SameSecs-at_index name f g keeps [] (y ∷ ys) s = absurd s
  SameSecs-at_index name f g keeps (x ∷ xs) [] s = absurd s
  SameSecs-at_index name f g keeps (x ∷ xs) (y ∷ ys) s =
      same_if (bytes_eq x.name name) (bytes_eq y.name name) (f x ∷ xs) (g y ∷ ys)
        (x ∷ at_index trees name f xs) (y ∷ at_index trees name g ys)
        (ap (λ n. bytes_eq n name) s.0.name) (keeps x y s.0, s.1)
        (s.0, SameSecs-at_index name f g keeps xs ys s.1)

  SameSec-with_entry :
      (op : SecIndex trees.sec → SecEntry → SecIndex trees.sec)
      → ((a b : SecIndex trees.sec) (e : SecEntry)
          → SameSec trees a b
          → SameSec trees (op a e) (op b e))
      → (r : Result SecEntry) (a b : SecIndex trees.sec) → SameSec trees a b
      → SameSec trees (with_entry trees op r a) (with_entry trees op r b)
  SameSec-with_entry op keeps (ok e) a b s = keeps a b e s
  SameSec-with_entry op keeps (err x) a b s = s

  SameSec-insert_value :
      (key : Bytes) (val : AnyValue) (a b : SecIndex trees.sec)
      → SameSec trees a b
      → SameSec trees (insert_value trees key val a) (insert_value trees key val b)
  unfolding insert_value
  SameSec-insert_value key val a b s =
      subst
        (λ k.
          SameSec trees (insert_value trees key val a)
            (with_entry trees (SecIndex.insert trees.sec) (make_entry k val key) b))
        s.kind
        (SameSec-with_entry (SecIndex.insert trees.sec) SameSec-insert (make_entry a.kind val key) a
          b s)

  SameSec-remove_value :
      (key : Bytes) (val : AnyValue) (a b : SecIndex trees.sec)
      → SameSec trees a b
      → SameSec trees (remove_value trees key val a) (remove_value trees key val b)
  unfolding remove_value
  SameSec-remove_value key val a b s =
      subst
        (λ k.
          SameSec trees (remove_value trees key val a)
            (with_entry trees (SecIndex.remove trees.sec) (make_entry k val key) b))
        s.kind
        (SameSec-with_entry (SecIndex.remove trees.sec) SameSec-remove (make_entry a.kind val key) a
          b s)

  pub SameSecs-insert_sec :
      (key : Bytes) (ix : IndexValues) (xs ys : SecIndexes trees)
      → SameSecs trees xs ys
      → SameSecs trees (insert_sec trees key ix xs) (insert_sec trees key ix ys)
  unfolding insert_sec
  SameSecs-insert_sec key [] xs ys s = s
  SameSecs-insert_sec key ((name, val) ∷ ix) xs ys s =
      SameSecs-insert_sec key ix _ _
        (SameSecs-at_index name _ _ (SameSec-insert_value key val) xs ys s)

  pub SameSecs-remove_sec :
      (key : Bytes) (ix : IndexValues) (xs ys : SecIndexes trees)
      → SameSecs trees xs ys
      → SameSecs trees (remove_sec trees key ix xs) (remove_sec trees key ix ys)
  unfolding remove_sec
  SameSecs-remove_sec key [] xs ys s = s
  SameSecs-remove_sec key ((name, val) ∷ ix) xs ys s =
      SameSecs-remove_sec key ix _ _
        (SameSecs-at_index name _ _ (SameSec-remove_value key val) xs ys s)
