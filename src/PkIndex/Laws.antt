-- ===== src/PkIndex/Laws.antt =====
-- The primary-key index as a map from keys to entries.
use ntee_db.Base.{
  ◌≡◌, refl, ap, sym, ◌∙◌, arith, Option, none, some, if◌then◌else◌, Option-cases, inl, inr,
}
use ntee_db.Order.{same}
use ntee_db.Bytes.{Bytes, bytes_eq}
use ntee_db.Bytes.Laws.{same-eq-bytes_eq, bytes_eq_refl, bytes_eq→eq}
use ntee_db.Btree.{Btree, IsBtree, find}
use ntee_db.Btree.Items.{find-put, find-without, find-same, same-find}
use ntee_db.Record.{IndexValues}
use ntee_db.PkIndex.{PkEntry, pk_order, key_only, get, upsert, set_ix, remove, inherits}

pub same_key : (e f : PkEntry) → same pk_order.less e f ≡ bytes_eq e.key f.key
same_key e f = same-eq-bytes_eq e.key f.key

module _ (b : Btree PkEntry) (law : IsBtree pk_order.less b) (t : b.Tree) where
  -- The tree looks at the key of its probe alone.
  pub get-key_only : (e : PkEntry) → b.get t e ≡ get b t e.key
  unfolding get
  get-key_only e =
      law.get-scan t e
      ∙ find-same pk_order e (key_only e.key) (b.scan t)
          (same_key e (key_only e.key) ∙ bytes_eq_refl e.key)
      ∙ sym (law.get-scan t (key_only e.key))

  -- An entry that is found carries the key that was asked for.
  pub key-get : (key : Bytes) (e : PkEntry) → get b t key ≡ some e → e.key ≡ key
  unfolding get
  key-get key e h = sym (
      bytes_eq→eq key e.key (
        sym (same_key (key_only key) e)
        ∙ same-find pk_order (key_only key) (b.scan t) e (sym (law.get-scan t (key_only key)) ∙ h)))

  -- What is found after a plain Set.
  pub get-set :
      (e : PkEntry) (j : Bytes)
      → get b (b.set t e) j ≡ (if bytes_eq j e.key then some e else get b t j)
  unfolding get
  get-set e j =
      law.get-scan (b.set t e) (key_only j)
      ∙ ap (find pk_order.less (key_only j)) (law.scan-set t e)
      ∙ find-put pk_order (key_only j) e (b.scan t)
      ∙ ground (arith, same_key (key_only j) e, law.get-scan t (key_only j))

  pub get-remove :
      (key j : Bytes) → get b (remove b t key) j ≡ (if bytes_eq j key then none else get b t j)
  unfolding get remove
  get-remove key j =
      law.get-scan (b.delete t (key_only key)) (key_only j)
      ∙ ap (find pk_order.less (key_only j)) (law.scan-delete t (key_only key))
      ∙ find-without pk_order (key_only j) (key_only key) (b.scan t)
      ∙ ground (arith, same_key (key_only j) (key_only key), law.get-scan t (key_only j))

key-inherits : (o : Option PkEntry) (e : PkEntry) → (inherits o e).key ≡ e.key
key-inherits none e = refl
key-inherits (some prev) e = refl

-- The entry that `setIX` leaves.
abbrev pub with_ix : IndexValues → Option PkEntry → Option PkEntry
with_ix ixv none = none
with_ix ixv (some e) = some (record e { ix = ixv })

module _ (b : Btree PkEntry) (law : IsBtree pk_order.less b) (t : b.Tree) where
  -- An upsert gives its key the new place and expiry with the index values that the key had, and
  -- changes no other key.
  pub get-upsert :
      (e : PkEntry) (j : Bytes)
      → get b (upsert b t e) j
        ≡ (if bytes_eq j e.key then some (inherits (get b t e.key) e) else get b t j)
  unfolding upsert
  get-upsert e j =
      get-set b law t (inherits (b.get t e) e) j
      ∙ ground (arith, key-inherits (b.get t e) e, get-key_only b law t e)

  -- SetIX replaces the index values of its key where the key is there, and changes nothing else.
  pub get-set_ix :
      (key : Bytes) (ixv : IndexValues) (j : Bytes)
      → get b (set_ix b t key ixv) j
        ≡ (if bytes_eq j key then with_ix ixv (get b t key) else get b t j)
  unfolding set_ix
  get-set_ix key ixv j = elim (Option-cases (get b t key)) [
    | inl miss ↦ ground (arith, get_at_key, bytes_eq→eq j key)
    | inr (e, hit) ↦
        ground
          (arith, get_at_key, key-get b law t key e hit, get-set b law t (record e { ix = ixv }) j)
  ]
    where
      get_at_key : b.get t (key_only key) ≡ get b t key
      get_at_key = get-key_only b law t (key_only key)
