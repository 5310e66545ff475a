-- ===== src/Index/Keys.antt =====
-- What a record of the log does to the keys of the store.
use ntee_db.Base.{
  ℕ, ◌≡◌, refl, ap, true, if◌then◌else◌, [], ◌∷◌, none, some, Option-cases, inl, inr, arith,
}
use ntee_db.Base.Int.{ℤ}
use ntee_db.Bytes.{Bytes, bytes_eq}
use ntee_db.Bytes.Laws.{bytes_eq_refl, bytes_eq→eq}
use ntee_db.Record.{IndexValues}
use ntee_db.PkIndex
use ntee_db.PkIndex.{PkEntry, inherits}
use ntee_db.PkIndex.Laws.{with_ix, get-set_ix, get-upsert, get-remove}
use ntee_db.Index.{Trees, Index, retract_sec, refresh_sec, delete_key, put_key}
use ntee_db.Index.View.{IsTrees}

-- The entry of a key after its record was put.
abbrev pub put_entry : Bytes → ℕ → ℕ → ℤ → IndexValues → PkEntry
put_entry key off n exp ix = record { key = key; off = off; n = n; ix = ix; exp = exp }

module _ (trees : Trees) (law : IsTrees trees) where
  get_same_key :
      (idx : Index trees) (j key : Bytes)
      → bytes_eq j key ≡ true
      → PkIndex.get trees.pk idx.pk j ≡ PkIndex.get trees.pk idx.pk key
  get_same_key idx j key h = ap (PkIndex.get trees.pk idx.pk) (bytes_eq→eq j key h)

  get-retract_sec :
      (key : Bytes) (idx : Index trees) (j : Bytes)
      → PkIndex.get trees.pk (retract_sec trees key idx).pk j ≡ (
          if bytes_eq j key
          then with_ix [] (PkIndex.get trees.pk idx.pk key)
          else PkIndex.get trees.pk idx.pk j)
  unfolding retract_sec
  get-retract_sec key idx j = elim (Option-cases (PkIndex.get trees.pk idx.pk key)) [
    | inl miss ↦ ground (arith, get_same_key idx j key)
    | inr (e, hit) ↦ found e.ix e hit refl
  ]
    where
      found :
          (ix : IndexValues) (e : PkEntry)
          → PkIndex.get trees.pk idx.pk key ≡ some e
          → e.ix ≡ ix
          → PkIndex.get trees.pk (retract_sec trees key idx).pk j ≡ (
              if bytes_eq j key
              then with_ix [] (PkIndex.get trees.pk idx.pk key)
              else PkIndex.get trees.pk idx.pk j)
      found [] e hit none_there = ground (arith, get_same_key idx j key)
      found (v ∷ ix) e hit there = ground (arith, get-set_ix trees.pk law.pk idx.pk key [] j)

  get_upserted :
      (key : Bytes) (off n : ℕ) (exp : ℤ) (idx : Index trees) (j : Bytes)
      → PkIndex.get trees.pk
          (retract_sec trees key
            (record idx { pk = PkIndex.upsert trees.pk idx.pk (put_entry key off n exp []) })).pk
          j
        ≡ (if bytes_eq j key
            then some (put_entry key off n exp [])
            else PkIndex.get trees.pk idx.pk j)
  get_upserted key off n exp idx j = ground (
    arith,
    get-retract_sec key
        (record idx { pk = PkIndex.upsert trees.pk idx.pk (put_entry key off n exp []) }) j,
    get-upsert trees.pk law.pk idx.pk (put_entry key off n exp []) j,
    get-upsert trees.pk law.pk idx.pk (put_entry key off n exp []) key,
    bytes_eq_refl key,
  )

  -- After a record that puts a key, that key has the entry with the record's offset, length,
  -- expiry and index values, and every other key has the entry that it had.
  pub get-put_key :
      (key : Bytes) (off n : ℕ) (exp : ℤ) (ix : IndexValues) (idx : Index trees) (j : Bytes)
      → PkIndex.get trees.pk (put_key trees key off n exp ix idx).pk j ≡ (
          if bytes_eq j key
          then some (put_entry key off n exp ix)
          else PkIndex.get trees.pk idx.pk j)
  unfolding put_key refresh_sec
  get-put_key key off n exp [] idx j = get_upserted key off n exp idx j
  get-put_key key off n exp (v ∷ ix) idx j = ground (
    arith,
    get-set_ix trees.pk law.pk
        (retract_sec trees key
          (record idx { pk = PkIndex.upsert trees.pk idx.pk (put_entry key off n exp []) })).pk
        key (v ∷ ix) j,
    get_upserted key off n exp idx j,
    get_upserted key off n exp idx key,
    bytes_eq_refl key,
  )

  -- After a tombstone, its key has no entry, and every other key has the entry that it had.
  pub get-delete_key :
      (key : Bytes) (idx : Index trees) (j : Bytes)
      → PkIndex.get trees.pk (delete_key trees key idx).pk j
        ≡ (if bytes_eq j key then none else PkIndex.get trees.pk idx.pk j)
  unfolding delete_key
  get-delete_key key idx j = ground (
    arith,
    get-remove trees.pk law.pk (retract_sec trees key idx).pk key j,
    get-retract_sec key idx j,
  )
