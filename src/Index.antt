-- ===== src/Index.antt =====
-- nteedb-core/secindex.go and db.go: the in-memory indexes of the store, and how a record of the
-- log changes them, whether it is written now or replayed at boot.
use ntee_db.Base.{ℕ, Bool, true, false, ◌&&◌, Option, none, some, List, [], ◌∷◌, ltb, if◌then◌else◌}
use ntee_db.Base.Int.{ℤ}
use ntee_db.Bytes.{Bytes, bytes_eq}
use ntee_db.Btree.{Btree}
use ntee_db.Record.{Record, AnyValue, IndexValues, BlobRef, is_tombstone}
use ntee_db.Result.{Result, ok, err}
use ntee_db.MainLog.{Visit, go, stop, add_int32}
use ntee_db.PkIndex
use ntee_db.PkIndex.{PkEntry}
use ntee_db.SecIndex
use ntee_db.SecIndex.{ValueKind, SecEntry, SecIndex, make_entry}
pub mod View
pub mod Replay
pub mod Keys
pub mod Appending
pub mod Shape

-- The trees of the B-tree library that the store makes.
pub record Trees : Type 1 where
  pub pk : Btree PkEntry
  pub sec : ValueKind → Btree SecEntry

module _ (trees : Trees) where
  -- `db.secIndexes`, in the order of the declarations: the set of indexes is fixed when the store
  -- is open, and the names differ.
  abbrev pub SecIndexes : Type 0
  SecIndexes = List (SecIndex trees.sec)

  -- `db.secIndexes[name]`
  unfoldable pub find_sec : Bytes → SecIndexes → Option (SecIndex trees.sec)
  find_sec name [] = none
  find_sec name (si ∷ rest) = if bytes_eq si.name name then some si else find_sec name rest

  -- A change of the index of a name; a name that no index has is skipped.
  unfoldable pub at_index :
      Bytes → (SecIndex trees.sec → SecIndex trees.sec) → SecIndexes → SecIndexes
  at_index name change [] = []
  at_index name change (si ∷ rest) =
      let others = at_index name change rest in
      if bytes_eq si.name name then change si ∷ rest else si ∷ others

  -- `if e, err := si.makeEntry(val, key); err == nil`: a value of the wrong kind is skipped.
  abbrev pub with_entry :
      (SecIndex trees.sec → SecEntry → SecIndex trees.sec)
      → Result SecEntry
      → SecIndex trees.sec
      → SecIndex trees.sec
  with_entry op (ok e) si = op si e
  with_entry op (err _) si = si

  unfoldable pub insert_value : Bytes → AnyValue → SecIndex trees.sec → SecIndex trees.sec
  insert_value key val si = with_entry (SecIndex.insert trees.sec) (make_entry si.kind val key) si

  unfoldable pub remove_value : Bytes → AnyValue → SecIndex trees.sec → SecIndex trees.sec
  remove_value key val si = with_entry (SecIndex.remove trees.sec) (make_entry si.kind val key) si

  unfoldable pub insert_sec : Bytes → IndexValues → SecIndexes → SecIndexes
  insert_sec key [] sec = sec
  insert_sec key ((name, val) ∷ ix) sec =
      insert_sec key ix (at_index name (insert_value key val) sec)

  -- The loop of `retractSec`.
  unfoldable pub remove_sec : Bytes → IndexValues → SecIndexes → SecIndexes
  remove_sec key [] sec = sec
  remove_sec key ((name, val) ∷ ix) sec =
      remove_sec key ix (at_index name (remove_value key val) sec)

  pub record Index : Type 0 where
    pub pk : trees.pk.Tree
    pub sec : SecIndexes

  -- `len(ix) == 0`
  abbrev pub is_empty : IndexValues → Bool
  is_empty [] = true
  is_empty (e ∷ rest) = false

  abbrev pub retract_entry : Bytes → Index → Option PkEntry → Index
  retract_entry key idx none = idx
  retract_entry key idx (some e) =
      if is_empty e.ix
      then idx
      else record { pk = PkIndex.set_ix trees.pk idx.pk key []; sec = remove_sec key e.ix idx.sec }

  unfoldable pub retract_sec : Bytes → Index → Index
  retract_sec key idx = retract_entry key idx (PkIndex.get trees.pk idx.pk key)

  abbrev pub add_values : Bytes → IndexValues → Index → Index
  add_values key ix idx =
      if is_empty ix
      then idx
      else record { pk = PkIndex.set_ix trees.pk idx.pk key ix; sec = insert_sec key ix idx.sec }

  unfoldable pub refresh_sec : Bytes → IndexValues → Index → Index
  unfolding retract_sec
  refresh_sec key ix idx = add_values key ix (retract_sec key idx)

  -- A tombstone retracts, then removes.
  unfoldable pub delete_key : Bytes → Index → Index
  delete_key key idx =
      let idx' = retract_sec key idx in record idx' { pk = PkIndex.remove trees.pk idx'.pk key }

  unfoldable pub put_key : Bytes → ℕ → ℕ → ℤ → IndexValues → Index → Index
  put_key key off n exp ix idx =
      let e : PkEntry = record { key = key; off = off; n = n; ix = []; exp = exp } in
      refresh_sec key ix (record idx { pk = PkIndex.upsert trees.pk idx.pk e })

  -- The size is an int32.
  abbrev pub is_dangling : (ℕ → ℕ) → Option BlobRef → Bool
  is_dangling blob_size none = false
  is_dangling blob_size (some ref) = ltb (blob_size ref.gen) (add_int32 ref.off ref.size)

  -- The callback of `replayTail`; `blob_size` is `blobSizeOf`.
  unfoldable pub replay_record : (ℕ → ℕ) → Index → Record → ℕ → ℕ → Visit Index
  unfolding is_tombstone
  replay_record blob_size idx r off n =
      if is_dangling blob_size r.blob
      then stop
      else if is_tombstone r
      then go (delete_key r.key idx)
      else go (put_key r.key off n r.exp r.ix idx)

  unfoldable pub rebuild_from : List PkEntry → SecIndexes → SecIndexes
  rebuild_from [] sec = sec
  rebuild_from (e ∷ rest) sec = rebuild_from rest (insert_sec e.key e.ix sec)

  unfoldable pub clear : SecIndexes → SecIndexes
  clear [] = []
  clear (si ∷ rest) = record si { tree = (trees.sec si.kind).new } ∷ clear rest

  unfoldable pub rebuild_sec : Index → Index
  unfolding rebuild_from clear
  rebuild_sec idx = record idx { sec = rebuild_from (trees.pk.scan idx.pk) (clear idx.sec) }
