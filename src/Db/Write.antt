-- ===== src/Db/Write.antt =====
-- nteedb-core/secindex.go and db.go: the write path, from the index values of a record to the
-- eviction of what a capped index holds too much of.
use ntee_db.Base.{
  ℕ, zero, suc, ◌+◌, Bool, false, not, ◌&&◌, ◌||◌, none, some, List, [], ◌∷◌, length, ◌==◌,
  if◌then◌else◌,
}
use ntee_db.Base.Int.{ℤ, pos, pos_part, ◌-ℤ◌, ltb_ℤ, leb_ℤ}
use ntee_db.Bytes.{Bytes, bytes_less, bytes_eq}
use ntee_db.Btree
use ntee_db.Result.{Result, ok, err, closed, panic, unknown_index, immediate_value, self_eviction}
use ntee_db.Run.{Run, continue, ◌>>=◌, ◌>>◌, pure, lift}
use ntee_db.Record.{Record, AnyValue, BlobRef, IndexValues, blank}
use ntee_db.Ttl.{resolve_ttl}
use ntee_db.Blob
use ntee_db.Blob.{find_gen, set_gen}
use ntee_db.PkIndex
use ntee_db.SecIndex
use ntee_db.SecIndex.{IndexDef, SecIndex, make_entry}
use ntee_db.Index.{SecIndexes, find_sec, put_key, is_empty}
use ntee_db.Db.{Env, Db, log_append, delete_locked, maybe_write_hint}

-- isObjectValue: the first byte that is not JSON's white space is an opening brace.
unfoldable pub is_object_value : Bytes → Bool
is_object_value [] = false
is_object_value (c ∷ rest) =
    let later = is_object_value rest in
    if c == b' ' || c == 9 || c == 13 || c == 10 then later else c == b'{'

-- `_, done := out[name]` and `out[name] = val`
unfoldable pub has_name : Bytes → IndexValues → Bool
has_name name [] = false
has_name name ((n, v) ∷ rest) = bytes_eq n name || has_name name rest

abbrev pub name_less : Bytes × AnyValue → Bytes × AnyValue → Bool
name_less a b = bytes_less a.0 b.0

abbrev pub set_name : Bytes → AnyValue → IndexValues → IndexValues
set_name name val out = Btree.put name_less (name, val) out

module _ (env : Env) where
  -- The loop over the explicit values.
  unfoldable pub merge_explicit :
      Bytes → SecIndexes env.trees → IndexValues → IndexValues → Result IndexValues
  merge_explicit key sec [] out = ok out
  merge_explicit key sec ((name, val) ∷ rest) out = elim (find_sec env.trees name sec) [
    | none ↦ err unknown_index
    | some si ↦ elim (make_entry si.kind val key) [
      | err e ↦ err e
      | ok _ ↦ merge_explicit key sec rest (set_name name val out)
    ]
  ]

  -- What the Extract function of an index adds, if anything.
  abbrev pub derive :
      Bytes → Bytes → SecIndexes env.trees → IndexDef → IndexValues → Result IndexValues
  derive key value sec def out = elim def.extract [
    | none ↦ ok out
    | some extract ↦ if has_name def.name out then ok out else elim (extract key value) [
      | none ↦ ok out
      | some v ↦ elim (find_sec env.trees def.name sec) [
        | none ↦ err panic
        | some si ↦ elim (make_entry si.kind v key) [
          | err e ↦ err e
          | ok _ ↦ ok (set_name def.name v out)
        ]
      ]
    ]
  ]

  -- The loop over the declared indexes.
  unfoldable pub merge_derived :
      Bytes → Bytes → SecIndexes env.trees → List IndexDef → IndexValues → Result IndexValues
  merge_derived key value sec [] out = ok out
  merge_derived key value sec (def ∷ rest) out = elim (derive key value sec def out) [
    | err e ↦ err e
    | ok out' ↦ merge_derived key value sec rest out'
  ]

  unfoldable pub build_index_values :
      List IndexDef → SecIndexes env.trees → Bytes → Bytes → IndexValues → Result IndexValues
  unfolding is_object_value
  build_index_values defs sec key value explicit =
      if length sec == 0 && is_empty env.trees explicit
      then ok []
      else if not (is_object_value value)
      then (if is_empty env.trees explicit then ok [] else err immediate_value)
      else elim (merge_explicit key sec explicit []) [
        | err e ↦ err e
        | ok out ↦ merge_derived key value sec defs out
      ]

  -- Whether one value of a write evicts the write itself; an error is passed over.
  abbrev pub evicts : SecIndexes env.trees → Bytes → Bytes → AnyValue → Bool
  evicts sec key name val = elim (find_sec env.trees name sec) [
    | none ↦ false
    | some si ↦
        if leb_ℤ si.max (pos 0)
        then false
        else elim (SecIndex.would_self_evict env.trees.sec si val key) [ err _ ↦ false | ok b ↦ b ]
  ]

  unfoldable pub check_self_eviction :
      SecIndexes env.trees → Bytes → IndexValues → Result (Unit {0})
  check_self_eviction sec key [] = ok tt
  check_self_eviction sec key ((name, val) ∷ rest) =
      let more = check_self_eviction sec key rest in
      if evicts sec key name val then err self_eviction else more

  -- useBlobFor
  unfoldable pub use_blob_for : Db env → ℕ → Bool
  use_blob_for db size =
      ltb_ℤ (pos 0) db.opts.blob_threshold && leb_ℤ db.opts.blob_threshold (pos size)

  -- Append, then flush, on the current blob file: the ref with its generation.
  unfoldable pub offload : Bytes → Run (Db env) BlobRef
  offload value db = elim (find_gen db.cur_gen db.blobs) [
    | none ↦ (err panic, db)
    | some b ↦
        let (result, b') = Blob.append b value in
        continue (result, record db { blobs = set_gen db.cur_gen b' db.blobs })
          (λ ref db'.
            let (done, b'') = Blob.flush b' in
            continue (done, record db' { blobs = set_gen db.cur_gen b'' db'.blobs })
              (λ _. pure (record ref { gen = db.cur_gen })))
  ]

  -- The record that is logged: a value that is offloaded leaves its ref.
  abbrev pub inline_record : Bytes → Bytes → IndexValues → ℤ → Bool → Record
  inline_record key value ix exp counter = record (blank key) {
    value = value;
    ix = ix;
    counter = counter;
    exp = exp;
  }

  abbrev pub blob_record : Bytes → BlobRef → IndexValues → ℤ → Record
  blob_record key ref ix exp = record (blank key) { blob = some ref; ix = ix; exp = exp }

  -- The index updates of a record that stands in the log at an offset, with a length.
  abbrev pub remember : Bytes → IndexValues → ℤ → ℕ × ℕ → Run (Db env) (Unit {0})
  remember key ix exp at db =
      (ok tt, record db { index = put_key env.trees key at.0 at.1 exp ix db.index })

  unfoldable pub append_logged : Bytes → Record → IndexValues → ℤ → Bool → Run (Db env) (Unit {0})
  append_logged key r ix exp durable db =
      continue (log_append env r durable db) (remember key ix exp)

  unfoldable pub append_record :
      Bytes → Bytes → IndexValues → ℤ → Bool → Bool → Run (Db env) (Unit {0})
  append_record key value ix exp durable counter db =
      if not counter && use_blob_for db (length value)
      then continue (offload value db)
          (λ ref. append_logged key (blob_record key ref ix exp) ix exp durable)
      else append_logged key (inline_record key value ix exp counter) ix exp durable db

  -- The lowest keys of a group: `for i := lo; i < lo+excess; i++`.
  unfoldable pub victims : SecIndex env.trees.sec → ℕ → ℕ → List Bytes
  victims si lo zero = []
  victims si lo (suc excess) = (SecIndex.at env.trees.sec si lo).pk ∷ victims si (lo + 1) excess

  unfoldable pub delete_all : List Bytes → Run (Db env) (Unit {0})
  delete_all [] = pure tt
  delete_all (key ∷ rest) = do delete_locked env key; delete_all rest

  -- What the group of a value holds over the cap of its index: its lowest keys.
  unfoldable pub group_excess : SecIndex env.trees.sec → AnyValue → List Bytes
  unfolding victims
  group_excess si val = if leb_ℤ si.max (pos 0) then [] else elim (make_entry si.kind val []) [
    | err _ ↦ []
    | ok probe ↦
        let lo = SecIndex.lower_bound env.trees.sec si probe in
        let hi = SecIndex.upper_bound_value env.trees.sec si probe in
        victims si lo (pos_part (pos hi -ℤ pos lo -ℤ si.max))
  ]

  unfoldable pub excess_of : SecIndexes env.trees → Bytes → AnyValue → List Bytes
  unfolding group_excess
  excess_of sec name val = elim (find_sec env.trees name sec) [
    | none ↦ []
    | some si ↦ group_excess si val
  ]

  unfoldable pub enforce_max_per_value : IndexValues → Run (Db env) (Unit {0})
  enforce_max_per_value [] = pure tt
  enforce_max_per_value ((name, val) ∷ rest) = do
    λ db. delete_all (excess_of db.index.sec name val) db
    enforce_max_per_value rest

  unfoldable pub write : Bytes → Bytes → IndexValues → ℤ → Run (Db env) (Unit {0})
  write key value explicit exp = do
    ix ← λ db. (build_index_values db.index_defs db.index.sec key value explicit, db)
    λ db. (check_self_eviction db.index.sec key ix, db)
    λ db. append_record key value ix exp db.opts.sync_every_write false db
    enforce_max_per_value ix
    λ db. (ok tt, maybe_write_hint env (record db { writes = db.writes + 1 }))

  -- `if db.closed { return ErrClosed }`
  abbrev pub open_only : {A : Type 0} → Run (Db env) A → Run (Db env) A
  open_only m db = if db.closed then (err closed, db) else m db

  unfoldable pub put : ℤ → Bytes → Bytes → List ℤ → Run (Db env) (Unit {0})
  put now key value ttl = do exp ← lift (resolve_ttl now ttl); open_only (write key value [] exp)

  unfoldable pub put_indexed : ℤ → Bytes → Bytes → IndexValues → List ℤ → Run (Db env) (Unit {0})
  put_indexed now key value idx ttl = do
    exp ← lift (resolve_ttl now ttl)
    open_only (write key value idx exp)

  unfoldable pub delete : Bytes → Run (Db env) (Unit {0})
  delete key = open_only (λ db. elim (PkIndex.get env.trees.pk db.index.pk key) [
    | none ↦ (ok tt, db)
    | some _ ↦ continue (delete_locked env key db) (λ _ db'. (ok tt, maybe_write_hint env db'))
  ])
