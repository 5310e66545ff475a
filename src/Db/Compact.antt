-- ===== src/Db/Compact.antt =====
-- nteedb-core/compact.go and reindex.go: the log is rewritten with the live records alone, behind
-- the gate that keeps the writers out, so that a whole rewrite is one step here.
use ntee_db.Base.{ℕ, ◌+◌, true, false, Option, none, some, List, [], ◌∷◌, ◌++◌, length, map}
use ntee_db.Base.Int.{ℤ, pos, add64, sub64}
use ntee_db.Bytes.{Bytes}
use ntee_db.Result.{Result, ok, err, io, encoding, panic}
use ntee_db.Run
use ntee_db.Run.{Run, continue}
use ntee_db.File.{File, Outcome}
use ntee_db.Record.{Record, IndexValues, newline, marshal_record}
use ntee_db.MainLog.{open_main_log, int32, add_int32}
use ntee_db.Blob
use ntee_db.Blob.{BlobStore}
use ntee_db.PkIndex.{PkEntry, expired_at}
use ntee_db.SecIndex.{IndexDef, make_entry}
use ntee_db.Index.{find_sec, rebuild_sec}
use ntee_db.Db.{Env, Db, read_record, blob_read_at, write_hint}
use ntee_db.Db.Write.{open_only, set_name}
use ntee_db.Db.Read.{sum_sizes, int64_of_int32}
use ntee_db.Db.Schema.{filter_ix, filter_ix_known, mark_reindexed}

-- How the files go: a new log that is not written, or not synced; the new log with the coming calls on it, a rename that fails, or
-- a new log that does not open.
pub data Swap : Type 0 where
  write_fails : Swap
  swaps : List Outcome → Swap
  rename_fails : Swap
  open_fails : Swap

-- BlobUsage
pub record Usage : Type 0 where
  pub total_bytes : ℤ
  pub live_bytes : ℤ
  pub orphaned_bytes : ℤ
  pub generations : ℕ

module _ (env : Env) where
  -- What is done to a record, while a new blob generation may be written.
  abbrev pub Transform : Type 0
  Transform = Record → Run BlobStore Record

  -- The new index, the bytes of the new log, and `off`.
  pub record Rewrite : Type 0 where
    pub pk : env.trees.pk.Tree
    pub content : Bytes
    pub off : ℕ

  abbrev pub rewrite_line : PkEntry → Record → Bytes → Rewrite → Rewrite
  rewrite_line e rec line acc =
      let n = int32 (length (line ++ newline ∷ [])) in
      record {
        pk =
            env.trees.pk.load acc.pk
              (record { key = e.key; off = acc.off; n = n; ix = rec.ix; exp = rec.exp });
        content = acc.content ++ (line ++ newline ∷ []);
        off = add_int32 acc.off n;
      }

  -- The callback of the scan in `buildRewrite`.
  abbrev pub rewrite_entry : Db env → Transform → PkEntry → Rewrite → Run BlobStore Rewrite
  rewrite_entry db transform e acc store =
      continue (read_record env db e, store)
        (λ rec. Run.◌>>=◌ (transform rec) (λ rec'. elim (marshal_record env.json rec') [
          | none ↦ Run.fail encoding
          | some line ↦ Run.pure (rewrite_line e rec' line acc)
        ]))

  unfoldable pub rewrite_each :
      Db env → Transform → ℤ → List PkEntry → Rewrite → Run BlobStore Rewrite
  rewrite_each db transform now [] acc = Run.pure acc
  rewrite_each db transform now (e ∷ rest) acc = elim (expired_at e now) [
    | true ↦ rewrite_each db transform now rest acc
    | false ↦ Run.◌>>=◌ (rewrite_entry db transform e acc) (rewrite_each db transform now rest)
  ]

  unfoldable pub build_rewrite : Db env → Transform → ℤ → Run BlobStore Rewrite
  unfolding rewrite_each
  build_rewrite db transform now =
      rewrite_each db transform now (env.trees.pk.scan db.index.pk)
        (record { pk = env.trees.pk.new; content = []; off = 0 })

  -- failStop
  abbrev pub fail_stop : Run (Db env) (Unit {0})
  fail_stop db = (err io, record db { closed = true })

  -- The state after the swap: the new log is open, and the indexes are those of the rewrite.
  abbrev pub swapped : List Outcome → Rewrite → Db env → Db env
  swapped coming w db = record db {
    main = open_main_log (record { content = w.content; coming = coming }) db.opts.sync_every_write;
    index = rebuild_sec env.trees (record db.index { pk = w.pk });
    writes = 0;
  }

  abbrev pub replaced_main : Bytes → Db env → Db env
  replaced_main content db = record db {
    main = record db.main { f = record db.main.f { content = content } };
  }

  -- The end of `rewriteBody`, most of it under `db.mu`; Relieve also retires the older blob files.
  unfoldable pub swap_in : Swap → Option (ℕ × BlobStore) → Rewrite → Run (Db env) (Unit {0})
  swap_in write_fails br w db = (err io, db)
  swap_in rename_fails br w db = fail_stop db
  swap_in open_fails br w db = fail_stop (replaced_main w.content db)
  swap_in (swaps coming) none w db = write_hint env (swapped coming w db)
  swap_in (swaps coming) (some (gen, store)) w db =
      write_hint env (record (swapped coming w db) { blobs = (gen, store) ∷ []; cur_gen = gen })

  -- Compact and Reindex copy their blob refs.
  abbrev pub no_store : BlobStore
  no_store = record { wf = record { content = []; coming = [] }; size = 0 }

  unfoldable pub rewrite_gated : Swap → ℤ → Transform → Run (Db env) (Unit {0})
  unfolding build_rewrite swap_in
  rewrite_gated swap now transform =
      open_only env
        (λ db. continue ((build_rewrite db transform now no_store).0, db) (swap_in swap none))

  unfoldable pub compact_transform : Db env → Transform
  compact_transform db rec =
      Run.pure
        (record rec { ix = filter_ix_known env db.index.sec (map (λ d. d.0) db.dropped) rec.ix })

  unfoldable pub compact : Swap → ℤ → Run (Db env) (Unit {0})
  unfolding compact_transform
  compact swap now db = rewrite_gated swap now (compact_transform db) db

  -- What the Extract function of an index says, if it has one.
  abbrev pub rederive : Db env → Bytes → Bytes → IndexDef → IndexValues → Result IndexValues
  rederive db key value def ix = elim def.extract [
    | none ↦ ok ix
    | some extract ↦ elim (extract key value) [
      | none ↦ ok ix
      | some v ↦ elim (find_sec env.trees def.name db.index.sec) [
        | none ↦ err panic
        | some si ↦ elim (make_entry si.kind v key) [
          | err e ↦ err e
          | ok _ ↦ ok (set_name def.name v ix)
        ]
      ]
    ]
  ]

  unfoldable pub rederive_all :
      Db env → Bytes → Bytes → List IndexDef → IndexValues → Result IndexValues
  rederive_all db key value [] ix = ok ix
  rederive_all db key value (def ∷ rest) ix = elim (rederive db key value def ix) [
    | err e ↦ err e
    | ok ix' ↦ rederive_all db key value rest ix'
  ]

  abbrev pub full_value : Db env → Record → Result Bytes
  full_value db rec = elim rec.blob [ none ↦ ok rec.value | some ref ↦ blob_read_at env db ref ]

  unfoldable pub reindex_transform : Db env → Transform
  unfolding rederive_all
  reindex_transform db rec store =
      continue (full_value db rec, store)
        (λ value. λ store'.
          continue
            (
              rederive_all db rec.key value db.index_defs (filter_ix env db.index.sec rec.ix),
              store',
            )
            (λ ix. Run.pure (record rec { ix = ix })))

  unfoldable pub reindex : Swap → ℤ → Run (Db env) (Unit {0})
  unfolding reindex_transform rewrite_gated
  reindex swap now db =
      continue (rewrite_gated swap now (reindex_transform db) db)
        (λ _. open_only env (λ db'. (ok tt, mark_reindexed env db')))

  -- The transform of Relieve: a blob moves to the new generation.
  abbrev pub move_blob : ℕ → Record → Bytes → Run BlobStore Record
  move_blob gen rec value store =
      continue (Blob.append store value)
        (λ ref. Run.pure (record rec { blob = some (record ref { gen = gen }) }))

  unfoldable pub relieve_transform : Db env → ℕ → Transform
  unfolding compact_transform
  relieve_transform db gen rec = Run.◌>>=◌ (compact_transform db rec) (λ rec'. elim rec'.blob [
    | none ↦ Run.pure rec'
    | some ref ↦ λ store. continue (blob_read_at env db ref, store) (move_blob gen rec')
  ])

  -- The new generation is flushed before the log that names it is renamed.
  unfoldable pub blobs_relieve : Swap → ℤ → File → Run (Db env) (Unit {0})
  unfolding build_rewrite relieve_transform swap_in
  blobs_relieve swap now file = open_only env (λ db.
      let gen = db.cur_gen + 1 in
      let (built, store) = build_rewrite db (relieve_transform db gen) now (Blob.open_blobs file) in
      continue (built, db)
        (λ w.
          let (done, store') = Blob.flush store in
          λ db'. continue (done, db') (λ _. swap_in swap (some (gen, store')) w)))

  unfoldable pub sum_live_blobs : Db env → List PkEntry → ℤ → Result ℤ
  sum_live_blobs db [] n = ok n
  sum_live_blobs db (e ∷ rest) n = elim (read_record env db e) [
    | err x ↦ err x
    | ok rec ↦ elim rec.blob [
      | none ↦ sum_live_blobs db rest n
      | some ref ↦ sum_live_blobs db rest (add64 n (int64_of_int32 ref.size))
    ]
  ]

  abbrev pub usage_of : Db env → ℤ → Usage
  usage_of db live = record {
    total_bytes = pos (sum_sizes db.blobs);
    live_bytes = live;
    orphaned_bytes = sub64 (pos (sum_sizes db.blobs)) live;
    generations = length db.blobs;
  }

  unfoldable pub blob_usage : Run (Db env) Usage
  unfolding sum_live_blobs
  blob_usage = open_only env (λ db.
      continue (sum_live_blobs db (env.trees.pk.scan db.index.pk) (pos 0), db)
        (λ live. Run.pure (usage_of db live)))
