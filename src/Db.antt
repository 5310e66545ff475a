-- ===== src/Db.antt =====
-- nteedb-core/db.go: the state of an open store, and the steps that its methods share. A method runs
-- under `db.mu`, so it is one step; the clock is an argument.
use ntee_db.Base.{
  ℕ, suc, ◌+◌, ◌^◌, Bool, true, false, not, ◌&&◌, ◌||◌, Option, none, some, List, [], ◌∷◌, ◌++◌,
  length, ltb, leb, ◌==◌, if◌then◌else◌,
}
use ntee_db.Base.Int.{ℤ, pos, ltb_ℤ, leb_ℤ}
use ntee_db.Bytes.{Bytes, bytes_eq}
use ntee_db.Result.{Result, ok, err, io, decoding, panic, missing_generation}
use ntee_db.Run.{Run, continue, ◌>>=◌, ◌>>◌, pure, fail}
use ntee_db.File.{sync, read_at}
use ntee_db.Record.{Record, BlobRef, IndexValues, Json, blank, newline, unmarshal_record}
use ntee_db.MainLog
use ntee_db.MainLog.{MainLog}
use ntee_db.Blob
use ntee_db.Blob.{BlobStore, find_gen, set_gen}
use ntee_db.PkIndex
use ntee_db.PkIndex.{PkEntry, expired_at}
use ntee_db.SecIndex.{IndexDef, ValueKind}
use ntee_db.Meta.{MetaJson}
use ntee_db.Hint.{HintJson, write_index_hint}
use ntee_db.Index.{Trees, Index, delete_key, put_key}
pub mod Write
pub mod Boot
pub mod Logged
pub mod Durable
pub mod Keys
pub mod Offload
pub mod Puts
pub mod Evictions
pub mod Mutations
pub mod Read
pub mod ReadBack
pub mod Reaper
pub mod Counters
pub mod Ranges
pub mod Cutoffs
pub mod Removals
pub mod Reaping
pub mod Queries
pub mod Counting
pub mod Priors
pub mod DroppedKinds
pub mod Covering
pub mod Adoption
pub mod Batch
pub mod Schema
pub mod Compact
pub mod Scans
pub mod Rewriting
pub mod Rewritten
pub mod Compacted
pub mod Hinting

-- bytes.TrimSuffix(buf, "\n")
unfoldable pub trim_newline : Bytes → Bytes
trim_newline [] = []
trim_newline (c ∷ []) = if c == newline then [] else c ∷ []
trim_newline (c ∷ d ∷ cs) = c ∷ trim_newline (d ∷ cs)

-- What the store is built on: encoding/json at its records, at the lines of the hint and at
-- meta.json, and the B-tree library.
pub record Env : Type 1 where
  pub json : Json
  pub hints : HintJson
  pub schema : MetaJson
  pub trees : Trees

pub record Options : Type 0 where
  pub blob_threshold : ℤ
  pub sync_every_write : Bool
  pub hint_every_n : ℤ

module _ (env : Env) where
  -- hintSnapshot: the clone of the tree, the watermark and the generation at the time.
  pub record Snapshot : Type 0 where
    pub pk : env.trees.pk.Tree
    pub covers : ℕ
    pub gen : ℕ

  pub record Db : Type 0 where
    pub opts : Options
    pub main : MainLog
    pub blobs : List (ℕ × BlobStore)
    pub cur_gen : ℕ
    pub index : Index env.trees
    pub index_defs : List IndexDef
    -- meta.json, if it is there, and the prospective and the dropped names, in order.
    pub meta : Option Bytes
    pub prospective : List Bytes
    pub dropped : List (Bytes × ValueKind)
    pub writes : ℕ
    pub closed : Bool
    -- The hint file, if it is there, the count of its synchronous rewrites, and the snapshot that a background
    -- writer is about to write.
    pub hint : Option Bytes
    pub hint_gen : ℕ
    pub pending : Option Snapshot
    -- reapCh, oldest first.
    pub reap_queue : List (Bytes × ℕ)

  -- One append on the main log.
  unfoldable pub log_append : Record → Bool → Run Db (ℕ × ℕ)
  log_append r durable db =
      let (result, main) = MainLog.append_sync env.json r durable db.main in
      (result, record db { main = main })

  -- The rest of `deleteLocked` after the tombstone is logged.
  abbrev pub forget : Bytes → ℕ × ℕ → Run Db (Unit {0})
  forget key at db =
      (ok tt, record db { index = delete_key env.trees key db.index; writes = db.writes + 1 })

  unfoldable pub delete_locked : Bytes → Run Db (Unit {0})
  delete_locked key db =
      continue (log_append (record (blank key) { deleted = true }) db.main.sync db) (forget key)

  unfoldable pub maybe_write_hint : Db → Db
  maybe_write_hint db =
      if leb_ℤ db.opts.hint_every_n (pos 0) || ltb_ℤ (pos db.writes) db.opts.hint_every_n
      then db
      else elim db.pending [
        | some _ ↦ db
        | none ↦ record db {
          pending = some (record { pk = db.index.pk; covers = db.main.size; gen = db.hint_gen });
          writes = 0;
        }
      ]

  -- The hint of the entries of a tree.
  abbrev pub hint_of : env.trees.pk.Tree → ℕ → Bytes
  hint_of pk covers = write_index_hint env.hints (env.trees.pk.scan pk) covers

  unfoldable pub flush_main : Run Db (Unit {0})
  flush_main db =
      let (done, f) = sync db.main.f in
      ((if done then ok tt else err io), record db { main = record db.main { f = f } })

  unfoldable pub flush_blobs : Run Db (Unit {0})
  flush_blobs db = elim (find_gen db.cur_gen db.blobs) [
    | none ↦ (ok tt, db)
    | some b ↦
        let (done, b') = Blob.flush b in
        (done, record db { blobs = set_gen db.cur_gen b' db.blobs })
  ]

  -- The end of writeHintAsync: a snapshot that a synchronous rewrite has overtaken is dropped.
  abbrev pub land_hint : Snapshot → Result (Unit {0}) × Db → Db
  land_hint snap (err _, db) = record db { pending = none }
  land_hint snap (ok _, db) =
      if db.hint_gen == snap.gen
      then record db { hint = some (hint_of snap.pk snap.covers); pending = none }
      else record db { pending = none }

  -- writeHintAsync, the step of the background goroutine.
  unfoldable pub write_hint_async : Db → Db
  unfolding flush_main flush_blobs
  write_hint_async db = elim db.pending [
    | none ↦ db
    | some snap ↦ land_hint snap ((flush_blobs >> flush_main) db)
  ]

  unfoldable pub write_hint : Run Db (Unit {0})
  unfolding flush_main flush_blobs
  write_hint = do
    λ db. (ok tt, record db { hint_gen = db.hint_gen + 1 })
    flush_blobs
    flush_main
    λ db. (ok tt, record db { hint = some (hint_of db.index.pk db.main.size); writes = 0 })

  -- readRecord: a negative length panics in `make`.
  unfoldable pub read_record : Db → PkEntry → Result Record
  read_record db e =
      if ltb e.n (2 ^ 31)
      then elim (read_at db.main.f.content e.off e.n) [
        | none ↦ err io
        | some buf ↦ elim (unmarshal_record env.json (trim_newline buf)) [
          | none ↦ err decoding
          | some r ↦ ok r
        ]
      ]
      else err panic

  unfoldable pub blob_read_at : Db → BlobRef → Result Bytes
  blob_read_at db ref = elim (find_gen ref.gen db.blobs) [
    | none ↦ err missing_generation
    | some b ↦ Blob.read_blob b ref
  ]
