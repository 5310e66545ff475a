-- ===== src/Db/Reaper.antt =====
-- nteedb-core/db.go: the goroutine that deletes the expired entries that reads have found.
use ntee_db.Base.{
  ℕ, Bool, true, false, Option, none, some, List, [], ◌∷◌, take, drop, ◌==◌, if◌then◌else◌,
}
use ntee_db.Base.Int.{ℤ}
use ntee_db.Bytes.{Bytes}
use ntee_db.Result.{ok, err}
use ntee_db.PkIndex
use ntee_db.PkIndex.{PkEntry, expired_at}
use ntee_db.Db.{Env, Db, delete_locked, flush_main, maybe_write_hint}

module _ (env : Env) where
  -- Whether the entry is still the one that was seen to expire.
  abbrev pub still_doomed : ℤ → ℕ → Option PkEntry → Bool
  still_doomed now off none = false
  still_doomed now off (some e) = if e.off == off then expired_at e now else false

  -- The loop of `reapBatch`: whether any was reaped, or `none` after an I/O error.
  unfoldable pub reap_each : ℤ → List (Bytes × ℕ) → Bool → Db env → Option Bool × Db env
  reap_each now [] reaped db = (some reaped, db)
  reap_each now ((key, off) ∷ rest) reaped db =
      elim (still_doomed now off (PkIndex.get env.trees.pk db.index.pk key)) [
        | false ↦ reap_each now rest reaped db
        | true ↦
            let (result, db') = delete_locked env key db in
            elim result [ err e ↦ (none, db') | ok _ ↦ reap_each now rest true db' ]
      ]

  abbrev pub reap_done : Option Bool × Db env → Db env
  reap_done (none, db) = db
  reap_done (some false, db) = db
  reap_done (some true, db) =
      maybe_write_hint env (if db.opts.sync_every_write then (flush_main env db).1 else db)

  unfoldable pub reap_batch : ℤ → List (Bytes × ℕ) → Db env → Db env
  unfolding reap_each flush_main
  reap_batch now batch db = if db.closed then db else reap_done (reap_each now batch false db)

  -- One cycle of `reapLoop`: what is queued, 64 at most.
  unfoldable pub reap_cycle : ℤ → Db env → Db env
  unfolding reap_batch
  reap_cycle now db =
      reap_batch now (take 64 db.reap_queue) (record db { reap_queue = drop 64 db.reap_queue })
