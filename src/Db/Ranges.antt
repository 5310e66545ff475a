-- ===== src/Db/Ranges.antt =====
-- nteedb-core/rangedel.go: the keys below or above a cutoff are deleted together.
use ntee_db.Base.{ℕ, ◌+◌, true, not, List, [], ◌∷◌, length, map, if◌then◌else◌}
use ntee_db.Bytes.{Bytes, bytes_less}
use ntee_db.Result.{ok}
use ntee_db.Run.{Run, ◌>>◌, pure}
use ntee_db.Record.{blank}
use ntee_db.PkIndex
use ntee_db.PkIndex.{PkEntry, key_only}
use ntee_db.SecIndex
use ntee_db.Index.{Index}
use ntee_db.Db.{Env, Db, log_append, write_hint}
use ntee_db.Db.Write.{open_only}

-- The scan of `RemoveByPkLess` stops at the cutoff.
unfoldable pub below : Bytes → List PkEntry → List Bytes
below cutoff [] = []
below cutoff (e ∷ rest) =
    let more = below cutoff rest in if not (bytes_less e.key cutoff) then [] else e.key ∷ more

unfoldable pub above : Bytes → List PkEntry → List Bytes
above cutoff [] = []
above cutoff (e ∷ rest) =
    let more = above cutoff rest in if bytes_less cutoff e.key then e.key ∷ more else more

module _ (env : Env) where
  unfoldable pub log_tombstones : List Bytes → Run (Db env) (Unit {0})
  log_tombstones [] = pure tt
  log_tombstones (key ∷ rest) = do
    λ db. log_append env (record (blank key) { deleted = true }) db.main.sync db
    log_tombstones rest

  unfoldable pub remove_keys : List Bytes → env.trees.pk.Tree → env.trees.pk.Tree
  remove_keys [] t = t
  remove_keys (key ∷ rest) t = remove_keys rest (PkIndex.remove env.trees.pk t key)

  abbrev pub drop_keys : List Bytes → Index env.trees → Index env.trees
  drop_keys keys idx = record {
    pk = remove_keys keys idx.pk;
    sec = map (λ si. SecIndex.remove_pks env.trees.sec si keys) idx.sec;
  }

  -- `removePkEntries` once the tombstones are logged.
  abbrev pub drop_logged : List Bytes → Run (Db env) ℕ
  drop_logged keys = do
    λ db. (ok tt, record db { index = drop_keys keys db.index; writes = db.writes + length keys })
    write_hint env
    pure (length keys)

  unfoldable pub remove_pk_entries : List Bytes → Run (Db env) ℕ
  unfolding log_tombstones remove_keys
  remove_pk_entries [] = pure 0
  remove_pk_entries (key ∷ keys) = do log_tombstones (key ∷ keys); drop_logged (key ∷ keys)

  unfoldable pub remove_by_pk_less : Bytes → Run (Db env) ℕ
  unfolding below
  remove_by_pk_less cutoff =
      open_only env (λ db. remove_pk_entries (below cutoff (env.trees.pk.scan db.index.pk)) db)

  unfoldable pub remove_by_pk_greater : Bytes → Run (Db env) ℕ
  unfolding above
  remove_by_pk_greater cutoff = open_only env (λ db.
      remove_pk_entries (above cutoff (env.trees.pk.ascend db.index.pk (key_only cutoff))) db)
