-- ===== src/Db/Durable.antt =====
-- nteedb-core/db.go: the log and the indexes after one record.
use ntee_db.Base.{ℕ, ◌+◌, ◌≡◌, refl, ap, Bool, true, length}
use ntee_db.Base.Int.{ℤ}
use ntee_db.Bytes.{Bytes}
use ntee_db.Result.{Result, ok}
use ntee_db.Run.{continue}
use ntee_db.Record.{Record, IndexValues, blank, is_tombstone}
use ntee_db.MainLog.Appends.{IsSound, appended, append_sync_lem}
use ntee_db.Index.{delete_key, put_key, replay_record}
use ntee_db.Index.View.{IsTrees}
use ntee_db.Db.{Env, Db, log_append, forget, delete_locked}
use ntee_db.Db.Write.{append_logged, remember, inline_record}
use ntee_db.Db.Logged.{IsLogged, Carried, Logged-append}

-- The record that a delete logs.
abbrev pub tombstone : Bytes → Record
tombstone key = record (blank key) { deleted = true }

module _ (env : Env) (db : Db env) where
  pub log_append_lem :
      (r : Record) (line : Bytes) (durable : Bool)
      → IsSound db.main
      → Carried env r line
      → log_append env r durable db
        ≡ (ok (db.main.size, length line + 1), record db { main = appended db.main line })
  unfolding log_append
  log_append_lem r line durable s c =
      ap (λ (x : Result (ℕ × ℕ) × _). (x.0, record db { main = x.1 }))
        (append_sync_lem env.json r durable db.main line s c.encodes c.fits)

  -- The store after a delete whose tombstone is this line.
  abbrev pub deleted : Bytes → Bytes → Db env
  deleted key line = record db {
    main = appended db.main line;
    index = delete_key env.trees key db.index;
    writes = db.writes + 1;
  }

  pub delete_locked_lem :
      (key line : Bytes)
      → IsSound db.main
      → Carried env (tombstone key) line
      → delete_locked env key db ≡ (ok tt, deleted key line)
  unfolding delete_locked
  delete_locked_lem key line s c =
      ap (λ x. continue x (forget env key)) (log_append_lem (tombstone key) line db.main.sync s c)

  -- The store after the append of a record that puts its key.
  abbrev pub stored : Record → Bytes → Db env
  stored r line = record db {
    main = appended db.main line;
    index = put_key env.trees r.key db.main.size (length line + 1) r.exp r.ix db.index;
  }

  pub append_logged_lem :
      (r : Record) (line : Bytes) (durable : Bool)
      → IsSound db.main
      → Carried env r line
      → append_logged env r.key r r.ix r.exp durable db ≡ (ok tt, stored r line)
  unfolding append_logged
  append_logged_lem r line durable s c =
      ap (λ x. continue x (remember env r.key r.ix r.exp)) (log_append_lem r line durable s c)

module _ (env : Env) (law : IsTrees env.trees) (db : Db env) where
  pub deleted-IsLogged :
      (key line : Bytes)
      → Carried env (tombstone key) line
      → IsLogged env db
      → IsLogged env (deleted env db key line)
  unfolding replay_record is_tombstone
  deleted-IsLogged key line c g = Logged-append env law (tombstone key) line _ c refl g

  pub stored-IsLogged :
      (key value : Bytes) (ix : IndexValues) (exp : ℤ) (counter : Bool) (line : Bytes)
      → Carried env (inline_record env key value ix exp counter) line
      → IsLogged env db
      → IsLogged env (stored env db (inline_record env key value ix exp counter) line)
  unfolding replay_record is_tombstone
  stored-IsLogged key value ix exp counter line c g =
      Logged-append env law (inline_record env key value ix exp counter) line _ c refl g
