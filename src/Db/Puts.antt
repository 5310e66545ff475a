-- ===== src/Db/Puts.antt =====
-- nteedb-core/db.go and secindex.go: the append of a record, and the evictions that follow.
use ntee_db.Base.{
  ◌≡◌, refl, ap, sym, Bool, false, some, List, [], ◌∷◌, length, arith, ◌<◌, ◌^◌, if◌then◌else◌,
  Bool-cases, inl, inr,
}
use mathlib.Core.Path.{subst}
use ntee_db.Base.Int.{ℤ}
use ntee_db.Bytes.{Bytes}
use ntee_db.Btree.{All}
use ntee_db.Result.{Result, ok, err}
use ntee_db.Run.{Run, continue}
use ntee_db.Record.{Record, IndexValues, is_tombstone}
use ntee_db.Blob
use ntee_db.Blob.{BlobStore, find_gen}
use ntee_db.Index.{replay_record, is_dangling}
use ntee_db.Index.View.{IsTrees}
use ntee_db.Db.{Env, Db, delete_locked}
use ntee_db.Db.Write.{
  append_logged, append_record, blob_record, delete_all, enforce_max_per_value, excess_of,
  inline_record, use_blob_for,
}
use ntee_db.Db.Logged.{IsLogged, Carried, Logged-append}
use ntee_db.Db.Durable.{tombstone, delete_locked_lem, deleted-IsLogged, stored, append_logged_lem}
use ntee_db.Db.Keys.{SecKeys, SecKeys-delete_key, SecKeys-put_key, excess_of-All}
use ntee_db.Db.Offload.{
  BlobIsSound, BlobsSound, find_gen-BlobIsSound, find_gen-regrown, grown, ref_of, offloaded,
  offload_lem, Logged-offloaded, BlobsSound-offloaded, ref_of-inside,
}

module _ (env : Env) where
  -- A key that a delete can log.
  abbrev pub CarriedKey : Bytes → Type 0
  CarriedKey key = (line : Bytes) × Carried env (tombstone key) line

  -- The store can be rebuilt from its files: the log is whole and gives the indexes, every key
  -- of an index can be evicted, and the current blob file is there.
  pub record IsDurable (db : Db env) : Type 0 where
    pub logged : IsLogged env db
    pub keys : SecKeys env.trees CarriedKey db.index.sec
    pub blobs : BlobsSound db.blobs
    pub current : (b : BlobStore) × (find_gen db.cur_gen db.blobs ≡ some b)

  -- A run that has gone through, and has kept the store durable.
  abbrev pub Succeeds : Result (Unit {0}) × Db env → Type 0
  Succeeds x = (x.0 ≡ ok tt) × IsDurable x.1

  pub continue-Succeeds :
      (x : Result (Unit {0}) × Db env) (f : Unit {0} → Run (Db env) (Unit {0}))
      → Succeeds x
      → ((db : Db env) → IsDurable db → Succeeds (f tt db))
      → Succeeds (continue x f)
  continue-Succeeds (ok a, db) f s k = k db s.1
  continue-Succeeds (err e, db) f s k = absurd (cc)

  -- The record that a put logs.
  abbrev pub logged_record : Db env → BlobStore → Bytes → Bytes → IndexValues → ℤ → Record
  logged_record db b key value ix exp =
      if use_blob_for env db (length value)
      then blob_record env key (ref_of db.cur_gen b value) ix exp
      else inline_record env key value ix exp false

module _ (env : Env) (law : IsTrees env.trees) where
  pub delete_locked-Succeeds :
      (db : Db env) (key : Bytes)
      → CarriedKey env key
      → IsDurable env db
      → Succeeds env (delete_locked env key db)
  delete_locked-Succeeds db key c d =
      subst (Succeeds env) (sym (delete_locked_lem env db key c.0 d.logged.sound c.1)) (
        refl,
        record {
          logged = deleted-IsLogged env law db key c.0 c.1 d.logged;
          keys = SecKeys-delete_key env.trees law (CarriedKey env) key db.index d.keys;
          blobs = d.blobs;
          current = d.current;
        },
      )

  delete_all-Succeeds :
      (keys : List Bytes) (db : Db env)
      → All (CarriedKey env) keys
      → IsDurable env db
      → Succeeds env (delete_all env keys db)
  unfolding delete_all
  delete_all-Succeeds [] db c d = (refl, d)
  delete_all-Succeeds (key ∷ rest) db c d =
      continue-Succeeds env (delete_locked env key db) (λ _. delete_all env rest)
        (delete_locked-Succeeds db key c.0 d) (λ db' d'. delete_all-Succeeds rest db' c.1 d')

  -- On a durable store the evictions of a write, of whatever index values, return no error and
  -- leave the store durable.
  pub enforce_max_per_value-Succeeds :
      (ix : IndexValues) (db : Db env)
      → IsDurable env db
      → Succeeds env (enforce_max_per_value env ix db)
  unfolding enforce_max_per_value
  enforce_max_per_value-Succeeds [] db d = (refl, d)
  enforce_max_per_value-Succeeds ((name, val) ∷ rest) db d =
      continue-Succeeds env (delete_all env (excess_of env db.index.sec name val) db)
        (λ _. enforce_max_per_value env rest)
        (delete_all-Succeeds _ db
          (excess_of-All env law (CarriedKey env) db.index.sec name val d.keys) d)
        (λ db' d'. enforce_max_per_value-Succeeds rest db' d')

  pub stored-IsDurable :
      (db : Db env) (r : Record) (line : Bytes)
      → CarriedKey env r.key
      → Carried env r line
      → is_tombstone r ≡ false
      → is_dangling env.trees (Blob.blob_size_of db.blobs) r.blob ≡ false
      → IsDurable env db
      → IsDurable env (stored env db r line)
  unfolding replay_record
  stored-IsDurable db r line k c put inside d = record {
    logged =
        Logged-append env law r line (stored env db r line).index c (ground (arith, put, inside))
          d.logged;
    keys = SecKeys-put_key env.trees law (CarriedKey env) r.key _ _ r.exp r.ix db.index k d.keys;
    blobs = d.blobs;
    current = d.current;
  }

  append_logged-Succeeds :
      (db : Db env) (r : Record) (line : Bytes) (durable : Bool)
      → CarriedKey env r.key
      → Carried env r line
      → is_tombstone r ≡ false
      → is_dangling env.trees (Blob.blob_size_of db.blobs) r.blob ≡ false
      → IsDurable env db
      → Succeeds env (append_logged env r.key r r.ix r.exp durable db)
  append_logged-Succeeds db r line durable k c put inside d =
      subst (Succeeds env) (sym (append_logged_lem env db r line durable d.logged.sound c))
        (refl, stored-IsDurable db r line k c put inside d)

  offloaded-IsDurable :
      (db : Db env) (b : BlobStore) (value : Bytes)
      → find_gen db.cur_gen db.blobs ≡ some b
      → IsDurable env db
      → IsDurable env (offloaded env db b value)
  offloaded-IsDurable db b value f d = record {
    logged = Logged-offloaded env db b value f d.logged;
    keys = d.keys;
    blobs = BlobsSound-offloaded env db b value (find_gen-BlobIsSound _ _ b f d.blobs) d.blobs;
    current =
        (grown b value, ground (arith, find_gen-regrown db.cur_gen db.cur_gen b value db.blobs f));
  }

  pub append_record-Succeeds :
      (db : Db env) (key value : Bytes) (ix : IndexValues) (exp : ℤ) (durable : Bool) (line : Bytes)
      → CarriedKey env key
      → (d : IsDurable env db)
      → Carried env (logged_record env db d.current.0 key value ix exp) line
      → length value < 2 ^ 31
      → Succeeds env (append_record env key value ix exp durable false db)
  unfolding append_record is_tombstone
  append_record-Succeeds db key value ix exp durable line k d c short =
      elim (Bool-cases (use_blob_for env db (length value))) [
        | inl large ↦
            rw (large, append_record, offload_lem env db b value d.current.1 s)
              (append_logged-Succeeds (offloaded env db b value)
                (blob_record env key (ref_of db.cur_gen b value) ix exp) line durable k
                (subst (λ r. Carried env r line)
                  (ap
                    (λ t.
                      if t
                      then blob_record env key (ref_of db.cur_gen b value) ix exp
                      else inline_record env key value ix exp false)
                    large)
                  c)
                refl (ref_of-inside env db b value d.current.1 s short)
                (offloaded-IsDurable db b value d.current.1 d))
        | inr small ↦
            rw (small, append_record)
              (append_logged-Succeeds db (inline_record env key value ix exp false) line durable k
                (subst (λ r. Carried env r line)
                  (ap
                    (λ t.
                      if t
                      then blob_record env key (ref_of db.cur_gen b value) ix exp
                      else inline_record env key value ix exp false)
                    small)
                  c)
                refl refl d)
      ]
    where
      b : BlobStore
      b = d.current.0

      s : BlobIsSound b
      s = find_gen-BlobIsSound _ _ b d.current.1 d.blobs
