-- ===== src/Db/Removals.antt =====
-- nteedb-core/rangedel.go: a range delete as a whole, on a durable store.
use ntee_db.Base.{
  ℕ, ◌+◌, ◌≡◌, refl, ap, ◌∙◌, Bool, false, none, some, List, [], ◌∷◌, length, if◌then◌else◌, arith,
}
use ntee_db.Bytes.{Bytes, bytes_less}
use ntee_db.Btree.{All}
use ntee_db.Result.{Result, ok, err, io}
use ntee_db.Run.{continue, pure}
use ntee_db.MainLog.{MainLog}
use ntee_db.MainLog.Appends.{IsSound, appended, appended-IsSound, sync_quiet}
use ntee_db.Blob.{BlobStore, find_gen, set_gen}
use ntee_db.File.{File}
use ntee_db.PkIndex
use ntee_db.PkIndex.{key_only}
use ntee_db.Index.View.{IsTrees}
use ntee_db.Db.{Env, Db, hint_of, write_hint, flush_blobs, flush_main}
use ntee_db.Db.Durable.{tombstone, log_append_lem}
use ntee_db.Db.Offload.{BlobsSound, find_gen-BlobIsSound, flush_quiet}
use ntee_db.Db.Puts.{CarriedKey, IsDurable}
use ntee_db.Db.Ranges.{
  below, above, log_tombstones, drop_keys, drop_logged, remove_keys, remove_pk_entries,
  remove_by_pk_less, remove_by_pk_greater,
}
use ntee_db.Db.Cutoffs.{get-below, get-above}

continue-pure :
    {S : Type 0} (x : Result (Unit {0}) × S) (n : ℕ)
    → x.0 ≡ ok tt
    → continue x (λ _. pure n) ≡ (ok n, x.1)
continue-pure (ok a, s) n h = refl
continue-pure (err e, s) n h = absurd (cc)

module _ (env : Env) where
  log_tombstones_lem :
      (keys : List Bytes) (db : Db env)
      → IsSound db.main
      → All (CarriedKey env) keys
      → (main : MainLog) × IsSound main
        × (log_tombstones env keys db ≡ (ok tt, record db { main = main }))
  unfolding log_tombstones
  log_tombstones_lem [] db s c = (db.main, s, refl)
  log_tombstones_lem (key ∷ rest) db s (k, c) =
      let db' : Db env = record db { main = appended db.main k.0 } in
      let (main, sound, h) = log_tombstones_lem rest db' (appended-IsSound db.main k.0 s) c in
      (
        main,
        sound,
        ap (λ x. continue x (λ _. log_tombstones env rest))
              (log_append_lem env db (tombstone key) k.0 db.main.sync s k.1)
            ∙ h,
      )

  flush_blobs_quiet :
      (db : Db env) (b : BlobStore)
      → find_gen db.cur_gen db.blobs ≡ some b
      → b.wf.coming ≡ []
      → flush_blobs env db ≡ (ok tt, record db { blobs = set_gen db.cur_gen b db.blobs })
  unfolding flush_blobs
  flush_blobs_quiet db b f q = ground (arith, flush_quiet b q)

  flush_main_quiet : (db : Db env) → IsSound db.main → flush_main env db ≡ (ok tt, db)
  unfolding flush_main
  flush_main_quiet db s =
      ap
        (λ (x : Bool × File).
          ((if x.0 then ok tt else err io), record db { main = record db.main { f = x.1 } }))
        (sync_quiet db.main.f s.quiet)

  -- The store after a hint that is written at once.
  abbrev pub hinted : Db env → BlobStore → Db env
  hinted db b = record db {
    hint_gen = db.hint_gen + 1;
    blobs = set_gen db.cur_gen b db.blobs;
    hint = some (hint_of env db.index.pk db.main.size);
    writes = 0;
  }

  pub write_hint_quiet :
      (db : Db env) (b : BlobStore)
      → IsSound db.main
      → BlobsSound db.blobs
      → find_gen db.cur_gen db.blobs ≡ some b
      → write_hint env db ≡ (ok tt, hinted db b)
  unfolding write_hint
  write_hint_quiet db b s blobs f =
      let counted : Db env = record db { hint_gen = db.hint_gen + 1 } in
      let flushed = flush_blobs_quiet counted b f (find_gen-BlobIsSound _ _ b f blobs).quiet in
      let synced = flush_main_quiet (record counted { blobs = set_gen db.cur_gen b db.blobs }) s in
      ap
        (λ x. continue x (λ _. λ db'. continue (flush_main env db') (λ _ db''. (
          ok tt,
          record db'' { hint = some (hint_of env db''.index.pk db''.main.size); writes = 0 },
        ))))
        flushed
      ∙ ap
          (λ x. continue x (λ _ db''. (
            ok tt,
            record db'' { hint = some (hint_of env db''.index.pk db''.main.size); writes = 0 },
          )))
          synced

  -- What a range delete of these keys does on a durable store: it goes through.
  remove_pk_entries_lem :
      (keys : List Bytes) (db : Db env)
      → IsDurable env db
      → All (CarriedKey env) keys
      → ((remove_pk_entries env keys db).0 ≡ ok (length keys))
        × ((remove_pk_entries env keys db).1.index.pk ≡ remove_keys env keys db.index.pk)
  unfolding remove_pk_entries remove_keys
  remove_pk_entries_lem [] db d c = (refl, refl)
  remove_pk_entries_lem (key ∷ keys) db d c =
      let (main, sound, logged) = log_tombstones_lem (key ∷ keys) db d.logged.sound c in
      let dropped : Db env = record db {
        main = main;
        index = drop_keys env (key ∷ keys) db.index;
        writes = db.writes + length (key ∷ keys);
      } in
      let hint = write_hint_quiet dropped d.current.0 sound d.blobs d.current.1 in
      let fine = ap (λ x. x.0) hint in
      let kept = ap (λ x. x.1.index) hint in
      let whole =
        ap (λ x. continue x (λ _. drop_logged env (key ∷ keys))) logged
        ∙ continue-pure (write_hint env dropped) (length (key ∷ keys)) fine in
      (ap (λ x. x.0) whole, ap (λ x. x.1.index.pk) whole ∙ ap (λ idx. idx.pk) kept)

module _ (env : Env) (law : IsTrees env.trees) (db : Db env) (d : IsDurable env db)
    (is_open : db.closed ≡ false) where
  -- On an open, durable store, of which the log carries the tombstones of the keys below the
  -- cutoff, RemoveByPkLess returns the number of those keys and leaves exactly the entries of the
  -- keys that are not below the cutoff.
  pub remove_by_pk_less_lem :
      (cutoff : Bytes)
      → All (CarriedKey env) (below cutoff (env.trees.pk.scan db.index.pk))
      → ((remove_by_pk_less env cutoff db).0
          ≡ ok (length (below cutoff (env.trees.pk.scan db.index.pk))))
        × ((j : Bytes)
            → PkIndex.get env.trees.pk (remove_by_pk_less env cutoff db).1.index.pk j
              ≡ (if bytes_less j cutoff then none else PkIndex.get env.trees.pk db.index.pk j))
  unfolding remove_by_pk_less
  remove_by_pk_less_lem cutoff c =
      let (count, left) = remove_pk_entries_lem env _ db d c in
      (
        ap (λ x. x.0) opened ∙ count,
        λ j.
            ap (λ x. PkIndex.get env.trees.pk x.1.index.pk j) opened
            ∙ ap (λ t. PkIndex.get env.trees.pk t j) left
            ∙ get-below env law cutoff db.index.pk j,
      )
    where
      opened :
          remove_by_pk_less env cutoff db
          ≡ remove_pk_entries env (below cutoff (env.trees.pk.scan db.index.pk)) db
      opened = ground (arith, is_open)

  -- On an open, durable store, of which the log carries the tombstones of the keys above the
  -- cutoff, RemoveByPkGreater returns the number of those keys and leaves exactly the entries of
  -- the keys that are not above the cutoff.
  pub remove_by_pk_greater_lem :
      (cutoff : Bytes)
      → All (CarriedKey env) (above cutoff (env.trees.pk.ascend db.index.pk (key_only cutoff)))
      → ((remove_by_pk_greater env cutoff db).0
          ≡ ok (length (above cutoff (env.trees.pk.ascend db.index.pk (key_only cutoff)))))
        × ((j : Bytes)
            → PkIndex.get env.trees.pk (remove_by_pk_greater env cutoff db).1.index.pk j
              ≡ (if bytes_less cutoff j then none else PkIndex.get env.trees.pk db.index.pk j))
  unfolding remove_by_pk_greater
  remove_by_pk_greater_lem cutoff c =
      let (count, left) = remove_pk_entries_lem env _ db d c in
      (
        ap (λ x. x.0) opened ∙ count,
        λ j.
            ap (λ x. PkIndex.get env.trees.pk x.1.index.pk j) opened
            ∙ ap (λ t. PkIndex.get env.trees.pk t j) left
            ∙ get-above env law cutoff db.index.pk j,
      )
    where
      opened :
          remove_by_pk_greater env cutoff db
          ≡ remove_pk_entries env
              (above cutoff (env.trees.pk.ascend db.index.pk (key_only cutoff)))
              db
      opened = ground (arith, is_open)
