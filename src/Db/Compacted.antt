-- ===== src/Db/Compacted.antt =====
-- nteedb-core/compact.go: Compact on a store whose files can be written.
use ntee_db.Base.{
  length, ℕ, ◌≡◌, refl, ap, sym, ◌∙◌, false, none, some, List, [], ◌∷◌, ◌++◌, map, arith,
  if◌then◌else◌,
}
use mathlib.Core.Path.{subst}
use ntee_db.Base.Int.{ℤ}
use ntee_db.Result.{ok, err, closed}
use ntee_db.Run.{continue}
use ntee_db.Btree.{All}
use ntee_db.Record.{Record}
use ntee_db.MainLog.{open_main_log}
use ntee_db.MainLog.Lines.{image, Scanned, scanned}
use ntee_db.Blob.{BlobStore, find_gen, set_gen, blob_size_of}
use ntee_db.PkIndex.{PkEntry}
use ntee_db.Index.{replay_record, rebuild_from, rebuild_sec, clear}
use ntee_db.Index.View.{IsTrees, SameSecs, SameSecs-insert_sec}
use ntee_db.PkIndex.{PkEntry}
use ntee_db.Index.{SecIndexes}
use ntee_db.Db.{hint_of}
use ntee_db.Db.Hinting.{IsRebuilt}
use ntee_db.Index.Shape.{clear-Scanned, clear-new, SameSecs-clear}
use ntee_db.Db.{Env, Db}
use ntee_db.Db.Boot.{fresh}
use ntee_db.Db.Logged.{Logged, IsLogged}
use ntee_db.Db.Puts.{IsDurable}
use ntee_db.Db.Removals.{hinted, write_hint_quiet}
use ntee_db.Db.Schema.{filter_ix_known}
use ntee_db.Db.Compact.{
  Rewrite, swaps, swapped, build_rewrite, no_store, swap_in, rewrite_gated, compact_transform,
  compact,
}
use ntee_db.Db.Rewriting.{KeptAlive, IsBelow, Rebuilds}
use ntee_db.Db.Rewritten.{keys_of, unexpired, lines_of, rewrite_each_lem}

set_gen_same :
    (gen : ℕ) (b : BlobStore) (bs : List (ℕ × BlobStore))
    → find_gen gen bs ≡ some b
    → set_gen gen b bs ≡ bs
unfolding find_gen set_gen
set_gen_same gen b [] h = refl
set_gen_same gen b ((g, old) ∷ rest) h = ground (arith, set_gen_same gen b rest)

module _ (env : Env) where
  -- What Compact makes of a record.
  abbrev pub compacted : Db env → Record → Record
  compacted db rec = record rec {
    ix = filter_ix_known env db.index.sec (map (λ d. d.0) db.dropped) rec.ix;
  }

  abbrev first : Rewrite env
  first = record { pk = env.trees.pk.new; content = []; off = 0 }

  module _ (law : IsTrees env.trees) (db : Db env) (d : IsDurable env db) where
    start_same :
        SameSecs env.trees (fresh env.trees db.index_defs).sec (clear env.trees db.index.sec)
    start_same =
        subst (λ s. SameSecs env.trees s (clear env.trees db.index.sec))
          (clear-Scanned env.trees env.json (blob_size_of db.blobs) d.logged.replays
            ∙ clear-new env.trees db.index_defs)
          (SameSecs-clear env.trees law _ _ d.logged.same.sec)

    first-Rebuilds :
        Rebuilds env law db
          (compacted db)
          (fresh env.trees db.index_defs)
          (clear env.trees db.index.sec)
          first
    unfolding image rebuild_from
    first-Rebuilds = record {
      lines = [];
      final = fresh env.trees db.index_defs;
      size = refl;
      holds = refl;
      one_each = tt;
      replays = scanned;
      keys = refl;
      values =
          subst
            (λ xs.
              SameSecs env.trees (fresh env.trees db.index_defs).sec
                (rebuild_from env.trees xs (clear env.trees db.index.sec)))
            (sym law.pk.scan-new) start_same;
    }

    first-IsBelow : (es : List PkEntry) → All (IsBelow env first) es
    first-IsBelow [] = tt
    first-IsBelow (e ∷ es) = (subst (All _) (sym law.pk.scan-new) tt, first-IsBelow es)

    rebuild_same :
        (es : List PkEntry) (xs ys : SecIndexes env.trees)
        → SameSecs env.trees xs ys
        → SameSecs env.trees (rebuild_from env.trees es xs) (rebuild_from env.trees es ys)
    unfolding rebuild_from
    rebuild_same [] xs ys s = s
    rebuild_same (e ∷ es) xs ys s =
        rebuild_same es _ _ (SameSecs-insert_sec env.trees law e.key e.ix xs ys s)

    -- The new log, once it is in place.
    swapped-Logged :
        (w : Rewrite env)
        → Rebuilds env law db
            (compacted db)
            (fresh env.trees db.index_defs)
            (clear env.trees db.index.sec)
            w
        → IsLogged env (swapped env [] w db)
    unfolding rebuild_sec open_main_log
    swapped-Logged w r = record {
      lines = r.lines;
      final = r.final;
      sound = record { size = refl; quiet = refl };
      holds = r.holds;
      whole = r.one_each;
      replays =
          subst
            (λ n.
              Scanned env.json (replay_record env.trees (blob_size_of db.blobs)) 0
                (fresh env.trees db.index_defs) r.lines n r.final)
            r.size r.replays;
      same = record { pk = r.keys; sec = r.values };
    }

    -- On an open, durable store, of which each entry that has not expired has a record that the
    -- log carries with the index values that are still known, Compact returns no error, the new
    -- log is exactly the lines of those records in the order of the keys and replays to the new
    -- indexes, the keys are those that have not expired, the secondary indexes hold what the
    -- primary entries say, and the hint is one of the new indexes and of the whole new log.
    pub compact_lem :
        (now : ℤ)
        → db.closed ≡ false
        → All (KeptAlive env db (compacted db) now) (env.trees.pk.scan db.index.pk)
        → (db' : Db env) × (compact env (swaps []) now db ≡ (ok tt, db'))
          × IsLogged env db'
          × (keys_of (env.trees.pk.scan db'.index.pk)
              ≡ keys_of (unexpired now (env.trees.pk.scan db.index.pk)))
          × (db'.main.f.content
              ≡ lines_of env db (compacted db) (unexpired now (env.trees.pk.scan db.index.pk)))
          × IsRebuilt env law db.index_defs db'.index
          × (db'.hint ≡ some (hint_of env db'.index.pk (length db'.main.f.content)))
    unfolding compact rewrite_gated build_rewrite swap_in compact_transform rebuild_sec
        open_main_log
    compact_lem now is_open keeps =
        let (w, runs, rs) =
          rewrite_each_lem env law db (compacted db) now (fresh env.trees db.index_defs)
            (clear env.trees db.index.sec) (env.trees.pk.scan db.index.pk) first (no_store env)
            (law.pk.scan-IsSorted db.index.pk) (first-IsBelow _) keeps first-Rebuilds in
        let new = swapped env [] w db in
        let logged = swapped-Logged w rs.rebuilds in
        let same_blobs = set_gen_same db.cur_gen d.current.0 db.blobs d.current.1 in
        (
          hinted env new d.current.0,
          ap
                (λ b.
                  if b
                  then (err closed, db)
                  else continue
                      ((build_rewrite env db (compact_transform env db) now (no_store env)).0, db)
                      (swap_in env (swaps []) none))
                is_open
              ∙ ap (λ x. continue (x.0, db) (swap_in env (swaps []) none)) runs
              ∙ write_hint_quiet env new d.current.0 logged.sound d.blobs d.current.1,
          subst (λ bs. Logged env new.main bs new.index db.index_defs) (sym same_blobs) logged,
          rs.keys
              ∙ ap (λ xs. keys_of xs ++ keys_of (unexpired now (env.trees.pk.scan db.index.pk)))
                  law.pk.scan-new,
          rs.content,
          rebuild_same (env.trees.pk.scan w.pk) _ _ start_same,
          refl,
        )
