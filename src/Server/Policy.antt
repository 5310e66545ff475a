-- ===== src/Server/Policy.antt =====
-- nteedb-server/server.go: the policy of the reclamation in the background.
use ntee_db.Base.{◌+◌, Bool, false, not, ◌||◌, List, [], ◌∷◌, ltb, if◌then◌else◌}
use ntee_db.Base.Int.{pos, sub64, ltb_ℤ}
use ntee_db.Result.{Result, ok, err}
use ntee_db.Db.{Env, Db}
use ntee_db.Db.Read.{Stats, stats, live_bytes}
use ntee_db.Db.Compact.{Usage, blob_usage, blobs_relieve, compact}
use ntee_db.Server.Settings.{Floats}
use ntee_db.Server.State.{Moment, Server}

module _ (env : Env) (floats : Floats) where
  -- `orphaned || usage.Generations > 1`
  abbrev wasteful : Server env floats → Result Usage → Bool
  wasteful s (err _) = false
  wasteful s (ok u) =
      floats.reaches u.orphaned_bytes s.cfg.blob_ratio u.total_bytes || ltb 1 u.generations

  -- The usage is computed above the floor alone.
  unfoldable pub blobs_need_relieve : Server env floats → Stats → Bool
  blobs_need_relieve s st =
      if not s.cfg.blobs_relieve || ltb_ℤ (pos st.blob_bytes) s.cfg.blob_min_relieve_data_size
      then false
      else wasteful s (blob_usage env s.db).0

  abbrev relieved : Result (Unit {0}) × Db env → Server env floats → Server env floats
  relieved (err _, db) s = record s { db = db }
  relieved (ok _, db) s = record s {
    db = db;
    auto_compacts = s.auto_compacts + 1;
    blob_compacts = s.blob_compacts + 1;
  }

  unfoldable pub run_blobs_relieve : Moment → Server env floats → Server env floats
  run_blobs_relieve m s = relieved (blobs_relieve env m.swap m.now m.blob_file s.db) s

  unfoldable pub main_needs_compact : Server env floats → Stats → Bool
  main_needs_compact s st =
      if ltb_ℤ (pos st.main_bytes) s.cfg.main_min_bytes
      then false
      else floats.reaches (sub64 (pos st.main_bytes) (live_bytes env s.db)) s.cfg.main_ratio
          (pos st.main_bytes)

  abbrev compacted : Result (Unit {0}) × Db env → Server env floats → Server env floats
  compacted (err _, db) s = record s { db = db }
  compacted (ok _, db) s = record s { db = db; auto_compacts = s.auto_compacts + 1 }

  unfoldable pub run_main_compact : Moment → Server env floats → Server env floats
  run_main_compact m s = compacted (compact env m.swap m.now s.db) s

  unfoldable pub maybe_compact : Moment → Server env floats → Server env floats
  unfolding blobs_need_relieve run_blobs_relieve main_needs_compact run_main_compact
  maybe_compact m s =
      let st = stats env s.db in
      if blobs_need_relieve s st
      then run_blobs_relieve m s
      else if main_needs_compact s st
      then run_main_compact m s
      else s

  -- autoCompactLoop: the ticks until the server stops.
  unfoldable pub auto_compact_loop : List Moment → Server env floats → Server env floats
  auto_compact_loop [] s = s
  auto_compact_loop (m ∷ rest) s = auto_compact_loop rest (maybe_compact m s)
