-- ===== src/Db/Boot.antt =====
-- nteedb-core/db.go: what Open rebuilds from the files.
use ntee_db.Base.{ℕ, Option, none, some, List, [], ◌∷◌, map, length, take, leb, if◌then◌else◌}
use ntee_db.Bytes.{Bytes}
use ntee_db.MainLog.{scan_main_log}
use ntee_db.PkIndex.{PkEntry}
use ntee_db.SecIndex
use ntee_db.SecIndex.{IndexDef}
use ntee_db.Index.{Trees, Index, insert_sec, is_empty, replay_record}
use ntee_db.Db.{Env}
use ntee_db.Hint.{load_index_hint}

-- The indexes of a store with no record: the declared ones, empty.
abbrev pub fresh : (trees : Trees) → List IndexDef → Index trees
fresh trees defs = record { pk = trees.pk.new; sec = map (SecIndex.new_sec_index trees.sec) defs }

module _ (env : Env) where
  -- replayTail: the indexes, and the log truncated at goodEnd.
  unfoldable pub replay_tail : (ℕ → ℕ) → ℕ → Index env.trees → Bytes → Index env.trees × Bytes
  replay_tail blob_size from idx content =
      let (idx', end) =
        scan_main_log env.json (replay_record env.trees blob_size) from idx content in
      (idx', take end content)

  -- The loop of `load` over the lines of the hint.
  unfoldable pub load_entries : List PkEntry → Index env.trees → Index env.trees
  load_entries [] idx = idx
  load_entries (e ∷ rest) idx = load_entries rest (record {
    pk = env.trees.pk.load idx.pk e;
    sec = if is_empty env.trees e.ix then idx.sec else insert_sec env.trees e.key e.ix idx.sec;
  })

  -- `load`: from the hint and the tail of the log, or from the log alone.
  unfoldable pub load : (ℕ → ℕ) → Option Bytes → List IndexDef → Bytes → Index env.trees × Bytes
  unfolding load_entries replay_tail
  load blob_size hint defs content = elim (load_index_hint env.hints hint) [
    | none ↦ replay_tail blob_size 0 (fresh env.trees defs) content
    | some (entries, covers) ↦
        if leb covers (length content)
        then replay_tail blob_size covers (load_entries entries (fresh env.trees defs)) content
        else replay_tail blob_size 0 (fresh env.trees defs) content
  ]
