-- ===== src/Db/Batch.antt =====
-- nteedb-core/batch.go: many puts under one lock. `print` stands for fmt.Sprint at an index value.
use ntee_db.Base.{ℕ, ◌+◌, Bool, true, false, ◌||◌, List, [], ◌∷◌, ◌++◌, length, ◌==◌, if◌then◌else◌}
use ntee_db.Base.Int.{ℤ, pos, add64, ltb_ℤ}
use ntee_db.Bytes.{Bytes, bytes_eq}
use ntee_db.Result.{Result, ok, err, invalid_ttl, ◌>>=◌}
use ntee_db.Run
use ntee_db.Run.{Run}
use ntee_db.Record.{AnyValue, IndexValues}
use ntee_db.Ttl.{milliseconds}
use ntee_db.SecIndex.{IndexDef}
use ntee_db.Index.{SecIndexes}
use ntee_db.Db.{Env, Db, maybe_write_hint, flush_blobs, flush_main}
use ntee_db.Db.Write.{
  append_record, build_index_values, check_self_eviction, enforce_max_per_value, open_only,
}

pub record PutItem : Type 0 where
  pub key : Bytes
  pub value : Bytes
  pub ix : IndexValues
  pub ttl : ℤ

-- An item with the index values and the expiry that it is stored with.
pub record Checked : Type 0 where
  pub item : PutItem
  pub ix : IndexValues
  pub exp : ℤ

abbrev pub expiry_of : ℤ → ℤ → Result ℤ
expiry_of now ttl =
    if ltb_ℤ ttl (pos 0)
    then err invalid_ttl
    else if ltb_ℤ (pos 0) ttl
    then ok (add64 now (milliseconds ttl))
    else ok (pos 0)

-- `_, done := seen[key]`
unfoldable pub seen_before : Bytes → List Bytes → Bool
seen_before key [] = false
seen_before key (k ∷ ks) = bytes_eq k key || seen_before key ks

module _ (env : Env) (print : AnyValue → Bytes) where
  -- Pass 1, on the state before the batch.
  unfoldable pub check_items :
      ℤ → List IndexDef → SecIndexes env.trees → List PutItem → Result (List Checked)
  check_items now defs sec [] = ok []
  check_items now defs sec (it ∷ rest) = do
    ix ← build_index_values env defs sec it.key it.value it.ix
    fits ← check_self_eviction env sec it.key ix
    exp ← expiry_of now it.ttl
    more ← check_items now defs sec rest
    ok (record { item = it; ix = ix; exp = exp } ∷ more)

  -- Pass 2.
  unfoldable pub append_items : List Checked → Run (Db env) (Unit {0})
  append_items [] = Run.pure tt
  append_items (c ∷ rest) =
      Run.◌>>◌ (append_record env c.item.key c.item.value c.ix c.exp false false)
        (append_items rest)

  abbrev pub seen_key : Bytes → AnyValue → Bytes
  seen_key name val = name ++ 0 ∷ print val

  -- The inner loop over the values of an item: the keys that have been seen.
  unfoldable pub enforce_values : List Bytes → IndexValues → Run (Db env) (List Bytes)
  unfolding seen_before
  enforce_values seen [] = Run.pure seen
  enforce_values seen ((name, val) ∷ ix) = elim (seen_before (seen_key name val) seen) [
    | true ↦ enforce_values seen ix
    | false ↦
        Run.◌>>◌ (enforce_max_per_value env ((name, val) ∷ []))
          (enforce_values (seen_key name val ∷ seen) ix)
  ]

  unfoldable pub enforce_items : List Bytes → List Checked → Run (Db env) (Unit {0})
  unfolding enforce_values
  enforce_items seen [] = Run.pure tt
  enforce_items seen (c ∷ rest) =
      Run.◌>>=◌ (enforce_values seen c.ix) (λ seen'. enforce_items seen' rest)

  abbrev pub flush_batch : Run (Db env) (Unit {0})
  flush_batch db =
      if db.opts.sync_every_write
      then Run.◌>>◌ (flush_blobs env) (flush_main env) db
      else (ok tt, db)

  abbrev pub count_batch : ℕ → Run (Db env) (Unit {0})
  count_batch n db = (ok tt, maybe_write_hint env (record db { writes = db.writes + n }))

  abbrev pub write_items : List Checked → Run (Db env) (Unit {0})
  write_items items =
      Run.◌>>◌ (append_items items)
        (Run.◌>>◌ (enforce_items [] items) (Run.◌>>◌ flush_batch (count_batch (length items))))

  unfoldable pub put_batch : ℤ → List PutItem → Run (Db env) (Unit {0})
  unfolding append_items enforce_items
  put_batch now items = open_only env (λ db.
      if length items == 0
      then (ok tt, db)
      else Run.continue (check_items now db.index_defs db.index.sec items, db) write_items)
