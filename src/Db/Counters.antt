-- ===== src/Db/Counters.antt =====
-- nteedb-core/counter.go: Incr, Topup and Take over a record of the store. The value of a counter
-- has a fixed width, so that it is overwritten in place.
use ntee_db.Base.{
  ℕ, ◌+◌, ◌%◌, ◌^◌, Bool, true, false, Option, none, some, List, [], ◌∷◌, ◌++◌, length, take, drop,
  ◌==◌, if◌then◌else◌,
}
use ntee_db.Base.Int.{ℤ, pos, ltb_ℤ}
use ntee_db.Bytes.{Bytes, has_prefix}
use ntee_db.Result.{ok, err, io, not_counter, negative_amount}
use ntee_db.Run.{Run, continue, ◌>>=◌, ◌>>◌, pure, lift}
use ntee_db.Record.{Record, marshal_record}
use ntee_db.File.{File, done, fails, next_outcome, sync}
use ntee_db.MainLog.{int32}
use ntee_db.PkIndex
use ntee_db.PkIndex.{PkEntry, expired_at}
use ntee_db.Index.{is_empty}
use ntee_db.Ttl.{resolve_ttl}
use ntee_db.Counter.{
  Step, apply, decline, fail, format_counter, parse_counter, incr_step, topup_step, take_step,
}
use ntee_db.Db.{Env, Db, delete_locked, maybe_write_hint, read_record}
use ntee_db.Db.Write.{append_record, open_only}

-- bytes.Index
unfoldable pub index_of : Bytes → Bytes → Option ℕ
index_of pat [] = if has_prefix [] pat then some 0 else none
index_of pat (c ∷ cs) =
    let later = index_of pat cs in
    if has_prefix (c ∷ cs) pat then some 0 else elim later [ none ↦ none | some i ↦ some (i + 1) ]

-- WriteAt on a handle without O_APPEND, at an offset inside the file.
abbrev pub overwrite : Bytes → ℕ → Bytes → Bytes
overwrite content off b = take off content ++ (b ++ drop (off + length b) content)

unfoldable pub write_at : File → Bytes → ℕ → Bool × File
write_at f b off = elim (next_outcome f.coming).0 [
  | done ↦
      (true, record { content = overwrite f.content off b; coming = (next_outcome f.coming).1 })
  | fails n ↦ (
    false,
    record { content = overwrite f.content off (take n b); coming = (next_outcome f.coming).1 },
  )
]

-- `"s":"` and the value, with its closing quote.
abbrev pub value_pattern : Bytes → Bytes
value_pattern value = b'"' ∷ b's' ∷ b'"' ∷ b':' ∷ b'"' ∷ (value ++ b'"' ∷ [])

module _ (env : Env) where
  -- The file of the main log after a call on the patcher.
  abbrev pub patched : Bool × File → Run (Db env) (Unit {0})
  patched (fine, f) db =
      ((if fine then ok tt else err io), record db { main = record db.main { f = f } })

  -- Where the in-place path finds the value, if it is taken.
  unfoldable pub patch_offset : PkEntry → Record → Option ℕ
  unfolding index_of
  patch_offset e r =
      if is_empty env.trees e.ix
      then elim (marshal_record env.json r) [
        | none ↦ none
        | some line ↦
            if (int32 (length line) + 1) % 2 ^ 32 == e.n
            then elim (index_of (value_pattern r.value) line) [
              | none ↦ none
              | some i ↦ some (e.off + i + 5)
            ]
            else none
      ]
      else none

  unfoldable pub patch : Bytes → ℕ → Run (Db env) (Unit {0})
  unfolding write_at
  patch digits off = do
    λ db. patched (write_at db.main.f digits off) db
    λ db. if db.opts.sync_every_write then patched (sync db.main.f) db else (ok tt, db)

  unfoldable pub incr_append : Bytes → ℤ → ℤ → Run (Db env) (Unit {0})
  incr_append key v exp = do
    λ db. append_record env key (format_counter v) [] exp db.opts.sync_every_write true db
    λ db. (ok tt, maybe_write_hint env (record db { writes = db.writes + 1 }))

  -- The result of `counterUpdate`: the next value, whether the step applied, and the value that
  -- the step saw, from which the closure of Topup sets `overflow`.
  abbrev pub Update : Type 0
  Update = ℤ × Bool × ℤ

  abbrev pub stepped : ℤ → Step → (ℤ → Run (Db env) (Unit {0})) → Run (Db env) Update
  stepped cur (apply next) f = do f next; pure (next, true, cur)
  stepped cur decline f = pure (pos 0, false, cur)
  stepped cur (fail e) f = λ db. (err e, db)

  abbrev pub create_counter : Bytes → ℤ → (ℤ → Step) → Run (Db env) Update
  create_counter key exp step = stepped (pos 0) (step (pos 0)) (λ next. incr_append key next exp)

  abbrev pub store_counter : Bytes → PkEntry → Record → ℤ → Run (Db env) (Unit {0})
  store_counter key e r next = elim (patch_offset e r) [
    | some off ↦ patch (format_counter next) off
    | none ↦ incr_append key next e.exp
  ]

  abbrev pub counter_in : Record → Option ℤ
  counter_in r = elim r.blob [
    | some _ ↦ none
    | none ↦ if r.counter then parse_counter r.value else none
  ]

  abbrev pub update_live : Bytes → (ℤ → Step) → PkEntry → Record → Run (Db env) Update
  update_live key step e r = elim (counter_in r) [
    | none ↦ λ db. (err not_counter, db)
    | some cur ↦ stepped cur (step cur) (store_counter key e r)
  ]

  unfoldable pub counter_update : ℤ → Bytes → ℤ → (ℤ → Step) → Run (Db env) Update
  unfolding incr_append patch_offset patch
  counter_update now key create_exp step db = elim (PkIndex.get env.trees.pk db.index.pk key) [
    | none ↦ create_counter key create_exp step db
    | some e ↦
        if expired_at e now
        then continue (delete_locked env key db) (λ _. create_counter key create_exp step)
        else continue (read_record env db e, db) (update_live key step e)
  ]

  unfoldable pub incr : ℤ → Bytes → ℤ → List ℤ → Run (Db env) ℤ
  incr now key delta ttl = do
    exp ← lift (resolve_ttl now ttl)
    open_only env (λ db. continue (counter_update now key exp (incr_step delta) db) (λ r. pure r.0))

  abbrev pub run_topup : ℤ → Bytes → ℤ → ℤ → ℤ → Run (Db env) ℤ
  run_topup now key amount max exp = open_only env (λ db.
      continue (counter_update now key exp (λ cur. (topup_step amount max cur).0) db)
        (λ r. pure ((topup_step amount max r.2).1)))

  -- An error stands for the count -1 and the error.
  unfoldable pub topup : ℤ → Bytes → ℤ → ℤ → List ℤ → Run (Db env) ℤ
  topup now key amount max ttl =
      if ltb_ℤ amount (pos 0)
      then (λ db. (err negative_amount, db))
      else (do exp ← lift (resolve_ttl now ttl); run_topup now key amount max exp)

  abbrev pub run_take : ℤ → Bytes → ℤ → ℤ → ℤ → Run (Db env) Bool
  run_take now key amount left exp =
      open_only env
        (λ db. continue (counter_update now key exp (take_step amount left) db) (λ r. pure r.1))

  -- Take
  unfoldable pub take_from : ℤ → Bytes → ℤ → ℤ → List ℤ → Run (Db env) Bool
  take_from now key amount left ttl =
      if ltb_ℤ amount (pos 0)
      then (λ db. (err negative_amount, db))
      else (do exp ← lift (resolve_ttl now ttl); run_take now key amount left exp)
