-- ===== src/Db/ReadBack.antt =====
-- nteedb-core/db.go: Get after a write.
use ntee_db.Base.{
  ℕ, ◌||◌, Option-cases, ◌+◌, ◌≡◌, refl, ap, sym, ◌∙◌, false, Option, none, some, List, [], ◌∷◌,
  ◌++◌, length, take, drop_append, length-append, arith, Bool-cases, inl, inr,
}
use ntee_db.Base.Int.{ℤ, pos, leb_ℤ, ltb_ℤ}
use ntee_db.Bytes.{Bytes}
use ntee_db.Bytes.Laws.{bytes_eq_refl}
use ntee_db.Result.{ok}
use ntee_db.File.{read_at}
use ntee_db.Record.{Record, newline}
use ntee_db.PkIndex.{PkEntry, expired_at}
use ntee_db.Index.Keys.{put_entry, get-put_key}
use ntee_db.Index.View.{IsTrees}
use ntee_db.Db.{Env, Db, Snapshot, maybe_write_hint, read_record, trim_newline}
use ntee_db.Db.Logged.{Carried}
use ntee_db.Db.Durable.{stored, append_logged_lem}
use ntee_db.Ttl.{resolve_ttl}
use ntee_db.Db.Write.{
  append_record, build_index_values, check_self_eviction, enforce_max_per_value, inline_record, put,
  use_blob_for, write,
}
use ntee_db.MainLog.Appends.{IsSound}
use ntee_db.Db.Read.{get, pk_get_live}

trim_newline_lem : (line : Bytes) → trim_newline (line ++ newline ∷ []) ≡ line
unfolding trim_newline
trim_newline_lem [] = refl
trim_newline_lem (c ∷ []) = refl
trim_newline_lem (c ∷ d ∷ cs) = ap (λ x. c ∷ x) (trim_newline_lem (d ∷ cs))

take_all : (b : Bytes) → take (length b) b ≡ b
take_all [] = refl
take_all (x ∷ xs) = ap (λ ys. x ∷ ys) (take_all xs)

-- What stands at the end of a file.
read_at-append :
    (content b : Bytes) (off n : ℕ)
    → off ≡ length content
    → n ≡ length b
    → read_at (content ++ b) off n ≡ some b
unfolding read_at
read_at-append content b off n o l =
    ground (arith, length-append content b, take_all b, drop_append content b)

module _ (env : Env) (db : Db env) (r : Record) (line : Bytes) (s : IsSound db.main)
    (c : Carried env r line) where
  pub read_record-stored :
      (e : PkEntry)
      → e.off ≡ db.main.size
      → e.n ≡ length line + 1
      → read_record env (stored env db r line) e ≡ ok r
  unfolding read_record
  read_record-stored e o n = ground (
    arith,
    c.decodes,
    c.fits,
    trim_newline_lem line,
    read_at-append db.main.f.content (line ++ newline ∷ []) e.off e.n (o ∙ s.size)
        (n ∙ sym (length-append line (newline ∷ []))),
  )

  -- A key that was put reads as its value, unless it has expired.
  pub get-stored :
      (law : IsTrees env.trees) (now : ℤ)
      → db.closed ≡ false
      → r.blob ≡ none
      → expired_at (put_entry r.key db.main.size (length line + 1) r.exp r.ix) now ≡ false
      → get env now r.key (stored env db r line) ≡ (ok (some r.value), stored env db r line)
  unfolding get pk_get_live
  get-stored law now is_open inline live = ground (
    arith,
    get-put_key env.trees law r.key db.main.size (length line + 1) r.exp r.ix db.index r.key,
    bytes_eq_refl r.key,
    read_record-stored (put_entry r.key db.main.size (length line + 1) r.exp r.ix) refl refl,
  )

pub maybe_write_hint_lem :
    (env : Env) (db : Db env)
    → (writes : ℕ) × (pending : Option (Snapshot env)) × (maybe_write_hint env db
        ≡ record db { writes = writes; pending = pending })
unfolding maybe_write_hint
maybe_write_hint_lem env db =
    elim (Bool-cases
      (leb_ℤ db.opts.hint_every_n (pos 0) || ltb_ℤ (pos db.writes) db.opts.hint_every_n)) [
        | inl early ↦ (db.writes, db.pending, ground (arith, early))
        | inr due ↦ elim (Option-cases db.pending) [
          | inl free ↦ (
            0,
            some (record { pk = db.index.pk; covers = db.main.size; gen = db.hint_gen }),
            ground (arith, due, free),
          )
          | inr (snap, busy) ↦ (db.writes, db.pending, ground (arith, due, busy))
        ]
      ]

module _ (env : Env) (law : IsTrees env.trees) (db : Db env) (key value : Bytes) where
  -- The store after a put whose record is this line: some writes are counted, and a hint may be
  -- due.
  abbrev after_put : ℤ → Bytes → ℕ → Option (Snapshot env) → Db env
  after_put exp line writes pending =
      record (stored env db (inline_record env key value [] exp false) line) {
        writes = writes;
        pending = pending;
      }

  put_lem :
      (now exp : ℤ) (ttl : List ℤ) (line : Bytes)
      → IsSound db.main
      → db.closed ≡ false
      → resolve_ttl now ttl ≡ ok exp
      → build_index_values env db.index_defs db.index.sec key value [] ≡ ok []
      → use_blob_for env db (length value) ≡ false
      → Carried env (inline_record env key value [] exp false) line
      → put env now key value ttl db
        ≡ (ok tt, maybe_write_hint env (after_put exp line (db.writes + 1) db.pending))
  unfolding put write append_record check_self_eviction enforce_max_per_value
  put_lem now exp ttl line s is_open t b inline c = ground (
    arith,
    t,
    is_open,
    b,
    inline,
    append_logged_lem env db (inline_record env key value [] exp false) line
        db.opts.sync_every_write s c,
  )

  get-after_put :
      (later exp : ℤ) (line : Bytes) (writes : ℕ) (pending : Option (Snapshot env))
      → IsSound db.main
      → Carried env (inline_record env key value [] exp false) line
      → expired_at (put_entry key db.main.size (length line + 1) exp []) later ≡ false
      → db.closed ≡ false
      → (get env later key (after_put exp line writes pending)).0 ≡ ok (some value)
  unfolding get pk_get_live read_record
  get-after_put later exp line writes pending s c live is_open = ground (
    arith,
    get-put_key env.trees law key db.main.size (length line + 1) exp [] db.index key,
    bytes_eq_refl key,
    read_record-stored env db (inline_record env key value [] exp false) line s c
        (put_entry key db.main.size (length line + 1) exp []) refl refl,
  )

  -- On an open store with a sound log, a Put of a value that is stored inline and has no index
  -- values returns no error, and Get then returns that value at every time at which the entry has
  -- not expired, whether or not a hint falls due.
  pub get-put :
      (now later exp : ℤ) (ttl : List ℤ) (line : Bytes)
      → IsSound db.main
      → db.closed ≡ false
      → resolve_ttl now ttl ≡ ok exp
      → build_index_values env db.index_defs db.index.sec key value [] ≡ ok []
      → use_blob_for env db (length value) ≡ false
      → Carried env (inline_record env key value [] exp false) line
      → expired_at (put_entry key db.main.size (length line + 1) exp []) later ≡ false
      → ((put env now key value ttl db).0 ≡ ok tt)
        × ((get env later key (put env now key value ttl db).1).0 ≡ ok (some value))
  get-put now later exp ttl line s is_open t b inline c live =
      let (writes, pending, h) =
        maybe_write_hint_lem env (after_put exp line (db.writes + 1) db.pending) in
      let stores = put_lem now exp ttl line s is_open t b inline c in
      (
        ap (λ x. x.0) stores,
        ap (λ x. (get env later key x.1).0) stores
            ∙ ap (λ x. (get env later key x).0) h
            ∙ get-after_put later exp line writes pending s c live is_open,
      )
