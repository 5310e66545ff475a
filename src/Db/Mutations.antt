-- ===== src/Db/Mutations.antt =====
-- nteedb-core/db.go: Put, PutIndexed and Delete, each as a whole.
use ntee_db.Base.{
  ◌+◌, ◌||◌, ◌≡◌, refl, Bool, true, false, List, length, ◌<◌, ◌^◌, ◌⊎◌, inl, inr, if◌then◌else◌,
  Bool-cases, Option-cases,
}
use ntee_db.Base.Int.{ℤ, pos, ltb_ℤ, leb_ℤ}
use ntee_db.Bytes.{Bytes}
use ntee_db.Result.{Error, Result, ok, err, closed}
use ntee_db.Run.{continue}
use ntee_db.Record.{IndexValues}
use ntee_db.Ttl.{resolve_ttl}
use ntee_db.PkIndex
use ntee_db.PkIndex.{PkEntry}
use ntee_db.Index.View.{IsTrees}
use ntee_db.Db.{Env, Db, maybe_write_hint}
use ntee_db.Db.Write.{
  append_record, build_index_values, check_self_eviction, delete, enforce_max_per_value,
  put_indexed, write,
}
use ntee_db.Db.Logged.{Carried}
use ntee_db.Db.Puts.{
  CarriedKey, IsDurable, Succeeds, continue-Succeeds, logged_record, delete_locked-Succeeds,
  enforce_max_per_value-Succeeds, append_record-Succeeds,
}

module _ (env : Env) where
  -- The call was refused, and the store is as it was.
  abbrev pub Refused : Db env → Result (Unit {0}) × Db env → Type 0
  Refused db x = (e : Error) × (x ≡ (err e, db))

  maybe_write_hint-IsDurable :
      (db : Db env) → IsDurable env db → IsDurable env (maybe_write_hint env db)
  unfolding maybe_write_hint
  maybe_write_hint-IsDurable db d =
      elim (Bool-cases
        (leb_ℤ db.opts.hint_every_n (pos 0) || ltb_ℤ (pos db.writes) db.opts.hint_every_n)) [
          | inl early ↦ rw (early, maybe_write_hint) d
          | inr due ↦ elim (Option-cases db.pending) [
            | inl free ↦
                rw (due, maybe_write_hint, free)
                  (record {
                    logged = d.logged;
                    keys = d.keys;
                    blobs = d.blobs;
                    current = d.current;
                  })
            | inr (snap, busy) ↦ rw (due, maybe_write_hint, busy) d
          ]
        ]

  counted_hint-IsDurable :
      (db : Db env)
      → IsDurable env db
      → IsDurable env (maybe_write_hint env (record db { writes = db.writes + 1 }))
  counted_hint-IsDurable db d =
      maybe_write_hint-IsDurable _
        (record { logged = d.logged; keys = d.keys; blobs = d.blobs; current = d.current })

-- A put, of a key that a delete can log too.
module _ (env : Env) (law : IsTrees env.trees) (db : Db env) (d : IsDurable env db)
    (key value : Bytes) (k : CarriedKey env key) (short : length value < 2 ^ 31)
    (explicit : IndexValues) where
  -- The log carries the record of the put, with the index values that it gets.
  abbrev pub CarriedPut : ℤ → Type 0
  CarriedPut exp =
      (ix : IndexValues)
      → build_index_values env db.index_defs db.index.sec key value explicit ≡ ok ix
      → (line : Bytes) × Carried env (logged_record env db d.current.0 key value ix exp) line

  accepted-Succeeds :
      (ix : IndexValues) (exp : ℤ)
      → ((line : Bytes) × Carried env (logged_record env db d.current.0 key value ix exp) line)
      → Succeeds env (
          continue (append_record env key value ix exp db.opts.sync_every_write false db) (λ _ db'.
            continue
              (enforce_max_per_value env ix db')
              (λ _ db''. (ok tt, maybe_write_hint env (record db'' { writes = db''.writes + 1 })))))
  accepted-Succeeds ix exp c =
      continue-Succeeds env _ _
        (append_record-Succeeds env law db key value ix exp db.opts.sync_every_write c.0 k d c.1
          short)
        (λ db' d'.
          continue-Succeeds env _ _ (enforce_max_per_value-Succeeds env law ix db' d')
            (λ db'' d''. (refl, counted_hint-IsDurable env db'' d'')))

  -- On a durable store, with what PutIndexed asks of key, value and record, a write whose index
  -- values are valid and which passes the self-eviction check returns no error, with its
  -- evictions, and leaves the store durable.
  pub write-Succeeds :
      (ix : IndexValues) (exp : ℤ)
      → CarriedPut exp
      → build_index_values env db.index_defs db.index.sec key value explicit ≡ ok ix
      → check_self_eviction env db.index.sec key ix ≡ ok tt
      → Succeeds env (write env key value explicit exp db)
  unfolding write
  write-Succeeds ix exp carried b c = rw (b, c, write) (accepted-Succeeds ix exp (carried ix b))

  abbrev Atomic : Result (Unit {0}) × Db env → Type 0
  Atomic x = Refused env db x ⊎ Succeeds env x

  write-Atomic : (exp : ℤ) → CarriedPut exp → Atomic (write env key value explicit exp db)
  unfolding write
  write-Atomic exp carried =
      built (build_index_values env db.index_defs db.index.sec key value explicit) refl
    where
      checked :
          (ix : IndexValues) (r : Result (Unit {0}))
          → build_index_values env db.index_defs db.index.sec key value explicit ≡ ok ix
          → check_self_eviction env db.index.sec key ix ≡ r
          → Atomic (write env key value explicit exp db)
      checked ix (ok u) b c = inr (write-Succeeds ix exp carried b c)
      checked ix (err e) b c = inl (e, rw (b, c, write) refl)

      built :
          (r : Result IndexValues)
          → build_index_values env db.index_defs db.index.sec key value explicit ≡ r
          → Atomic (write env key value explicit exp db)
      built (ok ix) b = checked ix (check_self_eviction env db.index.sec key ix) b refl
      built (err e) b = inl (e, rw (b, write) refl)

  -- On a durable store, for a key whose tombstone the log carries, a value shorter than 2 ^ 31
  -- bytes and a record that the log carries with the index values that it gets, PutIndexed is
  -- refused with an error and leaves the store as it was, or it goes through with its evictions
  -- and leaves the store durable: its log replays to its indexes.
  pub put_indexed-Atomic :
      (now : ℤ) (ttl : List ℤ)
      → ((exp : ℤ) → resolve_ttl now ttl ≡ ok exp → CarriedPut exp)
      → Refused env db (put_indexed env now key value explicit ttl db)
        ⊎ Succeeds env (put_indexed env now key value explicit ttl db)
  unfolding put_indexed
  put_indexed-Atomic now ttl carried = expires (resolve_ttl now ttl) refl
    where
      opened :
          (exp : ℤ) (shut : Bool)
          → CarriedPut exp
          → Atomic (if shut then (err closed, db) else write env key value explicit exp db)
      opened exp true c = inl (closed, refl)
      opened exp false c = write-Atomic exp c

      expires :
          (r : Result ℤ)
          → resolve_ttl now ttl ≡ r
          → Atomic (put_indexed env now key value explicit ttl db)
      expires (err e) h = inl (e, rw (h, put_indexed) refl)
      expires (ok exp) h = rw (h, put_indexed) (opened exp db.closed (carried exp h))

module _ (env : Env) (law : IsTrees env.trees) (db : Db env) (d : IsDurable env db) where
  -- On a durable store, a Delete of a key whose tombstone the log carries is refused and leaves
  -- the store as it was, or goes through and leaves the store durable.
  pub delete-Atomic :
      (key : Bytes)
      → CarriedKey env key
      → Refused env db (delete env key db) ⊎ Succeeds env (delete env key db)
  unfolding delete
  delete-Atomic key k = elim (Bool-cases db.closed) [
    | inl shut ↦ inl (closed, rw (shut, delete) refl)
    | inr is_open ↦ elim (Option-cases (PkIndex.get env.trees.pk db.index.pk key)) [
      | inl miss ↦ inr (rw (is_open, delete, miss) (refl, d))
      | inr (e, hit) ↦ inr (
          rw (is_open, delete, hit)
            (continue-Succeeds env _ _ (delete_locked-Succeeds env law db key k d)
              (λ db' d'. (refl, maybe_write_hint-IsDurable env db' d'))))
    ]
  ]
