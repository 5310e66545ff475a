-- ===== src/Db/Reaping.antt =====
-- nteedb-core/db.go: which keys a cycle of the reaper takes.
use ntee_db.Base.{
  ℕ, ◌≡◌, refl, ap, sym, ◌∙◌, Bool, true, false, Option, none, some, List, [], ◌∷◌, take, drop,
  if◌then◌else◌, Bool-cases, inl, inr, ◌⊎◌, arith,
}
use mathlib.Core.Path.{subst}
use ntee_db.Base.Int.{ℤ}
use ntee_db.Bytes.{Bytes, bytes_eq}
use ntee_db.Bytes.Laws.{bytes_eq→eq}
use ntee_db.Result.{Result, ok, err}
use ntee_db.Run.{continue}
use ntee_db.Record.{blank}
use ntee_db.MainLog
use ntee_db.MainLog.{MainLog}
use ntee_db.PkIndex
use ntee_db.PkIndex.{PkEntry, expired_at}
use ntee_db.Index.{Index, delete_key}
use ntee_db.Index.View.{IsTrees}
use ntee_db.Index.Keys.{get-delete_key}
use ntee_db.Db.{Env, Db, delete_locked, log_append, forget, flush_main, maybe_write_hint}
use ntee_db.Db.Reaper.{still_doomed, reap_each, reap_done, reap_batch, reap_cycle}
use ntee_db.Db.ReadBack.{maybe_write_hint_lem}

module _ (env : Env) where
  -- Of these indexes, the second has the keys of the first but some that have expired.
  abbrev pub LosesExpired : ℤ → Index env.trees → Index env.trees → Type 0
  LosesExpired now a b =
      (j : Bytes)
      → (PkIndex.get env.trees.pk b.pk j ≡ PkIndex.get env.trees.pk a.pk j)
        ⊎ ((PkIndex.get env.trees.pk b.pk j ≡ none)
            × ((e : PkEntry) × (PkIndex.get env.trees.pk a.pk j ≡ some e)
                × (expired_at e now ≡ true)))

  LosesExpired-trans :
      (now : ℤ) (a b c : Index env.trees)
      → LosesExpired now a b
      → LosesExpired now b c
      → LosesExpired now a c
  LosesExpired-trans now a b c f g j = elim (f j) [
    | inl same ↦ elim (g j) [
      | inl same' ↦ inl (same' ∙ same)
      | inr (gone, (e, had, dead)) ↦ inr (gone, (e, sym same ∙ had, dead))
    ]
    | inr (gone, (e, had, dead)) ↦ elim (g j) [
      | inl same' ↦ inr (same' ∙ gone, (e, had, dead))
      | inr (gone', _) ↦ inr (gone', (e, had, dead))
    ]
  ]

  forgotten :
      (key : Bytes) (db : Db env) (x : Result (ℕ × ℕ) × MainLog)
      → ((continue (x.0, record db { main = x.1 }) (forget env key)).1.index ≡ db.index)
        ⊎ ((continue (x.0, record db { main = x.1 }) (forget env key)).1.index
            ≡ delete_key env.trees key db.index)
  forgotten key db (ok at, main) = inr refl
  forgotten key db (err e, main) = inl refl

  delete_locked-index :
      (key : Bytes) (db : Db env)
      → ((delete_locked env key db).1.index ≡ db.index)
        ⊎ ((delete_locked env key db).1.index ≡ delete_key env.trees key db.index)
  unfolding delete_locked log_append
  delete_locked-index key db =
      forgotten key db
        (MainLog.append_sync env.json (record (blank key) { deleted = true }) db.main.sync db.main)

  still_doomed_lem :
      (now : ℤ) (off : ℕ) (o : Option PkEntry)
      → still_doomed env now off o ≡ true
      → (e : PkEntry) × (o ≡ some e) × (expired_at e now ≡ true)
  still_doomed_lem now off none h = absurd (cc)
  still_doomed_lem now off (some e) h = (e, refl, ground arith)

module _ (env : Env) (law : IsTrees env.trees) (now : ℤ) where
  delete_locked-LosesExpired :
      (key : Bytes) (off : ℕ) (db : Db env)
      → still_doomed env now off (PkIndex.get env.trees.pk db.index.pk key) ≡ true
      → LosesExpired env now db.index (delete_locked env key db).1.index
  delete_locked-LosesExpired key off db h j = elim (delete_locked-index env key db) [
    | inl same ↦ inl (ap (λ idx. PkIndex.get env.trees.pk idx.pk j) same)
    | inr gone ↦
        let (e, had, dead) = still_doomed_lem env now off _ h in
        let left =
          ap (λ idx. PkIndex.get env.trees.pk idx.pk j) gone
          ∙ get-delete_key env.trees law key db.index j in
        elim (Bool-cases (bytes_eq j key)) [
          | inl here ↦ inr (
            ground (arith, left),
            (e, ap (PkIndex.get env.trees.pk db.index.pk) (bytes_eq→eq j key here) ∙ had, dead),
          )
          | inr there ↦ inl (ground (arith, left))
        ]
  ]

  abbrev Later : List (Bytes × ℕ) → Type 0
  Later rest =
      (reaped : Bool) (db : Db env)
      → LosesExpired env now db.index (reap_each env now rest reaped db).1.index

  reap_each-LosesExpired :
      (batch : List (Bytes × ℕ)) (reaped : Bool) (db : Db env)
      → LosesExpired env now db.index (reap_each env now batch reaped db).1.index
  unfolding reap_each
  reap_each-LosesExpired [] reaped db = λ j. inl refl
  reap_each-LosesExpired ((key, off) ∷ rest) reaped db =
      visit (reap_each-LosesExpired rest)
        (still_doomed env now off (PkIndex.get env.trees.pk db.index.pk key)) refl
    where
      resume :
          Later rest
          → (x : Result (Unit {0}) × Db env) → LosesExpired env now db.index x.1.index
          → LosesExpired env now db.index
              (elim x.0 as (λ _. Option Bool × Db env) [
                | err e ↦ (none, x.1)
                | ok _ ↦ reap_each env now rest true x.1
              ]).1.index
      resume later (err e, db') h = h
      resume later (ok _, db') h =
          LosesExpired-trans env now db.index db'.index (reap_each env now rest true db').1.index h
            (later true db')

      visit :
          Later rest
          → (b : Bool) → still_doomed env now off (PkIndex.get env.trees.pk db.index.pk key) ≡ b
          → LosesExpired env now db.index
              (elim b as (λ _. Option Bool × Db env) [
                | false ↦ reap_each env now rest reaped db
                | true ↦ elim (delete_locked env key db).0 as (λ _. Option Bool × Db env) [
                  | err e ↦ (none, (delete_locked env key db).1)
                  | ok _ ↦ reap_each env now rest true (delete_locked env key db).1
                ]
              ]).1.index
      visit later false h = later reaped db
      visit later true h =
          resume later (delete_locked env key db) (delete_locked-LosesExpired key off db h)

  reap_done-index : (x : Option Bool × Db env) → (reap_done env x).index ≡ x.1.index
  unfolding flush_main
  reap_done-index (none, db) = refl
  reap_done-index (some false, db) = refl
  reap_done-index (some true, db) =
      hinted (if db.opts.sync_every_write then (flush_main env db).1 else db)
        (flushed db.opts.sync_every_write)
    where
      flushed : (b : Bool) → (if b then (flush_main env db).1 else db).index ≡ db.index
      flushed true = refl
      flushed false = refl

      hinted : (db' : Db env) → db'.index ≡ db.index → (maybe_write_hint env db').index ≡ db.index
      hinted db' h =
          let (writes, pending, same) = maybe_write_hint_lem env db' in
          ap (λ (x : Db env). x.index) same ∙ h

  -- A cycle of the reaper, whatever it finds queued and whatever call on a file fails, leaves each
  -- key its entry, or takes the entry of a key that has one which has expired.
  pub reap_cycle-LosesExpired :
      (db : Db env) → LosesExpired env now db.index (reap_cycle env now db).index
  unfolding reap_cycle reap_batch
  reap_cycle-LosesExpired db = opened db.closed
    where
      rest : Db env
      rest = record db { reap_queue = drop 64 db.reap_queue }

      opened :
          (shut : Bool)
          → LosesExpired env now db.index
              (if shut
                then rest
                else reap_done env (reap_each env now (take 64 db.reap_queue) false rest)).index
      opened true = λ j. inl refl
      opened false =
          subst (LosesExpired env now db.index)
            (sym (reap_done-index (reap_each env now (take 64 db.reap_queue) false rest)))
            (reap_each-LosesExpired (take 64 db.reap_queue) false rest)
