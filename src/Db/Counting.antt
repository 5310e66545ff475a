-- ===== src/Db/Counting.antt =====
-- nteedb-core/counter.go: a counter that Incr creates.
use ntee_db.Base.{
  ℕ, ◌+◌, ◌≡◌, refl, ap, ◌∙◌, true, false, Option, none, some, List, [], length, arith,
}
use ntee_db.Base.Int.{ℤ, pos, negsuc, IsInt64, wrap64, ◌+ℤ◌, ◌-ℤ◌}
use ntee_db.Bytes.{Bytes}
use ntee_db.Bytes.Laws.{bytes_eq_refl}
use ntee_db.Result.{ok}
use ntee_db.Record.{Record}
use ntee_db.MainLog.Appends.{IsSound}
use ntee_db.Counter.{apply, incr_step, format_counter}
use ntee_db.PkIndex
use ntee_db.PkIndex.{expired_at}
use ntee_db.Ttl.{resolve_ttl}
use ntee_db.Index.View.{IsTrees}
use ntee_db.Index.Keys.{put_entry, get-put_key}
use ntee_db.Db.{Env, Db, Snapshot, maybe_write_hint, read_record}
use ntee_db.Db.Write.{append_record, inline_record}
use ntee_db.Db.Logged.{Carried}
use ntee_db.Db.Durable.{stored, append_logged_lem}
use ntee_db.Db.Read.{get, pk_get_live}
use ntee_db.Db.ReadBack.{read_record-stored, maybe_write_hint_lem}
use ntee_db.Db.Counters.{counter_update, incr, incr_append}

incr_from_zero : (delta : ℤ) → IsInt64 delta → incr_step delta (pos 0) ≡ apply delta
unfolding incr_step ◌+ℤ◌ ◌-ℤ◌ wrap64
incr_from_zero (pos n) h = ground arith
incr_from_zero (negsuc n) h = ground arith

module _ (env : Env) (law : IsTrees env.trees) (db : Db env) (key : Bytes) (v : ℤ) where
  -- The record of a new counter.
  abbrev pub counter_record : ℤ → Record
  counter_record exp = inline_record env key (format_counter v) [] exp true

  -- The store after its append.
  abbrev after_incr : ℤ → Bytes → ℕ → Option (Snapshot env) → Db env
  after_incr exp line writes pending = record (stored env db (counter_record exp) line) {
    writes = writes;
    pending = pending;
  }

  incr_append_lem :
      (exp : ℤ) (line : Bytes)
      → IsSound db.main
      → Carried env (counter_record exp) line
      → incr_append env key v exp db
        ≡ (ok tt, maybe_write_hint env (after_incr exp line (db.writes + 1) db.pending))
  unfolding incr_append append_record
  incr_append_lem exp line s c =
      ground
        (arith, append_logged_lem env db (counter_record exp) line db.opts.sync_every_write s c)

  get-after_incr :
      (later exp : ℤ) (line : Bytes) (writes : ℕ) (pending : Option (Snapshot env))
      → IsSound db.main
      → Carried env (counter_record exp) line
      → expired_at (put_entry key db.main.size (length line + 1) exp []) later ≡ false
      → db.closed ≡ false
      → (get env later key (after_incr exp line writes pending)).0 ≡ ok (some (format_counter v))
  unfolding get pk_get_live read_record
  get-after_incr later exp line writes pending s c live is_open = ground (
    arith,
    get-put_key env.trees law key db.main.size (length line + 1) exp [] db.index key,
    bytes_eq_refl key,
    read_record-stored env db (counter_record exp) line s c
        (put_entry key db.main.size (length line + 1) exp []) refl refl,
  )

  -- On an open store with a sound log, Incr of a key that has no entry, by an int64, returns that
  -- int64 and creates the counter: Get then returns its fixed-width form at every time at which
  -- the entry has not expired.
  pub get-incr :
      (now later exp : ℤ) (ttl : List ℤ) (line : Bytes)
      → IsSound db.main
      → db.closed ≡ false
      → IsInt64 v
      → resolve_ttl now ttl ≡ ok exp
      → PkIndex.get env.trees.pk db.index.pk key ≡ none
      → Carried env (counter_record exp) line
      → expired_at (put_entry key db.main.size (length line + 1) exp []) later ≡ false
      → ((incr env now key v ttl db).0 ≡ ok v)
        × ((get env later key (incr env now key v ttl db).1).0 ≡ ok (some (format_counter v)))
  unfolding incr counter_update
  get-incr now later exp ttl line s is_open i t miss c live =
      let (writes, pending, h) =
        maybe_write_hint_lem env (after_incr exp line (db.writes + 1) db.pending) in
      (
        ap (λ x. x.0) runs,
        ap (λ x. (get env later key x.1).0) runs
            ∙ ap (λ x. (get env later key x).0) h
            ∙ get-after_incr later exp line writes pending s c live is_open,
      )
    where
      runs :
          incr env now key v ttl db
          ≡ (ok v, maybe_write_hint env (after_incr exp line (db.writes + 1) db.pending))
      runs = ground (arith, t, is_open, miss, incr_from_zero v i, incr_append_lem exp line s c)
