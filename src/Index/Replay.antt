-- ===== src/Index/Replay.antt =====
-- A record of the log, on indexes that hold the same.
use ntee_db.Base.{ℕ, Bool, true, false, if◌then◌else◌, [], ◌∷◌, Option, none, some}
use mathlib.Core.Path.{subst}
use ntee_db.Base.Int.{ℤ}
use ntee_db.Bytes.{Bytes}
use ntee_db.Record.{Record, IndexValues, is_tombstone}
use ntee_db.MainLog.{Visit, go, stop}
use ntee_db.PkIndex
use ntee_db.PkIndex.{PkEntry, key_only}
use ntee_db.Index.{
  Trees, Index, retract_entry, retract_sec, add_values, refresh_sec, delete_key, put_key,
  is_dangling, replay_record, is_empty, remove_sec,
}
use ntee_db.Index.View.{
  IsTrees, SameIndex, SameSecs-insert_sec, SameSecs-remove_sec, same_get, same_set_ix, same_upsert,
  same_delete,
}

module _ (trees : Trees) where
  -- Both go on, to indexes that hold the same.
  abbrev pub SameVisit : Visit (Index trees) → Visit (Index trees) → Type 0
  SameVisit (go a) (go b) = SameIndex trees a b
  SameVisit (go a) stop = ⊥
  SameVisit stop (go b) = ⊥
  SameVisit stop stop = Unit

module _ (trees : Trees) (law : IsTrees trees) where
  SameIndex-retract_entry :
      (key : Bytes) (o : Option PkEntry) (a b : Index trees)
      → SameIndex trees a b
      → SameIndex trees (retract_entry trees key a o) (retract_entry trees key b o)
  SameIndex-retract_entry key none a b s = s
  SameIndex-retract_entry key (some e) a b s = go_on (is_empty trees e.ix)
    where
      go_on :
          (c : Bool)
          → SameIndex trees
              (if c then a else record {
                pk = PkIndex.set_ix trees.pk a.pk key [];
                sec = remove_sec trees key e.ix a.sec;
              })
              (if c then b else record {
                pk = PkIndex.set_ix trees.pk b.pk key [];
                sec = remove_sec trees key e.ix b.sec;
              })
      go_on true = s
      go_on false = record {
        pk = same_set_ix trees law a.pk b.pk key [] s.pk;
        sec = SameSecs-remove_sec trees law key e.ix a.sec b.sec s.sec;
      }

  pub SameIndex-retract_sec :
      (key : Bytes) (a b : Index trees)
      → SameIndex trees a b
      → SameIndex trees (retract_sec trees key a) (retract_sec trees key b)
  unfolding retract_sec PkIndex.get
  SameIndex-retract_sec key a b s =
      subst (λ o. SameIndex trees (retract_sec trees key a) (retract_entry trees key b o))
        (same_get trees law a.pk b.pk (key_only key) s.pk)
        (SameIndex-retract_entry key (PkIndex.get trees.pk a.pk key) a b s)

  pub SameIndex-add_values :
      (key : Bytes) (ix : IndexValues) (a b : Index trees)
      → SameIndex trees a b
      → SameIndex trees (add_values trees key ix a) (add_values trees key ix b)
  SameIndex-add_values key [] a b s = s
  SameIndex-add_values key (v ∷ ix) a b s = record {
    pk = same_set_ix trees law a.pk b.pk key (v ∷ ix) s.pk;
    sec = SameSecs-insert_sec trees law key (v ∷ ix) a.sec b.sec s.sec;
  }

  pub SameIndex-delete_key :
      (key : Bytes) (a b : Index trees)
      → SameIndex trees a b
      → SameIndex trees (delete_key trees key a) (delete_key trees key b)
  unfolding delete_key PkIndex.remove
  SameIndex-delete_key key a b s =
      let r = SameIndex-retract_sec key a b s in
      record { pk = same_delete trees law _ _ (key_only key) r.pk; sec = r.sec }

  pub SameIndex-put_key :
      (key : Bytes) (off n : ℕ) (exp : ℤ) (ix : IndexValues) (a b : Index trees)
      → SameIndex trees a b
      → SameIndex trees (put_key trees key off n exp ix a) (put_key trees key off n exp ix b)
  unfolding put_key refresh_sec
  SameIndex-put_key key off n exp ix a b s = SameIndex-add_values key ix _ _ (
      SameIndex-retract_sec key _ _
        (record { pk = same_upsert trees law a.pk b.pk _ s.pk; sec = s.sec }))

  -- On indexes that hold the same entries, whatever the trees look like, the replay of a record
  -- goes on with both or stops with both, and leaves indexes that hold the same entries.
  pub SameVisit-replay_record :
      (blob_size : ℕ → ℕ) (a b : Index trees) (r : Record) (off n : ℕ)
      → SameIndex trees a b
      → SameVisit trees
          (replay_record trees blob_size a r off n)
          (replay_record trees blob_size b r off n)
  unfolding replay_record
  SameVisit-replay_record blob_size a b r off n s =
      go_on (is_dangling trees blob_size r.blob) (is_tombstone r)
    where
      go_on :
          (c d : Bool)
          → SameVisit trees
              (if c
                then stop
                else if d
                then go (delete_key trees r.key a)
                else go (put_key trees r.key off n r.exp r.ix a))
              (if c
                then stop
                else if d
                then go (delete_key trees r.key b)
                else go (put_key trees r.key off n r.exp r.ix b))
      go_on true d = tt
      go_on false true = SameIndex-delete_key r.key a b s
      go_on false false = SameIndex-put_key r.key off n r.exp r.ix a b s
