-- ===== src/Index/Shape.antt =====
-- nteedb-core/secindex.go: the records of the log change the entries of the secondary indexes,
-- and neither their names nor their kinds and caps.
use ntee_db.Base.{
  ℕ, ◌≡◌, refl, ap, sym, ◌∙◌, Bool, true, false, Option, none, some, List, [], ◌∷◌, map,
  if◌then◌else◌, Bool-cases, inl, inr,
}
use ntee_db.Base.Int.{ℤ}
use ntee_db.Bytes.{Bytes, bytes_eq}
use ntee_db.Result.{Result, ok, err}
use ntee_db.Record.{Record, Json, AnyValue, IndexValues, is_tombstone}
use ntee_db.MainLog.{Visit, go, stop}
use ntee_db.MainLog.Lines.{Scanned, scanned, scans}
use ntee_db.PkIndex
use ntee_db.PkIndex.{PkEntry}
use ntee_db.SecIndex
use ntee_db.SecIndex.{IndexDef, SecEntry, SecIndex, make_entry}
use ntee_db.Index.{
  Trees, Index, SecIndexes, at_index, with_entry, insert_value, remove_value, insert_sec,
  remove_sec, is_empty, retract_entry, retract_sec, refresh_sec, delete_key, put_key, is_dangling,
  replay_record, clear,
}
use ntee_db.Index.View.{IsTrees, SameSecs}

module _ (trees : Trees) where
  -- Such a change leaves name, kind and cap.
  abbrev Keeps : (SecIndex trees.sec → SecIndex trees.sec) → Type 0
  Keeps change = (si : SecIndex trees.sec) → clear trees (change si ∷ []) ≡ clear trees (si ∷ [])

  clear-at_index :
      (name : Bytes) (change : SecIndex trees.sec → SecIndex trees.sec)
      → Keeps change
      → (sec : SecIndexes trees) → clear trees (at_index trees name change sec) ≡ clear trees sec
  unfolding clear at_index
  clear-at_index name change keeps [] = refl
  clear-at_index name change keeps (si ∷ rest) = elim (Bool-cases (bytes_eq si.name name)) [
    | inl hit ↦
        rw (hit, at_index)
          (ap (λ (xs : SecIndexes trees). head_on xs (clear trees rest)) (keeps si))
    | inr miss ↦
        rw (miss, at_index)
          (ap (λ xs. record si { tree = (trees.sec si.kind).new } ∷ xs)
            (clear-at_index name change keeps rest))
  ]
    where
      head_on : SecIndexes trees → SecIndexes trees → SecIndexes trees
      head_on [] ys = ys
      head_on (x ∷ xs) ys = x ∷ ys

  with_entry-Keeps :
      (op : SecIndex trees.sec → SecEntry → SecIndex trees.sec)
      → ((e : SecEntry) → Keeps (λ si. op si e))
      → (r : Result SecEntry) → Keeps (with_entry trees op r)
  with_entry-Keeps op keeps (ok e) si = keeps e si
  with_entry-Keeps op keeps (err x) si = refl

  insert_value-Keeps : (key : Bytes) (val : AnyValue) → Keeps (insert_value trees key val)
  unfolding insert_value SecIndex.insert clear
  insert_value-Keeps key val si =
      with_entry-Keeps (SecIndex.insert trees.sec) (λ e s. refl) (make_entry si.kind val key) si

  remove_value-Keeps : (key : Bytes) (val : AnyValue) → Keeps (remove_value trees key val)
  unfolding remove_value SecIndex.remove clear
  remove_value-Keeps key val si =
      with_entry-Keeps (SecIndex.remove trees.sec) (λ e s. refl) (make_entry si.kind val key) si

  clear-insert_sec :
      (key : Bytes) (ix : IndexValues) (sec : SecIndexes trees)
      → clear trees (insert_sec trees key ix sec) ≡ clear trees sec
  unfolding insert_sec
  clear-insert_sec key [] sec = refl
  clear-insert_sec key ((name, val) ∷ ix) sec =
      clear-insert_sec key ix _ ∙ clear-at_index name _ (insert_value-Keeps key val) sec

  clear-remove_sec :
      (key : Bytes) (ix : IndexValues) (sec : SecIndexes trees)
      → clear trees (remove_sec trees key ix sec) ≡ clear trees sec
  unfolding remove_sec
  clear-remove_sec key [] sec = refl
  clear-remove_sec key ((name, val) ∷ ix) sec =
      clear-remove_sec key ix _ ∙ clear-at_index name _ (remove_value-Keeps key val) sec

  clear-retract_entry :
      (key : Bytes) (idx : Index trees) (o : Option PkEntry)
      → clear trees (retract_entry trees key idx o).sec ≡ clear trees idx.sec
  clear-retract_entry key idx none = refl
  clear-retract_entry key idx (some e) = elim (Bool-cases (is_empty trees e.ix)) [
    | inl nothing ↦ rw nothing refl
    | inr there ↦ rw there (clear-remove_sec key e.ix idx.sec)
  ]

  clear-retract_sec :
      (key : Bytes) (idx : Index trees)
      → clear trees (retract_sec trees key idx).sec ≡ clear trees idx.sec
  unfolding retract_sec
  clear-retract_sec key idx = clear-retract_entry key idx (PkIndex.get trees.pk idx.pk key)

  clear-put_key :
      (key : Bytes) (off n : ℕ) (exp : ℤ) (ix : IndexValues) (idx : Index trees)
      → clear trees (put_key trees key off n exp ix idx).sec ≡ clear trees idx.sec
  unfolding put_key refresh_sec
  clear-put_key key off n exp [] idx = clear-retract_sec key _
  clear-put_key key off n exp (v ∷ ix) idx =
      clear-insert_sec key (v ∷ ix) _ ∙ clear-retract_sec key _

  clear-replay_record :
      (blob_size : ℕ → ℕ) (idx : Index trees) (r : Record) (off n : ℕ) (idx' : Index trees)
      → replay_record trees blob_size idx r off n ≡ go idx'
      → clear trees idx'.sec ≡ clear trees idx.sec
  unfolding replay_record delete_key
  clear-replay_record blob_size idx r off n idx' h =
      went (is_dangling trees blob_size r.blob) (is_tombstone r) h
    where
      reached : Visit (Index trees) → SecIndexes trees
      reached (go i) = i.sec
      reached stop = idx.sec

      went :
          (c d : Bool)
          → (if c
              then stop
              else if d
              then go (delete_key trees r.key idx)
              else go (put_key trees r.key off n r.exp r.ix idx))
            ≡ go idx'
          → clear trees idx'.sec ≡ clear trees idx.sec
      went true d h = ap (λ v. clear trees (reached v)) (sym h)
      went false true h = ap (λ v. clear trees (reached v)) (sym h) ∙ clear-retract_sec r.key idx
      went false false h =
          ap (λ v. clear trees (reached v)) (sym h) ∙ clear-put_key r.key off n r.exp r.ix idx

  pub clear-Scanned :
      (json : Json) (blob_size : ℕ → ℕ) {off end : ℕ} {s t : Index trees} {lines : List Bytes}
      → Scanned json (replay_record trees blob_size) off s lines end t
      → clear trees t.sec ≡ clear trees s.sec
  clear-Scanned json b scanned = refl
  clear-Scanned json b (scans {off = o} {s = s} {s' = s'} {line = l} r f d v rest) =
      clear-Scanned json b rest ∙ clear-replay_record b s r o _ s' v

  pub clear-new :
      (defs : List IndexDef)
      → clear trees (map (SecIndex.new_sec_index trees.sec) defs)
        ≡ map (SecIndex.new_sec_index trees.sec) defs
  unfolding clear SecIndex.new_sec_index
  clear-new [] = refl
  clear-new (def ∷ defs) = ap (λ xs. SecIndex.new_sec_index trees.sec def ∷ xs) (clear-new defs)

  pub SameSecs-clear :
      (law : IsTrees trees) (xs ys : SecIndexes trees)
      → SameSecs trees xs ys
      → SameSecs trees (clear trees xs) (clear trees ys)
  unfolding clear
  SameSecs-clear law [] [] s = tt
  SameSecs-clear law [] (y ∷ ys) s = absurd s
  SameSecs-clear law (x ∷ xs) [] s = absurd s
  SameSecs-clear law (x ∷ xs) (y ∷ ys) s = (
    record {
      name = s.0.name;
      kind = s.0.kind;
      max = s.0.max;
      items = (law.sec x.kind).scan-new ∙ sym (law.sec y.kind).scan-new;
    },
    SameSecs-clear law xs ys s.1,
  )
