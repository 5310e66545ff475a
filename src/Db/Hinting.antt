-- ===== src/Db/Hinting.antt =====
-- nteedb-core/db.go: load from a hint, and from what the log has behind it.
use ntee_db.Base.{
  ℕ, ◌+◌, ◌<◌, ◌≡◌, refl, ap, sym, ◌∙◌, true, some, List, [], ◌∷◌, ◌++◌, length, take, leb, arith,
  if◌then◌else◌, take_append, drop_append, length-append,
}
use mathlib.Core.List.{append_assoc, append-nil}
use mathlib.Core.Path.{subst}
use ntee_db.Bytes.{Bytes}
use ntee_db.Btree.{All, IsSorted, put}
use ntee_db.Btree.Items.{All-append}
use ntee_db.Record.{IsLine, IndexValues}
use ntee_db.MainLog.{scan_main_log, scan_lines, complete_lines}
use ntee_db.MainLog.Lines.{image, Scanned, scanned, scans, scan_lines-Scanned, complete_lines-image}
use ntee_db.PkIndex.{PkEntry, pk_order}
use ntee_db.SecIndex.{IndexDef}
use ntee_db.Index.{Index, SecIndexes, is_empty, insert_sec, rebuild_from, replay_record}
use ntee_db.Index.View.{IsTrees, SameIndex, SameSecs}
use ntee_db.Index.Replay.{SameVisit, SameVisit-replay_record}
use ntee_db.Index.Appending.{put_last}
use ntee_db.Hint.{hint_buffer}
use ntee_db.Hint.RoundTrip.{IsHintCodec, IsHinted, first_line, load-write_index_hint}
use ntee_db.Db.{Env, hint_of}
use ntee_db.Db.Boot.{fresh, load, load_entries, replay_tail}
use ntee_db.Db.Logged.{go_of_same}

module _ (env : Env) (law : IsTrees env.trees) where
  -- A scan goes the same way from indexes that hold the same.
  Scanned-same :
      (blob_size : ℕ → ℕ) {off end : ℕ} {s t : Index env.trees} {lines : List Bytes}
      (s' : Index env.trees)
      → Scanned env.json (replay_record env.trees blob_size) off s lines end t
      → SameIndex env.trees s' s
      → (t' : Index env.trees) × Scanned env.json
          (replay_record env.trees blob_size)
          off
          s'
          lines
          end
          t'
        × SameIndex env.trees t' t
  Scanned-same b s' scanned same = (s', scanned, same)
  Scanned-same b s' (scans {off = o} {s = s} {s' = u} {line = l} r f d v rest) same =
      let (u', goes, same') = go_of_same env (replay_record env.trees b s' r o (length l + 1)) (
        subst (SameVisit env.trees (replay_record env.trees b s' r o (length l + 1))) v
          (SameVisit-replay_record env.trees law b s' s r o (length l + 1) same)) in
      let (t', next, last) = Scanned-same b u' rest same' in (t', scans r f d goes next, last)

  add_nothing :
      (key : Bytes) (ix : IndexValues) (sec : SecIndexes env.trees)
      → (if is_empty env.trees ix then sec else insert_sec env.trees key ix sec)
        ≡ insert_sec env.trees key ix sec
  unfolding insert_sec
  add_nothing key [] sec = refl
  add_nothing key (v ∷ ix) sec = refl

  sec-load_entries :
      (es : List PkEntry) (idx : Index env.trees)
      → (load_entries env es idx).sec ≡ rebuild_from env.trees es idx.sec
  unfolding load_entries rebuild_from
  sec-load_entries [] idx = refl
  sec-load_entries (e ∷ es) idx =
      sec-load_entries es _ ∙ ap (rebuild_from env.trees es) (add_nothing e.key e.ix idx.sec)

  -- All of the first items are below each of the others.
  abbrev AllBelow : List PkEntry → List PkEntry → Type 0
  AllBelow xs es = All (λ e. All (λ x. pk_order.less x e ≡ true) xs) es

  AllBelow-next :
      (e : PkEntry) (xs es : List PkEntry)
      → All (λ y. pk_order.less e y ≡ true) es
      → AllBelow xs es
      → AllBelow (xs ++ e ∷ []) es
  AllBelow-next e xs [] s b = tt
  AllBelow-next e xs (y ∷ ys) s b = (
    All-append (λ x. pk_order.less x y ≡ true) xs (e ∷ []) b.0 (s.0, tt),
    AllBelow-next e xs ys s.1 b.1,
  )

  scan-load_entries :
      (es xs : List PkEntry) (idx : Index env.trees)
      → env.trees.pk.scan idx.pk ≡ xs
      → IsSorted pk_order.less es
      → AllBelow xs es
      → env.trees.pk.scan (load_entries env es idx).pk ≡ xs ++ es
  unfolding load_entries
  scan-load_entries [] xs idx h s b = h ∙ sym (append-nil xs)
  scan-load_entries (e ∷ es) xs idx h s b =
      scan-load_entries es (xs ++ e ∷ []) _
        (law.pk.scan-load idx.pk e ∙ ap (put pk_order.less e) h ∙ put_last pk_order e xs b.0) s.1
        (AllBelow-next e xs es s.0 b.1)
      ∙ append_assoc xs (e ∷ []) es

  AllBelow-none : (es : List PkEntry) → AllBelow [] es
  AllBelow-none [] = tt
  AllBelow-none (e ∷ es) = (tt, AllBelow-none es)

  -- The secondary indexes hold what the entries of the primary index say.
  abbrev pub IsRebuilt : List IndexDef → Index env.trees → Type 0
  IsRebuilt defs idx =
      SameSecs env.trees
        (rebuild_from env.trees (env.trees.pk.scan idx.pk) (fresh env.trees defs).sec) idx.sec

  hint_same :
      (defs : List IndexDef) (idx : Index env.trees)
      → IsRebuilt defs idx
      → SameIndex env.trees (load_entries env (env.trees.pk.scan idx.pk) (fresh env.trees defs)) idx
  hint_same defs idx r = record {
    pk =
        scan-load_entries (env.trees.pk.scan idx.pk) [] (fresh env.trees defs) law.pk.scan-new
          (law.pk.scan-IsSorted idx.pk) (AllBelow-none (env.trees.pk.scan idx.pk));
    sec =
        subst (λ s. SameSecs env.trees s idx.sec)
          (sym (sec-load_entries (env.trees.pk.scan idx.pk) (fresh env.trees defs))) r;
  }

  -- Where the JSON codec of the hint keeps its promise: from a hint of indexes whose secondary
  -- ones hold what the primary entries say, of entries of valid UTF-8 with lines that fit the
  -- scanner's buffer, and a log that has gone on behind it by lines whose replay leads to other
  -- indexes, with a torn line of any bytes but a newline behind them after a crash, load rebuilds
  -- indexes that hold the same entries as the latter, and truncates the file to exactly the log.
  pub load-hinted :
      (codec : IsHintCodec env.hints) (blob_size : ℕ → ℕ) (defs : List IndexDef)
      (idx last : Index env.trees) (before : Bytes) (lines : List Bytes) (torn : Bytes)
      → IsRebuilt defs idx
      → length (first_line env.hints codec (length before)) < hint_buffer
      → All (IsHinted env.hints codec) (env.trees.pk.scan idx.pk)
      → All IsLine lines
      → IsLine torn
      → Scanned env.json
          (replay_record env.trees blob_size)
          (length before)
          idx
          lines
          (length (before ++ image lines))
          last
      → (final : Index env.trees) × (load env blob_size
            (some (hint_of env idx.pk (length before)))
            defs
            (before ++ (image lines ++ torn))
          ≡ (final, before ++ image lines))
        × SameIndex env.trees final last
  unfolding load replay_tail scan_main_log
  load-hinted codec b defs idx last before lines torn rebuilt small hinted whole t scan =
      let start = load_entries env (env.trees.pk.scan idx.pk) (fresh env.trees defs) in
      let (final, goes, same) = Scanned-same b start scan (hint_same defs idx rebuilt) in
      let content : Bytes = before ++ (image lines ++ torn) in
      let covered : leb (length before) (length content) ≡ true =
        ground (arith, length-append before (image lines ++ torn)) in
      let hint =
        load-write_index_hint env.hints codec (env.trees.pk.scan idx.pk) (length before) small
          hinted in
      (
        final,
        rw (hint, load)
            (rw covered (
              ap
                (λ ls.
                  let r =
                    scan_lines env.json (replay_record env.trees b) (length before) start ls in
                  (r.0, take r.1 content))
                (ap (complete_lines []) (drop_append before (image lines ++ torn))
                  ∙ complete_lines-image lines torn whole t)
              ∙ ap (λ (r : Index env.trees × ℕ). (r.0, take r.1 content)) (scan_lines-Scanned goes)
              ∙ ap (λ c. (final, take (length (before ++ image lines)) c))
                  (sym (append_assoc before (image lines) torn))
              ∙ ap (λ c. (final, c)) (take_append (before ++ image lines) torn))),
        same,
      )
