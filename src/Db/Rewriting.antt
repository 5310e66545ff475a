-- ===== src/Db/Rewriting.antt =====
-- nteedb-core/compact.go: buildRewrite, whose log replays to the index that it builds.
use ntee_db.Base.{
  ◌+◌, ◌≡◌, ap, sym, ◌∙◌, true, false, List, [], ◌∷◌, ◌++◌, length, arith, length-append,
}
use mathlib.Core.Path.{subst}
use ntee_db.Base.Int.{ℤ}
use ntee_db.Bytes.{Bytes}
use ntee_db.Result.{ok}
use ntee_db.Btree.{All}
use ntee_db.Btree.Items.{All-append}
use ntee_db.Record.{Record, IsLine, newline, is_tombstone}
use ntee_db.MainLog.{go, int32, add_int32}
use ntee_db.MainLog.Lines.{
  image, image-append, Scanned, scanned, scans, Scanned-append, int32-Fits, add_int32-Fits,
}
use ntee_db.Blob.{blob_size_of}
use ntee_db.PkIndex.{PkEntry, pk_order, key_only, expired_at}
use ntee_db.Index.{Index, SecIndexes, is_dangling, replay_record, insert_sec, put_key, rebuild_from}
use ntee_db.Index.View.{IsTrees, SameSecs, SameSecs-insert_sec}
use ntee_db.Index.Keys.{put_entry}
use ntee_db.Index.Appending.{put_last, rebuild_from-append, scan-put_new, sec-put_new}
use ntee_db.Db.{Env, Db, read_record}
use ntee_db.Db.Logged.{Carried}
use ntee_db.Db.Compact.{Rewrite, rewrite_line}

module _ (env : Env) where
  -- All the keys so far are below one.
  abbrev pub IsBelow : Rewrite env → PkEntry → Type 0
  IsBelow w e = All (λ x. pk_order.less x (key_only e.key) ≡ true) (env.trees.pk.scan w.pk)

  module _ (db : Db env) (transform : Record → Record) where
    -- What the transform makes of the record of an entry is a record that the log carries and
    -- that puts the key of the entry, with its blob there.
    pub record Kept (e : PkEntry) : Type 0 where
      pub rec : Record
      pub line : Bytes
      pub reads : read_record env db e ≡ ok rec
      pub carried : Carried env (transform rec) line
      pub names : (transform rec).key ≡ e.key
      pub puts : is_tombstone (transform rec) ≡ false
      pub whole : is_dangling env.trees (blob_size_of db.blobs) (transform rec).blob ≡ false

    abbrev pub KeptAlive : ℤ → PkEntry → Type 0
    KeptAlive now e = expired_at e now ≡ false → Kept e

module _ (env : Env) (law : IsTrees env.trees) (db : Db env) (transform : Record → Record)
    (start : Index env.trees) (sec : SecIndexes env.trees) where
  -- The new log so far replays to the new index so far, with the secondary indexes rebuilt.
  pub record Rebuilds (w : Rewrite env) : Type 0 where
    pub lines : List Bytes
    pub final : Index env.trees
    pub size : w.off ≡ length w.content
    pub holds : w.content ≡ image lines
    pub one_each : All IsLine lines
    pub replays :
        Scanned env.json (replay_record env.trees (blob_size_of db.blobs)) 0 start lines w.off final
    pub keys : env.trees.pk.scan final.pk ≡ env.trees.pk.scan w.pk
    pub values : SameSecs env.trees final.sec (rebuild_from env.trees (env.trees.pk.scan w.pk) sec)

  module _ (e : PkEntry) (k : Kept env db transform e) (w : Rewrite env)
      (below : IsBelow env w e) where
    abbrev pub kept : Record
    kept = transform k.rec

    abbrev pub next : Rewrite env
    next = rewrite_line env e kept k.line w

    abbrev added : PkEntry
    added = put_entry e.key w.off (length k.line + 1) kept.exp kept.ix

    length-line : int32 (length (k.line ++ newline ∷ [])) ≡ length k.line + 1
    length-line = ap int32 (length-append k.line (newline ∷ [])) ∙ int32-Fits k.line k.carried.fits

    next-off : next.off ≡ w.off + (length k.line + 1)
    next-off = ap (add_int32 w.off) length-line ∙ add_int32-Fits w.off k.line k.carried.fits

    pub scan-next : env.trees.pk.scan next.pk ≡ env.trees.pk.scan w.pk ++ added ∷ []
    scan-next =
        ap
          (λ n.
            env.trees.pk.scan (env.trees.pk.load w.pk (put_entry e.key w.off n kept.exp kept.ix)))
          length-line
        ∙ law.pk.scan-load w.pk added
        ∙ put_last pk_order added _ below

    visits :
        (idx : Index env.trees)
        → replay_record env.trees (blob_size_of db.blobs) idx kept w.off (length k.line + 1)
          ≡ go (put_key env.trees e.key w.off (length k.line + 1) kept.exp kept.ix idx)
    unfolding replay_record
    visits idx =
        rw (k.whole, k.puts)
          (ap (λ key. go (put_key env.trees key w.off (length k.line + 1) kept.exp kept.ix idx))
            k.names)

    pub Rebuilds-next : Rebuilds w → Rebuilds next
    unfolding image
    Rebuilds-next r =
        let below' : All (λ x. pk_order.less x (key_only e.key) ≡ true)
            (env.trees.pk.scan r.final.pk) =
          subst (All (λ x. pk_order.less x (key_only e.key) ≡ true)) (sym r.keys) below in
        let final' = put_key env.trees e.key w.off (length k.line + 1) kept.exp kept.ix r.final in
        record {
          lines = r.lines ++ k.line ∷ [];
          final = final';
          size =
              next-off
              ∙ omega (
                arith,
                r.size,
                length-append w.content (k.line ++ newline ∷ []),
                length-append k.line (newline ∷ []),
              );
          holds =
              ap (λ b. b ++ (k.line ++ newline ∷ [])) r.holds
              ∙ sym (image-append r.lines (k.line ∷ []));
          one_each = All-append IsLine r.lines (k.line ∷ []) r.one_each (k.carried.one_line, tt);
          replays =
              subst
                (λ n.
                  Scanned env.json (replay_record env.trees (blob_size_of db.blobs)) 0 start
                    (r.lines ++ k.line ∷ []) n final')
                (sym next-off)
                (Scanned-append r.replays
                  (scans kept k.carried.fits k.carried.decodes (visits r.final) scanned));
          keys =
              scan-put_new env.trees law e.key w.off (length k.line + 1) kept.exp r.final below'
                kept.ix
              ∙ ap (λ xs. xs ++ added ∷ []) r.keys
              ∙ sym scan-next;
          values =
              subst (SameSecs env.trees final'.sec)
                (sym (
                  ap (λ xs. rebuild_from env.trees xs sec) scan-next
                  ∙ rebuild_from-append env.trees (env.trees.pk.scan w.pk) added sec))
                (subst
                  (λ s. SameSecs env.trees s (
                    insert_sec env.trees e.key kept.ix
                      (rebuild_from env.trees (env.trees.pk.scan w.pk) sec)))
                  (sym (
                    sec-put_new env.trees law e.key w.off (length k.line + 1) kept.exp r.final
                      below' kept.ix))
                  (SameSecs-insert_sec env.trees law e.key kept.ix _ _ r.values));
        }
