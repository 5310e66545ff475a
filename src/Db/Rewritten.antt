-- ===== src/Db/Rewritten.antt =====
-- nteedb-core/compact.go: the loop of buildRewrite over the entries.
use ntee_db.Base.{
  ◌≡◌, refl, ap, sym, ◌∙◌, true, false, none, some, List, [], ◌∷◌, ◌++◌, map, if◌then◌else◌,
  Bool-cases, inl, inr,
}
use mathlib.Core.List.{append_assoc, append-nil}
use mathlib.Core.Path.{subst}
use ntee_db.Base.Int.{ℤ}
use ntee_db.Bytes.{Bytes}
use ntee_db.Result.{Result, ok, err, encoding}
use ntee_db.Run
use ntee_db.Run.{Run, continue}
use ntee_db.Btree.{All, IsSorted}
use ntee_db.Btree.Items.{All-append}
use ntee_db.Record.{Record, marshal_record, newline}
use ntee_db.Blob.{BlobStore}
use ntee_db.PkIndex.{PkEntry, pk_order, key_only, expired_at}
use ntee_db.Index.{Index, SecIndexes}
use ntee_db.Index.View.{IsTrees}
use ntee_db.Db.{Env, Db, read_record}
use ntee_db.Db.Compact.{Rewrite, rewrite_line, rewrite_entry, rewrite_each}
use ntee_db.Db.Rewriting.{Kept, KeptAlive, Rebuilds, IsBelow, scan-next, Rebuilds-next}

abbrev pub keys_of : List PkEntry → List Bytes
keys_of es = map (λ e. e.key) es

-- The entries that have not expired.
unfoldable pub unexpired : ℤ → List PkEntry → List PkEntry
unexpired now [] = []
unexpired now (e ∷ rest) =
    let more = unexpired now rest in if expired_at e now then more else e ∷ more

module _ (env : Env) (db : Db env) (transform : Record → Record) where
  -- The line of the record of an entry, after the transform.
  abbrev written : Result Record → Bytes
  written (err _) = []
  written (ok rec) = elim (marshal_record env.json (transform rec)) [
    | none ↦ []
    | some line ↦ line ++ newline ∷ []
  ]

  unfoldable pub lines_of : List PkEntry → Bytes
  lines_of [] = []
  lines_of (e ∷ rest) = written (read_record env db e) ++ lines_of rest

module _ (env : Env) (law : IsTrees env.trees) (db : Db env) (transform : Record → Record) (now : ℤ)
    (start : Index env.trees) (sec : SecIndexes env.trees) where
  -- From one state of the rewrite to another, over these entries.
  pub record Rewrites (w : Rewrite env) (es : List PkEntry) (w' : Rewrite env) : Type 0 where
    pub rebuilds : Rebuilds env law db transform start sec w'
    pub keys :
        keys_of (env.trees.pk.scan w'.pk)
        ≡ keys_of (env.trees.pk.scan w.pk) ++ keys_of (unexpired now es)
    pub content : w'.content ≡ w.content ++ lines_of env db transform (unexpired now es)

  keys_of-append : (xs ys : List PkEntry) → keys_of (xs ++ ys) ≡ keys_of xs ++ keys_of ys
  keys_of-append [] ys = refl
  keys_of-append (x ∷ xs) ys = ap (λ ks. x.key ∷ ks) (keys_of-append xs ys)

  module _ (e : PkEntry) (k : Kept env db transform e) (w : Rewrite env)
      (below : IsBelow env w e) where
    abbrev after : Rewrite env
    after = rewrite_line env e (transform k.rec) k.line w

    rewrite_entry_kept :
        (store : BlobStore)
        → rewrite_entry env db (λ r. Run.pure (transform r)) e w store ≡ (ok after, store)
    rewrite_entry_kept store = rw k.reads (
        ap
          (λ o.
            (elim o as (λ _. Run BlobStore (Rewrite env)) [
              | none ↦ Run.fail encoding
              | some line ↦ Run.pure (rewrite_line env e (transform k.rec) line w)
            ])
              store)
          k.carried.encodes)

    written_kept : written env db transform (read_record env db e) ≡ k.line ++ newline ∷ []
    written_kept =
        ap (written env db transform) k.reads
        ∙ ap (λ o. elim o as (λ _. Bytes) [ none ↦ [] | some line ↦ line ++ newline ∷ [] ])
            k.carried.encodes

    IsBelow-next :
        (es : List PkEntry)
        → All (λ y. pk_order.less e y ≡ true) es
        → All (IsBelow env w) es
        → All (IsBelow env after) es
    IsBelow-next [] s b = tt
    IsBelow-next (y ∷ ys) s b = (
      subst (All (λ x. pk_order.less x (key_only y.key) ≡ true))
          (sym (scan-next env law db transform start sec e k w below))
          (All-append (λ x. pk_order.less x (key_only y.key) ≡ true) _ (_ ∷ []) b.0 (s.0, tt)),
      IsBelow-next ys s.1 b.1,
    )

    Rewrites-next :
        (es : List PkEntry) (w' : Rewrite env)
        → expired_at e now ≡ false
        → Rewrites after es w'
        → Rewrites w (e ∷ es) w'
    unfolding unexpired lines_of
    Rewrites-next es w' alive r = record {
      rebuilds = r.rebuilds;
      keys = rw alive (
          r.keys
          ∙ ap (λ xs. keys_of xs ++ keys_of (unexpired now es))
              (scan-next env law db transform start sec e k w below)
          ∙ ap (λ ks. ks ++ keys_of (unexpired now es))
              (keys_of-append (env.trees.pk.scan w.pk) (_ ∷ []))
          ∙ append_assoc (keys_of (env.trees.pk.scan w.pk)) (e.key ∷ []) _);
      content = rw alive (
          r.content
          ∙ append_assoc w.content (k.line ++ newline ∷ []) _
          ∙ ap (λ b. w.content ++ (b ++ lines_of env db transform (unexpired now es)))
              (sym written_kept));
    }

  pub rewrite_each_lem :
      (es : List PkEntry) (w : Rewrite env) (store : BlobStore)
      → IsSorted pk_order.less es
      → All (IsBelow env w) es
      → All (KeptAlive env db transform now) es
      → Rebuilds env law db transform start sec w
      → (w' : Rewrite env) × (rewrite_each env db (λ r. Run.pure (transform r)) now es w store
          ≡ (ok w', store))
        × Rewrites w es w'
  unfolding rewrite_each unexpired lines_of
  rewrite_each_lem [] w store s b k r =
      (w, refl, record { rebuilds = r; keys = sym (append-nil _); content = sym (append-nil _) })
  rewrite_each_lem (e ∷ es) w store s b k r = elim (Bool-cases (expired_at e now)) [
    | inl gone ↦
        let (w', runs, rs) = rewrite_each_lem es w store s.1 b.1 k.1 r in
        (
          w',
          rw (gone, rewrite_each) runs,
          record {
            rebuilds = rs.rebuilds;
            keys = rw (gone, unexpired) rs.keys;
            content = rw (gone, unexpired) rs.content;
          },
        )
    | inr alive ↦
        let kept = k.0 alive in
        let (w', runs, rs) =
          rewrite_each_lem es (after e kept w b.0) store s.1 (IsBelow-next e kept w b.0 es s.0 b.1)
            k.1 (Rebuilds-next env law db transform start sec e kept w b.0 r) in
        (
          w',
          rw (alive, rewrite_each)
              (ap (λ x. continue x (rewrite_each env db (λ r. Run.pure (transform r)) now es))
                  (rewrite_entry_kept e kept w b.0 store)
                ∙ runs),
          Rewrites-next e kept w b.0 es w' alive rs,
        )
  ]
