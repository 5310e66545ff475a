-- ===== src/Db/Scans.antt =====
-- nteedb-core/db.go and pkindex.go: the scan of the keys with a prefix.
use ntee_db.Base.{
  ◌≡◌, refl, ap, ◌∙◌, Bool, true, false, not, ◌&&◌, List, [], ◌∷◌, if◌then◌else◌, Bool-cases, inl,
  inr, arith,
}
use ntee_db.Base.Int.{ℤ}
use ntee_db.Bytes.{Bytes, bytes_less, has_prefix}
use ntee_db.Bytes.Prefixes.{has_prefix_below, has_prefix_above}
use ntee_db.Btree.{All, IsSorted, from}
use ntee_db.Result.{Result, ok, err, closed}
use ntee_db.PkIndex
use ntee_db.PkIndex.{PkEntry, pk_order, key_only, take_prefix, expired_at}
use ntee_db.Index.View.{IsTrees}
use ntee_db.Db.{Env, Db}
use ntee_db.Db.Read.{live_keys, reap_async, prefix_scan}

-- The keys of the entries that pass a test, in order.
unfoldable pub keys_where : (PkEntry → Bool) → List PkEntry → List Bytes
keys_where P [] = []
keys_where P (e ∷ rest) = let more = keys_where P rest in if P e then e.key ∷ more else more

abbrev pub live_with : ℤ → Bytes → PkEntry → Bool
live_with now p e = has_prefix e.key p && not (expired_at e now)

module _ (now : ℤ) (p : Bytes) where
  keys_none :
      (e : PkEntry) (xs : List PkEntry)
      → All (λ y. pk_order.less e y ≡ true) xs
      → bytes_less e.key p ≡ false
      → has_prefix e.key p ≡ false
      → keys_where (live_with now p) xs ≡ []
  unfolding keys_where
  keys_none e [] s h k = refl
  keys_none e (y ∷ ys) s h k =
      ground (arith, has_prefix_above p e.key y.key h k s.0, keys_none e ys s.1 h k)

  unexpired-take_prefix :
      (xs : List PkEntry)
      → IsSorted pk_order.less xs
      → keys_where
          (λ e. not (expired_at e now))
          (take_prefix p (from pk_order.less (key_only p) xs))
        ≡ keys_where (live_with now p) xs
  unfolding keys_where take_prefix from
  unexpired-take_prefix [] s = refl
  unexpired-take_prefix (e ∷ rest) s = elim (Bool-cases (bytes_less e.key p)) [
    | inl low ↦ ground (arith, has_prefix_below p e.key low, unexpired-take_prefix rest s.1)
    | inr high ↦ ground (arith, keys_none e rest s.0 high, unexpired-take_prefix rest s.1)
  ]

module _ (env : Env) (now : ℤ) where
  keys-live_keys :
      (es : List PkEntry) (db : Db env)
      → (live_keys env now es db).0 ≡ keys_where (λ e. not (expired_at e now)) es
  unfolding live_keys keys_where
  keys-live_keys [] db = refl
  keys-live_keys (e ∷ rest) db =
      ground (arith, keys-live_keys rest db, keys-live_keys rest (reap_async env e db))

  index-live_keys : (es : List PkEntry) (db : Db env) → (live_keys env now es db).1.index ≡ db.index
  unfolding live_keys reap_async
  index-live_keys [] db = refl
  index-live_keys (e ∷ rest) db =
      ground (arith, index-live_keys rest db, index-live_keys rest (reap_async env e db))

  abbrev scanned : List PkEntry → Db env → Result (List Bytes) × Db env
  scanned es db = let (keys, db') = live_keys env now es db in (ok keys, db')

  -- On an open store PrefixScan returns exactly the keys with the prefix whose entries have not
  -- expired, in order, and leaves the indexes as they are.
  pub prefix_scan_lem :
      (law : IsTrees env.trees) (p : Bytes) (db : Db env)
      → db.closed ≡ false
      → ((prefix_scan env now p db).0
          ≡ ok (keys_where (live_with now p) (env.trees.pk.scan db.index.pk)))
        × ((prefix_scan env now p db).1.index ≡ db.index)
  unfolding prefix_scan PkIndex.prefix
  prefix_scan_lem law p db h =
      let run = take_prefix p (env.trees.pk.ascend db.index.pk (key_only p)) in
      let same = ap (λ b. if b then (err closed, db) else scanned run db) h in
      (
        ap (λ o. o.0) same
            ∙ ap ok (
                keys-live_keys run db
                ∙ ap (λ xs. keys_where (λ e. not (expired_at e now)) (take_prefix p xs))
                    (law.pk.ascend-scan db.index.pk (key_only p))
                ∙ unexpired-take_prefix now p (env.trees.pk.scan db.index.pk)
                    (law.pk.scan-IsSorted db.index.pk)),
        ap (λ o. o.1.index) same ∙ index-live_keys run db,
      )
