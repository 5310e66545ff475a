-- ===== src/Db/Evictions.antt =====
-- nteedb-core/secindex.go: what enforceMaxPerValue takes from the group of a value.
use ntee_db.Base.{
  ℕ, zero, suc, ◌+◌, ◌-◌, ◌≤◌, ◌≡◌, refl, ap, sym, ◌∙◌, none, some, List, [], ◌∷◌, length, take,
  if◌then◌else◌, arith,
}
use ntee_db.Base.Int.{ℤ, pos, negsuc, pos_part, leb_ℤ, ◌-ℤ◌}
use mathlib.Core.Path.{subst}
use ntee_db.Bytes.{Bytes}
use ntee_db.Bytes.Laws.{bytes_eq_sym}
use ntee_db.Btree.{All}
use ntee_db.Record.{AnyValue, IndexValues}
use ntee_db.Result.{Result, ok}
use ntee_db.Run.{continue}
use ntee_db.PkIndex
use ntee_db.SecIndex
use ntee_db.SecIndex.{SecEntry, SecIndex, make_entry, has_pk, sec_less}
use ntee_db.SecIndex.Search.{pk-make_entry, lower_bound-rank, upper_bound_value-lower_bound}
use ntee_db.SecIndex.Queries.{keys_where, equals}
use ntee_db.SecIndex.Oldest.{picked, picked-group, length-keys_where, surplus, excess_lem}
use ntee_db.Index.{find_sec}
use ntee_db.Index.View.{IsTrees}
use ntee_db.Index.Keys.{get-delete_key}
use ntee_db.Db.{Env, Db}
use ntee_db.Db.Write.{victims, delete_all, group_excess, excess_of, enforce_max_per_value}
use ntee_db.Db.Durable.{delete_locked_lem, deleted}
use ntee_db.Db.Keys.{excess_of-All}
use ntee_db.Db.Puts.{CarriedKey, IsDurable, delete_locked-Succeeds}

module _ (env : Env) (law : IsTrees env.trees) where
  -- What deletes of these keys leave: a durable store without their entries.
  abbrev pub Without : List Bytes → Db env → Db env → Type 0
  Without keys db after =
      IsDurable env after
      × ((j : Bytes)
          → PkIndex.get env.trees.pk after.index.pk j
            ≡ (if has_pk keys j then none else PkIndex.get env.trees.pk db.index.pk j))

  delete_all_lem :
      (keys : List Bytes) (db : Db env)
      → All (CarriedKey env) keys
      → IsDurable env db
      → (after : Db env) × (delete_all env keys db ≡ (ok tt, after)) × Without keys db after
  unfolding delete_all has_pk
  delete_all_lem [] db c d = (db, refl, (d, λ j. refl))
  delete_all_lem (key ∷ rest) db c d =
      let gone = delete_locked_lem env db key c.0.0 d.logged.sound c.0.1 in
      let middle : Db env = deleted env db key c.0.0 in
      let durable : IsDurable env middle =
        subst (λ (x : Result (Unit {0}) × Db env). IsDurable env x.1) gone
          (delete_locked-Succeeds env law db key c.0 d).1 in
      let (after, runs, (kept, left)) = delete_all_lem rest middle c.1 durable in
      (
        after,
        ap (λ x. continue x (λ _. delete_all env rest)) gone ∙ runs,
        (
          kept,
          λ j.
              ground
                (arith, left j, get-delete_key env.trees law key db.index j, bytes_eq_sym key j),
        ),
      )

  module _ (si : SecIndex env.trees.sec) where
    abbrev items : List SecEntry
    items = (env.trees.sec si.kind).scan si.tree

    -- The keys of the entries that have the value of the probe, in order.
    abbrev pub group : SecEntry → List Bytes
    group probe = keys_where (equals si.kind probe) items

    victims-picked : (lo n : ℕ) → victims env si lo n ≡ picked items lo n
    unfolding victims picked SecIndex.at
    victims-picked lo zero = refl
    victims-picked lo (suc n) =
        rw ((law.sec si.kind).at-scan si.tree lo, victims-picked (lo + 1) n) refl

    module _ (probe : SecEntry) (h : probe.pk ≡ []) where
      abbrev low : ℕ
      low = SecIndex.lower_bound env.trees.sec si probe

      abbrev high : ℕ
      high = SecIndex.upper_bound_value env.trees.sec si probe

      high_lem : high ≡ low + length (group probe)
      high_lem =
          upper_bound_value-lower_bound env.trees.sec law.sec si probe h
          ∙ ap (λ n. low + n) (sym (length-keys_where (equals si.kind probe) items))

      victims-group :
          (n : ℕ) → n ≤ length (group probe) → victims env si low n ≡ take n (group probe)
      victims-group n fits =
          victims-picked low n
          ∙ ap (λ lo. picked items lo n) (lower_bound-rank env.trees.sec law.sec si probe)
          ∙ picked-group si.kind probe h items n ((law.sec si.kind).scan-IsSorted si.tree) fits

      is_capped : (m : ℕ) {ks : List Bytes} → (if leb_ℤ (pos (suc m)) (pos 0) then [] else ks) ≡ ks
      is_capped m = ground arith

      victims-surplus :
          (max : ℤ)
          → (if leb_ℤ max (pos 0)
              then []
              else victims env si low (pos_part (pos high -ℤ pos low -ℤ max)))
            ≡ surplus max (group probe)
      victims-surplus (pos zero) = refl
      victims-surplus (negsuc n) = ground arith
      victims-surplus (pos (suc m)) =
          is_capped m
          ∙ ap (λ hi. victims env si low (pos_part (pos hi -ℤ pos low -ℤ pos (suc m)))) high_lem
          ∙ ap (victims env si low) (excess_lem low (length (group probe)) m)
          ∙ victims-group (length (group probe) - suc m) (omega arith)

    group_excess-surplus :
        (val : AnyValue) (probe : SecEntry)
        → make_entry si.kind val [] ≡ ok probe
        → group_excess env si val ≡ surplus si.max (group probe)
    unfolding group_excess
    group_excess-surplus val probe made =
        rw made (victims-surplus probe (pk-make_entry si.kind val [] probe made) si.max)

  -- On a durable store, for index values that start with one that makes an entry of its index,
  -- enforceMaxPerValue does what it does for the others on a durable store that has lost exactly
  -- the entries of the keys that stand lowest in the group of that value, as many as the group
  -- holds over the cap of the index, and none where the cap is not positive.
  pub enforce_max_per_value_lem :
      (name : Bytes) (val : AnyValue) (rest : IndexValues) (db : Db env)
      (si : SecIndex env.trees.sec) (probe : SecEntry)
      → IsDurable env db
      → find_sec env.trees name db.index.sec ≡ some si
      → make_entry si.kind val [] ≡ ok probe
      → (after : Db env) × (enforce_max_per_value env ((name, val) ∷ rest) db
          ≡ enforce_max_per_value env rest after)
        × Without (surplus si.max (group si probe)) db after
  unfolding enforce_max_per_value excess_of
  enforce_max_per_value_lem name val rest db si probe d found made =
      let doomed : excess_of env db.index.sec name val ≡ surplus si.max (group si probe) =
        rw (found, excess_of) (group_excess-surplus si val probe made) in
      let (after, runs, without) =
        delete_all_lem (excess_of env db.index.sec name val) db
          (excess_of-All env law (CarriedKey env) db.index.sec name val d.keys) d in
      (
        after,
        ap (λ x. continue x (λ _. enforce_max_per_value env rest)) runs,
        subst (λ keys. Without keys db after) doomed without,
      )
