-- ===== src/Db/Keys.antt =====
-- What holds of every key that the secondary indexes name, through their changes.
use ntee_db.Base.{
  ℕ, zero, suc, ◌+◌, ◌≤◌, ◌<◌, ◌≡◌, refl, sym, false, Option, none, some, List, [], ◌∷◌, length,
  arith, get_elem?, Bool-cases, inl, inr, if◌then◌else◌,
}
use mathlib.Core.Path.{subst}
use ntee_db.Base.Int.{ℤ, pos, pos_part, ◌-ℤ◌, leb_ℤ}
use ntee_db.Bytes.{Bytes, bytes_eq}
use ntee_db.Btree.{All}
use ntee_db.Btree.Items.{put-All, without-All}
use ntee_db.Result.{Result, ok, err}
use ntee_db.Record.{AnyValue, IndexValues}
use ntee_db.Sort.{sort_search-le}
use ntee_db.PkIndex
use ntee_db.PkIndex.{PkEntry}
use ntee_db.SecIndex
use ntee_db.SecIndex.{
  ValueKind, kind_string, kind_number, SecEntry, SecIndex, make_entry, to_float, or_zero,
}
use ntee_db.SecIndex.Order.{sec_order}
use ntee_db.SecIndex.Search.{pk-make_entry}
use ntee_db.Index.{
  Trees, Index, SecIndexes, find_sec, at_index, with_entry, insert_value, remove_value, insert_sec,
  remove_sec, retract_entry, retract_sec, refresh_sec, delete_key, put_key, is_empty,
}
use ntee_db.Index.View.{IsTrees}
use ntee_db.Db.{Env}
use ntee_db.Db.Write.{victims, group_excess, excess_of}

module _ (trees : Trees) (P : Bytes → Type 0) where
  abbrev pub EntriesHave : SecIndex trees.sec → Type 0
  EntriesHave si = All (λ e. P e.pk) ((trees.sec si.kind).scan si.tree)

  -- Every key that an index of the list names has the property.
  abbrev pub SecKeys : SecIndexes trees → Type 0
  SecKeys [] = Unit
  SecKeys (si ∷ rest) = EntriesHave si × SecKeys rest

module _ (trees : Trees) (law : IsTrees trees) (P : Bytes → Type 0) where
  SecKeys-at_index :
      (name : Bytes) (f : SecIndex trees.sec → SecIndex trees.sec)
      → ((si : SecIndex trees.sec) → EntriesHave trees P si → EntriesHave trees P (f si))
      → (sec : SecIndexes trees) → SecKeys trees P sec
      → SecKeys trees P (at_index trees name f sec)
  unfolding at_index
  SecKeys-at_index name f keeps [] h = tt
  SecKeys-at_index name f keeps (si ∷ rest) h = elim (Bool-cases (bytes_eq si.name name)) [
    | inl here ↦ rw (here, at_index) (keeps si h.0, h.1)
    | inr there ↦ rw (there, at_index) (h.0, SecKeys-at_index name f keeps rest h.1)
  ]

  EntriesHave-insert_value :
      (key : Bytes) (val : AnyValue)
      → P key
      → (si : SecIndex trees.sec) → EntriesHave trees P si
      → EntriesHave trees P (insert_value trees key val si)
  unfolding insert_value SecIndex.insert
  EntriesHave-insert_value key val p si h =
      go (make_entry si.kind val key) (pk-make_entry si.kind val key)
    where
      go :
          (r : Result SecEntry)
          → ((e : SecEntry) → r ≡ ok e → e.pk ≡ key)
          → EntriesHave trees P (with_entry trees (SecIndex.insert trees.sec) r si)
      go (ok e) same =
          subst (All (λ x. P x.pk)) (sym ((law.sec si.kind).scan-set si.tree e))
            (put-All (sec_order si.kind) (λ x. P x.pk) e _ (subst P (sym (same e refl)) p) h)
      go (err x) same = h

  EntriesHave-remove_value :
      (key : Bytes) (val : AnyValue) (si : SecIndex trees.sec)
      → EntriesHave trees P si
      → EntriesHave trees P (remove_value trees key val si)
  unfolding remove_value SecIndex.remove
  EntriesHave-remove_value key val si h = go (make_entry si.kind val key)
    where
      go :
          (r : Result SecEntry)
          → EntriesHave trees P (with_entry trees (SecIndex.remove trees.sec) r si)
      go (ok e) =
          subst (All (λ x. P x.pk)) (sym ((law.sec si.kind).scan-delete si.tree e))
            (without-All (sec_order si.kind) (λ x. P x.pk) e _ h)
      go (err x) = h

  SecKeys-insert_sec :
      (key : Bytes)
      → P key
      → (ix : IndexValues) (sec : SecIndexes trees) → SecKeys trees P sec
      → SecKeys trees P (insert_sec trees key ix sec)
  unfolding insert_sec
  SecKeys-insert_sec key p [] sec h = h
  SecKeys-insert_sec key p ((name, val) ∷ ix) sec h =
      SecKeys-insert_sec key p ix _
        (SecKeys-at_index name _ (EntriesHave-insert_value key val p) sec h)

  SecKeys-remove_sec :
      (key : Bytes) (ix : IndexValues) (sec : SecIndexes trees)
      → SecKeys trees P sec
      → SecKeys trees P (remove_sec trees key ix sec)
  unfolding remove_sec
  SecKeys-remove_sec key [] sec h = h
  SecKeys-remove_sec key ((name, val) ∷ ix) sec h =
      SecKeys-remove_sec key ix _ (SecKeys-at_index name _ (EntriesHave-remove_value key val) sec h)

  SecKeys-retract_entry :
      (key : Bytes) (idx : Index trees) (o : Option PkEntry)
      → SecKeys trees P idx.sec
      → SecKeys trees P (retract_entry trees key idx o).sec
  SecKeys-retract_entry key idx none h = h
  SecKeys-retract_entry key idx (some e) h = go e.ix
    where
      go :
          (ix : IndexValues)
          → SecKeys trees P
              (if is_empty trees ix then idx else record {
                pk = PkIndex.set_ix trees.pk idx.pk key [];
                sec = remove_sec trees key ix idx.sec;
              }).sec
      go [] = h
      go (v ∷ ix) = SecKeys-remove_sec key (v ∷ ix) idx.sec h

  pub SecKeys-delete_key :
      (key : Bytes) (idx : Index trees)
      → SecKeys trees P idx.sec
      → SecKeys trees P (delete_key trees key idx).sec
  unfolding delete_key retract_sec
  SecKeys-delete_key key idx h = SecKeys-retract_entry key idx _ h

  pub SecKeys-put_key :
      (key : Bytes) (off n : ℕ) (exp : ℤ) (ix : IndexValues) (idx : Index trees)
      → P key
      → SecKeys trees P idx.sec
      → SecKeys trees P (put_key trees key off n exp ix idx).sec
  unfolding put_key refresh_sec retract_sec
  SecKeys-put_key key off n exp [] idx p h = SecKeys-retract_entry key _ _ h
  SecKeys-put_key key off n exp (v ∷ ix) idx p h =
      SecKeys-insert_sec key p (v ∷ ix) _ (SecKeys-retract_entry key _ _ h)

  find_sec-EntriesHave :
      (name : Bytes) (sec : SecIndexes trees) (si : SecIndex trees.sec)
      → find_sec trees name sec ≡ some si
      → SecKeys trees P sec
      → EntriesHave trees P si
  unfolding find_sec
  find_sec-EntriesHave name [] si f h = absurd (cc)
  find_sec-EntriesHave name (s ∷ rest) si f h = elim (Bool-cases (bytes_eq s.name name)) [
    | inl here ↦ let same : s ≡ si = ground arith in subst (λ x. EntriesHave trees P x) same h.0
    | inr there ↦ find_sec-EntriesHave name rest si (ground arith) h.1
  ]

  get_elem?-All :
      (xs : List SecEntry) (i : ℕ)
      → i < length xs
      → All (λ e. P e.pk) xs
      → P (or_zero (get_elem? xs i)).pk
  get_elem?-All [] i lt h = absurd (omega arith)
  get_elem?-All (x ∷ xs) zero lt h = h.0
  get_elem?-All (x ∷ xs) (suc i) lt h = get_elem?-All xs i (omega arith) h.1

  at-EntriesHave :
      (si : SecIndex trees.sec) (i : ℕ)
      → i < SecIndex.count trees.sec si
      → EntriesHave trees P si
      → P (SecIndex.at trees.sec si i).pk
  unfolding SecIndex.at SecIndex.count
  at-EntriesHave si i lt h = rw ((law.sec si.kind).at-scan si.tree i) (
      get_elem?-All ((trees.sec si.kind).scan si.tree) i
        (rw (← (law.sec si.kind).len-scan si.tree) lt) h)

module _ (env : Env) (law : IsTrees env.trees) (P : Bytes → Type 0) where
  victims-All :
      (si : SecIndex env.trees.sec) (lo n : ℕ)
      → lo + n ≤ SecIndex.count env.trees.sec si
      → EntriesHave env.trees P si
      → All P (victims env si lo n)
  unfolding victims
  victims-All si lo zero fits h = tt
  victims-All si lo (suc n) fits h = (
    at-EntriesHave env.trees law P si lo (omega arith) h,
    victims-All si (lo + 1) n (omega arith) h,
  )

  victims_in_range :
      (lo hi n : ℕ) (max : ℤ)
      → leb_ℤ max (pos 0) ≡ false
      → lo ≤ n
      → hi ≤ n
      → lo + pos_part (pos hi -ℤ pos lo -ℤ max) ≤ n
  unfolding ◌-ℤ◌
  victims_in_range lo hi n max cap a b = ground arith

  group_excess-All :
      (si : SecIndex env.trees.sec) (val : AnyValue)
      → EntriesHave env.trees P si
      → All P (group_excess env si val)
  unfolding group_excess SecIndex.lower_bound SecIndex.upper_bound_value
  group_excess-All si val h = elim (Bool-cases (leb_ℤ si.max (pos 0))) [
    | inl unlimited ↦ rw (unlimited, group_excess) tt
    | inr capped ↦ rw (capped, group_excess) (go (make_entry si.kind val []) capped)
  ]
    where
      lower : SecEntry → ℕ
      lower = SecIndex.lower_bound env.trees.sec si

      upper : SecEntry → ℕ
      upper = SecIndex.upper_bound_value env.trees.sec si

      go :
          (r : Result SecEntry)
          → leb_ℤ si.max (pos 0) ≡ false
          → All P (elim r [
            | err _ ↦ []
            | ok probe ↦
                victims env si
                  (lower probe)
                  (pos_part (pos (upper probe) -ℤ pos (lower probe) -ℤ si.max))
          ])
      go (err x) c = tt
      go (ok probe) c =
          victims-All si (lower probe) _
            (victims_in_range (lower probe) (upper probe) (SecIndex.count env.trees.sec si) si.max c
              (sort_search-le _ _) (sort_search-le _ _))
            h

  -- What a write evicts from the group of a value are keys that stand in the entries of that
  -- index: a property of all the keys that the indexes hold is one of all the victims.
  pub excess_of-All :
      (sec : SecIndexes env.trees) (name : Bytes) (val : AnyValue)
      → SecKeys env.trees P sec
      → All P (excess_of env sec name val)
  unfolding excess_of
  excess_of-All sec name val h = go (find_sec env.trees name sec) refl
    where
      go :
          (o : Option (SecIndex env.trees.sec))
          → find_sec env.trees name sec ≡ o
          → All P (elim o [ none ↦ [] | some si ↦ group_excess env si val ])
      go none e = tt
      go (some si) e =
          group_excess-All si val (find_sec-EntriesHave env.trees law P name sec si e h)
