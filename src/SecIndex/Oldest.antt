-- ===== src/SecIndex/Oldest.antt =====
-- nteedb-core/secindex.go: the lowest keys of a group, as enforceMaxPerValue picks them.
use ntee_db.Base.{
  ℕ, zero, suc, ◌+◌, ◌-◌, ◌≤◌, ◌≡◌, refl, Bool, List, [], ◌∷◌, length, take, get_elem?, arith,
  Bool-cases, inl, inr,
}
use ntee_db.Base.Int.{ℤ, pos, pos_part, ◌-ℤ◌}
use ntee_db.Bytes.{Bytes}
use ntee_db.Btree.{IsSorted}
use ntee_db.SecIndex.{ValueKind, SecEntry, or_zero, sec_less}
use ntee_db.SecIndex.Search.{rank, rank_zero, less_down, within_split}
use ntee_db.SecIndex.Queries.{keys_where, equals, keys_none}

-- The keys of some entries from a position on.
unfoldable pub picked : List SecEntry → ℕ → ℕ → List Bytes
picked xs lo zero = []
picked xs lo (suc n) = (or_zero (get_elem? xs lo)).pk ∷ picked xs (lo + 1) n

picked-skip :
    (x : SecEntry) (xs : List SecEntry) (lo n : ℕ) → picked (x ∷ xs) (lo + 1) n ≡ picked xs lo n
unfolding picked
picked-skip x xs lo zero = refl
picked-skip x xs lo (suc n) = ground (arith, picked-skip x xs (lo + 1) n)

pub length-keys_where :
    (P : SecEntry → Bool) (xs : List SecEntry) → length (keys_where P xs) ≡ rank P xs
unfolding rank keys_where
length-keys_where P [] = refl
length-keys_where P (x ∷ xs) = ground (arith, length-keys_where P xs)

module _ (kind : ValueKind) (probe : SecEntry) (h : probe.pk ≡ []) where
  abbrev lower : SecEntry → Bool
  lower x = sec_less kind x probe

  -- From its lower bound on, the first keys of a group.
  pub picked-group :
      (xs : List SecEntry) (n : ℕ)
      → IsSorted (sec_less kind) xs
      → n ≤ length (keys_where (equals kind probe) xs)
      → picked xs (rank lower xs) n ≡ take n (keys_where (equals kind probe) xs)
  unfolding rank keys_where picked
  picked-group xs zero s fits = refl
  picked-group [] (suc n) s fits = absurd (omega arith)
  picked-group (x ∷ xs) (suc n) s fits =
      let (both, one) = within_split kind probe x h in
      elim (Bool-cases (lower x)) [
        | inl low ↦
            let rest = picked-group xs (suc n) s.1 (ground (arith, one low)) in
            ground (arith, one low, rest, picked-skip x xs (rank lower xs) (suc n))
        | inr high ↦
            let start = rank_zero (sec_less kind) lower (less_down kind probe) x xs s.0 high in
            elim (Bool-cases (equals kind probe x)) [
              | inl here ↦
                  let rest = picked-group xs n s.1 (ground arith) in
                  ground (arith, start, rest, picked-skip x xs 0 n)
              | inr there ↦ absurd (ground (arith, both, keys_none kind probe h x xs s.0))
            ]
      ]

-- What a group holds over a cap: its lowest keys; a cap that is not positive is none.
abbrev pub surplus : ℤ → List Bytes → List Bytes
surplus (pos (suc m)) group = take (length group - suc m) group
surplus _ group = []

pub excess_lem : (lo g m : ℕ) → pos_part (pos (lo + g) -ℤ pos lo -ℤ pos (suc m)) ≡ g - suc m
unfolding ◌-ℤ◌
excess_lem lo g m = ground arith
