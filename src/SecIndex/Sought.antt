-- ===== src/SecIndex/Sought.antt =====
-- nteedb-core/secindex.go: where `Prefix` begins, its `AscendGreaterOrEqual` at the prefix.
use ntee_db.Base.{◌≡◌, refl, ap, ◌∙◌, false, List, [], ◌∷◌, ◌++◌, Bool-cases, inl, inr, arith}
use ntee_db.Bytes.{Bytes, bytes_less}
use ntee_db.Order.{less_not_less}
use ntee_db.Bytes.Laws.{bytes_order}
use ntee_db.Btree.{All, IsSorted, from}
use ntee_db.Btree.Items.{All-map}
use ntee_db.SecIndex.{ValueKind, kind_string, SecEntry, sec_less}
use ntee_db.SecIndex.Groups.{probe_of, less_probe, value_le, NotBelow, Below}

module _ (kind : ValueKind) (is_string : kind ≡ kind_string) (p : Bytes) where
  -- What Seek(p) leaves in front, and what it finds.
  from_probe_id : (es : List SecEntry) → NotBelow p es → from (sec_less kind) (probe_of p) es ≡ es
  unfolding from
  from_probe_id [] b = refl
  from_probe_id (e ∷ rest) b = ground (arith, less_probe kind e p is_string, from_probe_id rest b.1)

  abbrev pub Sought : List SecEntry → Type 0
  Sought es =
      (before : List SecEntry) × (es ≡ before ++ from (sec_less kind) (probe_of p) es)
      × IsSorted (sec_less kind) (from (sec_less kind) (probe_of p) es)
      × NotBelow p (from (sec_less kind) (probe_of p) es)
      × Below p before

  pub sought : (es : List SecEntry) → IsSorted (sec_less kind) es → Sought es
  unfolding from
  sought [] s = ([], refl, tt, tt, tt)
  sought (e ∷ rest) s = elim (Bool-cases (bytes_less e.s p)) [
    | inl low ↦
        let (before, parts, sorted, high, below) = sought rest s.1 in
        rw (less_probe kind e p is_string ∙ low, from)
          (e ∷ before, ap (λ xs. e ∷ xs) parts, sorted, high, (low, below))
    | inr high ↦
        let rest_high : NotBelow p rest =
          All-map rest (λ y l. not_below e y high (value_le kind e y is_string l)) s.0 in
        rw (less_probe kind e p is_string ∙ high, from)
          (rw (from_probe_id rest rest_high) ([], refl, s, (high, rest_high), tt))
  ]
    where
      not_below :
          (e y : SecEntry)
          → bytes_less e.s p ≡ false
          → bytes_less y.s e.s ≡ false
          → bytes_less y.s p ≡ false
      not_below e y h k = ground (arith, bytes_order.cotrans y.s e.s p)

  pub starts :
      (before es : List SecEntry) → Below p before → NotBelow p es → All (λ y. Below y.s before) es
  starts before [] l h = tt
  starts before (y ∷ ys) l h =
      (All-map before (λ x b. less_not_less bytes_order x.s p y.s b h.0) l, starts before ys l h.1)
