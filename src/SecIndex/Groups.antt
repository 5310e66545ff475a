-- ===== src/SecIndex/Groups.antt =====
-- nteedb-core/secindex.go: the group of one value among sorted entries, for the query by a prefix.
use ntee_db.Base.{
  ℕ, zero, suc, ◌≡◌, refl, ap, sym, ◌∙◌, true, false, not, List, [], ◌∷◌, ◌++◌, map, take,
  if◌then◌else◌, Bool-cases, inl, inr, arith,
}
use mathlib.Core.List.{reverse_aux}
use ntee_db.Base.Int.{pos}
use ntee_db.Bytes.{Bytes, bytes_less, bytes_eq}
use ntee_db.Bytes.Laws.{
  bytes_order, bytes_eq→eq, bytes_eq_refl, bytes_less_irrefl, same-eq-bytes_eq,
}
use ntee_db.Order.{less_asym, less_not_less}
use ntee_db.Btree.{All, IsSorted, from, back_from}
use ntee_db.SecIndex.{
  ValueKind, kind_string, SecEntry, sec_less, whole_group, past_group, some_of_group, past_some,
  skip_tail,
}

-- v+"\x00" is the immediate successor of v.
bytes_less_next : (x v : Bytes) → bytes_less x (v ++ 0 ∷ []) ≡ not (bytes_less v x)
unfolding bytes_less
bytes_less_next [] [] = refl
bytes_less_next (a ∷ []) [] = ground arith
bytes_less_next (a ∷ b ∷ x) [] = ground arith
bytes_less_next [] (c ∷ v) = refl
bytes_less_next (a ∷ x) (c ∷ v) = ground (arith, bytes_less_next x v)

abbrev pub next_of : Bytes → SecEntry
next_of v = record { s = v ++ 0 ∷ []; f = pos 0; pk = [] }

abbrev pub probe_of : Bytes → SecEntry
probe_of p = record { s = p; f = pos 0; pk = [] }

bytes_less_nil : (x : Bytes) → bytes_less x [] ≡ false
unfolding bytes_less
bytes_less_nil [] = refl
bytes_less_nil (a ∷ x) = refl

less_probe_string :
    (x : SecEntry) (p : Bytes) → sec_less kind_string x (probe_of p) ≡ bytes_less x.s p
unfolding sec_less
less_probe_string x p = ground (arith, bytes_less_nil x.pk, bytes_eq→eq x.s p, bytes_less_irrefl p)

pub less_probe :
    (k : ValueKind) (x : SecEntry) (p : Bytes)
    → k ≡ kind_string
    → sec_less k x (probe_of p) ≡ bytes_less x.s p
less_probe k x p h = ap (λ j. sec_less j x (probe_of p)) h ∙ less_probe_string x p

pub less_next :
    (k : ValueKind) (x : SecEntry) (v : Bytes)
    → k ≡ kind_string
    → sec_less k x (next_of v) ≡ not (bytes_less v x.s)
less_next k x v h = less_probe k x (v ++ 0 ∷ []) h ∙ bytes_less_next x.s v

value_le_string : (x y : SecEntry) → sec_less kind_string x y ≡ true → bytes_less y.s x.s ≡ false
unfolding sec_less
value_le_string x y l =
    ground (arith, less_asym bytes_order x.s y.s, bytes_eq→eq x.s y.s, bytes_less_irrefl x.s)

-- The values of sorted entries do not fall.
pub value_le :
    (k : ValueKind) (x y : SecEntry)
    → k ≡ kind_string
    → sec_less k x y ≡ true
    → bytes_less y.s x.s ≡ false
value_le k x y h l = value_le_string x y (ap (λ j. sec_less j x y) (sym h) ∙ l)

-- The entries of the value in front.
unfoldable pub in_group : Bytes → List SecEntry → List SecEntry
in_group v [] = []
in_group v (e ∷ rest) = let more = in_group v rest in if bytes_eq e.s v then e ∷ more else []

abbrev pub pks : List SecEntry → List Bytes
pks = map (λ e. e.pk)

-- No value is below, all are above, and all are the value.
abbrev pub NotBelow : Bytes → List SecEntry → Type 0
NotBelow v = All (λ e. bytes_less e.s v ≡ false)

abbrev pub Above : Bytes → List SecEntry → Type 0
Above v = All (λ e. bytes_less v e.s ≡ true)

abbrev pub Below : Bytes → List SecEntry → Type 0
Below v = All (λ e. bytes_less e.s v ≡ true)

abbrev pub Within : Bytes → List SecEntry → Type 0
Within v = All (λ e. e.s ≡ v)

pub above_ne : (v s : Bytes) → bytes_less v s ≡ true → bytes_eq s v ≡ false
above_ne v s h = ground (arith, bytes_eq→eq s v, bytes_less_irrefl v)

pub below_ne : (v s : Bytes) → bytes_less s v ≡ true → bytes_eq s v ≡ false
below_ne v s h = ground (arith, bytes_eq→eq s v, bytes_less_irrefl v)

-- Neither below nor the same is above.
above_of : (v s : Bytes) → bytes_less s v ≡ false → bytes_eq s v ≡ false → bytes_less v s ≡ true
above_of v s h k = ground (arith, same-eq-bytes_eq s v)

module _ (v : Bytes) where
  pub split_group : (es : List SecEntry) → es ≡ in_group v es ++ past_group v es
  unfolding in_group past_group
  split_group [] = refl
  split_group (e ∷ rest) = ground (arith, split_group rest)

  pub in_group-Within : (es : List SecEntry) → Within v (in_group v es)
  unfolding in_group
  in_group-Within [] = tt
  in_group-Within (e ∷ rest) = ground (arith, bytes_eq→eq e.s v, in_group-Within rest)

  pub whole_group-pks : (es : List SecEntry) → whole_group v es ≡ pks (in_group v es)
  unfolding whole_group in_group
  whole_group-pks [] = refl
  whole_group-pks (e ∷ rest) = ground (arith, whole_group-pks rest)

  -- An iterator stops at the number that it is given, or behind the group.
  pub some_of_group-take :
      (n : ℕ) (g tail : List SecEntry)
      → Within v g
      → All (λ e. bytes_eq e.s v ≡ false) tail
      → some_of_group v n (g ++ tail) ≡ take n (pks g)
  unfolding some_of_group
  some_of_group-take zero [] [] w t = refl
  some_of_group-take (suc n) [] [] w t = refl
  some_of_group-take zero [] (e ∷ tail) w t = refl
  some_of_group-take (suc n) [] (e ∷ tail) w t = ground arith
  some_of_group-take zero (e ∷ g) tail w t = refl
  some_of_group-take (suc n) (e ∷ g) tail w t =
      ground (arith, some_of_group-take n g tail w.1 t, ap (λ s. bytes_eq s v) w.0, bytes_eq_refl v)

  pub skip_tail-past_some :
      (n : ℕ) (g tail : List SecEntry)
      → Within v g
      → All (λ e. bytes_eq e.s v ≡ false) tail
      → skip_tail v (past_some v n (g ++ tail)) tail ≡ tail
  unfolding past_some
  skip_tail-past_some zero [] [] w t = refl
  skip_tail-past_some (suc n) [] [] w t = refl
  skip_tail-past_some zero [] (e ∷ tail) w t = ground arith
  skip_tail-past_some (suc n) [] (e ∷ tail) w t = ground arith
  skip_tail-past_some zero (e ∷ g) tail w t =
      ground (arith, ap (λ s. bytes_eq s v) w.0, bytes_eq_refl v)
  skip_tail-past_some (suc n) (e ∷ g) tail w t =
      ground
        (arith, skip_tail-past_some n g tail w.1 t, ap (λ s. bytes_eq s v) w.0, bytes_eq_refl v)

  module _ (k : ValueKind) (h : k ≡ kind_string) where
    above_all :
        (e : SecEntry) (es : List SecEntry)
        → bytes_less v e.s ≡ true
        → All (λ y. sec_less k e y ≡ true) es
        → Above v es
    above_all e [] a s = tt
    above_all e (y ∷ ys) a s =
        (less_not_less bytes_order v e.s y.s a (value_le k e y h s.0), above_all e ys a s.1)

    pub past_group-Above :
        (es : List SecEntry) → IsSorted (sec_less k) es → NotBelow v es → Above v (past_group v es)
    unfolding past_group
    past_group-Above [] s b = tt
    past_group-Above (e ∷ rest) s b = elim (Bool-cases (bytes_eq e.s v)) [
      | inl same ↦ rw (same, past_group) (past_group-Above rest s.1 b.1)
      | inr other ↦
          let a = above_of v e.s b.0 other in rw (other, past_group) (a, above_all e rest a s.0)
    ]

    from_above : (es : List SecEntry) → Above v es → from (sec_less k) (next_of v) es ≡ es
    unfolding from
    from_above [] a = refl
    from_above (e ∷ rest) a = ground (arith, less_next k e v h, from_above rest a.1)

    -- Seek(next) finds what stands behind the group.
    from-past_group :
        (es : List SecEntry)
        → IsSorted (sec_less k) es
        → NotBelow v es
        → from (sec_less k) (next_of v) es ≡ past_group v es
    unfolding from past_group
    from-past_group [] s b = refl
    from-past_group (e ∷ rest) s b = elim (Bool-cases (bytes_eq e.s v)) [
      | inl same ↦ ground (
        arith,
        less_next k e v h,
        bytes_eq→eq e.s v,
        bytes_less_irrefl v,
        from-past_group rest s.1 b.1,
      )
      | inr other ↦
          let a = above_of v e.s b.0 other in
          ground (arith, less_next k e v h, from_above rest (above_all e rest a s.0))
    ]

    pub from-append :
        (before es : List SecEntry)
        → Below v before
        → IsSorted (sec_less k) es
        → NotBelow v es
        → from (sec_less k) (next_of v) (before ++ es) ≡ past_group v es
    unfolding from
    from-append [] es l s b = from-past_group es s b
    from-append (x ∷ before) es l s b =
        ground
          (arith, less_next k x v h, less_asym bytes_order x.s v, from-append before es l.1 s b)

    back_from-in_group :
        (acc es : List SecEntry)
        → NotBelow v es
        → back_from (sec_less k) (next_of v) acc es ≡ reverse_aux (in_group v es) acc
    unfolding back_from in_group
    back_from-in_group acc [] b = refl
    back_from-in_group acc (e ∷ rest) b = elim (Bool-cases (bytes_eq e.s v)) [
      | inl same ↦ ground (
        arith,
        less_next k e v h,
        bytes_eq→eq e.s v,
        bytes_less_irrefl v,
        back_from-in_group (e ∷ acc) rest b.1,
      )
      | inr other ↦ ground (arith, less_next k e v h, above_of v e.s b.0 other)
    ]

    -- Prev from there visits the group from its end, and then what stands in front of it.
    pub back_from-append :
        (acc before es : List SecEntry)
        → Below v before
        → NotBelow v es
        → back_from (sec_less k) (next_of v) acc (before ++ es)
          ≡ reverse_aux (in_group v es) (reverse_aux before acc)
    unfolding back_from
    back_from-append acc [] es l b = back_from-in_group acc es b
    back_from-append acc (x ∷ before) es l b = ground (
      arith,
      less_next k x v h,
      less_asym bytes_order x.s v,
      back_from-append (x ∷ acc) before es l.1 b,
    )
