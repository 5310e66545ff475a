-- ===== src/Db/DroppedKinds.antt =====
-- nteedb-core/db.go: the kinds of the dropped indexes that adoptSchema notes.
use ntee_db.Base.{
  ◌≡◌, refl, ap, sym, ◌∙◌, true, Option, none, some, List, [], ◌∷◌, arith, Bool-cases, Option-cases,
  ◌⊎◌, inl, inr, if◌then◌else◌,
}
use ntee_db.Bytes.{Bytes, bytes_eq, bytes_less}
use ntee_db.Bytes.Laws.{bytes_eq_sym, bytes_eq→eq, same-eq-bytes_eq}
use ntee_db.Btree
use ntee_db.Btree.{All}
use ntee_db.SecIndex.{ValueKind}
use ntee_db.Meta.{parse_kind, MetaIndex}
use ntee_db.Db.Schema.{prior_of, dropped_kinds}
use ntee_db.Db.Priors.{soft_drop}

-- The kind of a name that `dropped` holds.
unfoldable pub dropped_kind : Bytes → List (Bytes × ValueKind) → Option ValueKind
dropped_kind name [] = none
dropped_kind name (x ∷ xs) = if bytes_eq x.0 name then some x.1 else dropped_kind name xs

dropped_kind-put :
    (name n : Bytes) (k : ValueKind) (xs : List (Bytes × ValueKind))
    → dropped_kind name (Btree.put (λ a b. bytes_less a.0 b.0) (n, k) xs)
      ≡ (if bytes_eq n name then some k else dropped_kind name xs)
unfolding dropped_kind Btree.put
dropped_kind-put name n k [] = refl
dropped_kind-put name n k (x ∷ xs) = elim (Bool-cases (bytes_eq n name)) [
  | inr other ↦
      ground (arith, dropped_kind-put name n k xs, same-eq-bytes_eq n x.0, bytes_eq→eq n x.0)
  | inl same ↦
      let met : bytes_eq n x.0 ≡ bytes_eq x.0 name =
        bytes_eq_sym n x.0 ∙ ap (bytes_eq x.0) (bytes_eq→eq n name same) in
      ground (arith, dropped_kind-put name n k xs, same-eq-bytes_eq n x.0, met)
]

pub kinds_absent :
    (name : Bytes) (kinds : List (Bytes × ValueKind)) (ms : List MetaIndex)
    → prior_of name ms ≡ none
    → dropped_kind name (dropped_kinds kinds ms) ≡ dropped_kind name kinds
unfolding prior_of dropped_kinds
kinds_absent name kinds [] h = refl
kinds_absent name kinds (m ∷ ms) h = elim (Option-cases (parse_kind m.kind)) [
  | inl unknown ↦ ground (arith, kinds_absent name kinds ms)
  | inr (k, known) ↦ ground (
    arith,
    kinds_absent name (Btree.put (λ a b. bytes_less a.0 b.0) (m.name, k) kinds) ms,
    dropped_kind-put name m.name k kinds,
  )
]

kinds_present :
    (name : Bytes) (ms : List MetaIndex) (kinds : List (Bytes × ValueKind)) (mi : MetaIndex)
    (k : ValueKind)
    → prior_of name ms ≡ some mi
    → parse_kind mi.kind ≡ some k
    → dropped_kind name (dropped_kinds kinds ms) ≡ some k
unfolding prior_of dropped_kinds
kinds_present name [] kinds mi k h p = absurd (cc)
kinds_present name (m ∷ ms) kinds mi k h p = elim (Option-cases (prior_of name ms)) [
  | inr (later, hit) ↦ kinds_present name ms _ mi k (ground arith) p
  | inl miss ↦
      let here : bytes_eq m.name name ≡ true = ground arith in
      let same : m ≡ mi = ground arith in
      let known : parse_kind m.kind ≡ some k = ap (λ x. parse_kind x.kind) same ∙ p in
      rw known (
        kinds_absent name (Btree.put (λ a b. bytes_less a.0 b.0) (m.name, k) kinds) ms miss
        ∙ dropped_kind-put name m.name k kinds
        ∙ rw here refl)
]

-- What `dropped` holds for a name that is declared no more: the kind of its prior entry.
abbrev pub IsDropped : Option ValueKind → Option MetaIndex → Type 0
IsDropped kind none = kind ≡ none
IsDropped kind (some mi) = (kind ≡ parse_kind mi.kind) ⊎ (parse_kind mi.kind ≡ none)

pub dropped_kind-IsDropped :
    (name : Bytes) (gone : List MetaIndex) (prior : Option MetaIndex)
    → prior_of name gone ≡ soft_drop prior
    → IsDropped (dropped_kind name (dropped_kinds [] gone)) prior
unfolding dropped_kind
dropped_kind-IsDropped name gone none h = kinds_absent name [] gone h
dropped_kind-IsDropped name gone (some mi) h = elim (Option-cases (parse_kind mi.kind)) [
  | inl unknown ↦ inr unknown
  | inr (k, known) ↦
      inl (kinds_present name gone [] (record mi { dropped = true }) k h known ∙ sym known)
]
