-- ===== src/Db/Covering.antt =====
-- nteedb-core/db.go: when adoptSchema takes an index to be complete.
use ntee_db.Base.{
  ◌≡◌, ◌↔◌, refl, ap, sym, ◌∙◌, Bool, true, false, not, some, List, arith, Bool-cases, Option-cases,
  ◌⊎◌, inl, inr,
}
use ntee_db.Bytes.{bytes_eq}
use ntee_db.Bytes.Laws.{bytes_eq_refl, bytes_eq→eq}
use ntee_db.SecIndex.{IndexDef}
use ntee_db.Meta.{MetaIndex, kind_name}
use ntee_db.Db.Schema.{prior_of, is_complete}
use ntee_db.Db.Priors.{completeness}

-- The prior entry of a declared index speaks for it: of its kind, and not dropped.
abbrev pub Carries : List MetaIndex → IndexDef → MetaIndex → Type 0
Carries prior d mi =
    (prior_of d.name prior ≡ some mi) × (mi.kind ≡ kind_name d.kind) × (mi.dropped ≡ false)

-- The index covers every record: its prior entry says so, or there is none that speaks for it and
-- no record either.
abbrev pub Covers : List MetaIndex → Bool → IndexDef → Type 0
Covers prior had_data d =
    ((mi : MetaIndex) × Carries prior d mi × (mi.complete ≡ true))
    ⊎ ((¬ ((mi : MetaIndex) × Carries prior d mi)) × (had_data ≡ false))

module _ (had_data : Bool) (prior : List MetaIndex) (d : IndexDef) where
  some_same : {a b : MetaIndex} → some a ≡ some b → a ≡ b
  some_same h = ground arith

  carried : (mi : MetaIndex) → Carries prior d mi → completeness had_data prior d ≡ mi.complete
  unfolding is_complete
  carried mi (found, kind, there) =
      rw found (rw kind (rw (bytes_eq_refl (kind_name d.kind)) (rw there refl)))

  not_carried :
      (¬ ((mi : MetaIndex) × Carries prior d mi)) → completeness had_data prior d ≡ not had_data
  unfolding is_complete
  not_carried absent = elim (Option-cases (prior_of d.name prior)) [
    | inl miss ↦ rw miss refl
    | inr (mi, hit) ↦ elim (Bool-cases (bytes_eq mi.kind (kind_name d.kind))) [
      | inr other_kind ↦ rw hit (rw other_kind refl)
      | inl same_kind ↦ elim (Bool-cases mi.dropped) [
        | inl gone ↦ rw hit (rw same_kind (rw gone refl))
        | inr there ↦
            absurd (absent (mi, (hit, bytes_eq→eq mi.kind (kind_name d.kind) same_kind, there)))
      ]
    ]
  ]

  speaks_or_not :
      ((mi : MetaIndex) × Carries prior d mi) ⊎ (¬ ((mi : MetaIndex) × Carries prior d mi))
  speaks_or_not = elim (Option-cases (prior_of d.name prior)) [
    | inl miss ↦ inr (λ p. absurd (cc (miss, p.1.0)))
    | inr (mi, hit) ↦ elim (Bool-cases (bytes_eq mi.kind (kind_name d.kind))) [
      | inr other_kind ↦ inr (λ p.
          let same : mi ≡ p.0 = some_same (sym hit ∙ p.1.0) in
          absurd (
            cc (
              other_kind,
              ap (λ k. bytes_eq k (kind_name d.kind)) (ap (λ m. m.kind) same ∙ p.1.1)
                  ∙ bytes_eq_refl (kind_name d.kind),
            )))
      | inl same_kind ↦ elim (Bool-cases mi.dropped) [
        | inl gone ↦ inr (λ p.
            let same : mi ≡ p.0 = some_same (sym hit ∙ p.1.0) in
            absurd (cc (gone, ap (λ m. m.dropped) same, p.1.2)))
        | inr there ↦ inl (mi, (hit, bytes_eq→eq mi.kind (kind_name d.kind) same_kind, there))
      ]
    ]
  ]

  pub complete_iff : (completeness had_data prior d ≡ true) ↔ Covers prior had_data d
  complete_iff = (
    (λ h. elim speaks_or_not [
      | inl (mi, c) ↦ inl (mi, c, sym (carried mi c) ∙ h)
      | inr absent ↦ inr (absent, empty had_data (sym (not_carried absent) ∙ h))
    ]),
    (λ c. elim c [
      | inl (mi, carries, complete) ↦ carried mi carries ∙ complete
      | inr (absent, h) ↦ not_carried absent ∙ ap not h
    ]),
  )
    where
      empty : (b : Bool) → not b ≡ true → b ≡ false
      empty b h = ground arith
