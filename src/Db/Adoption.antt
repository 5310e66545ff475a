-- ===== src/Db/Adoption.antt =====
-- nteedb-core/db.go: what adoptSchema makes of each name.
use ntee_db.Base.{
  ◌≡◌, ◌↔◌, refl, ap, sym, ◌∙◌, Bool, true, false, not, Option, none, some, List, [], ◌∷◌, ◌++◌,
  ltb, Bool-cases, Option-cases, inl, inr,
}
use mathlib.Core.Path.{subst}
use ntee_db.Bytes.{Bytes}
use ntee_db.Btree.{All}
use ntee_db.Btree.Items.{All-append}
use ntee_db.Record.{utf8_valid}
use ntee_db.SecIndex.{IndexDef, ValueKind, kind_string, kind_number}
use ntee_db.Meta.{MetaIndex, MetaJson, meta_version, kind_name, load_meta}
use ntee_db.Db.{Env, Db}
use ntee_db.Db.Schema.{is_member, prior_of, declares, adopt_declared, soft_dropped, adopt_schema}
use ntee_db.Db.Priors.{
  Distinct, definition_of, soft_drop, not_declared, is_declared, prior_of-left, prior_of-right,
  prior_of-kept, prior_of-gone, completeness, undeclared, adopted,
}
use ntee_db.Db.DroppedKinds.{dropped_kind, IsDropped, kinds_absent, dropped_kind-IsDropped}
use ntee_db.Db.Covering.{Covers, complete_iff}

-- An entry that JSON carries without loss.
abbrev pub IsJsonMeta : MetaIndex → Type 0
IsJsonMeta mi = (utf8_valid mi.name ≡ true) × (utf8_valid mi.kind ≡ true)

-- What the documentation of encoding/json promises of meta.json.
pub record IsMetaCodec (json : MetaJson) : Type 0 where
  pub returns :
      (ms : List MetaIndex)
      → All IsJsonMeta ms
      → json.unmarshal (json.marshal (record { version = meta_version; indexes = ms }))
        ≡ some (record { version = meta_version; indexes = ms })

kind_name_valid : (k : ValueKind) → utf8_valid (kind_name k) ≡ true
unfolding utf8_valid kind_name
kind_name_valid kind_string = refl
kind_name_valid kind_number = refl

declared-IsJsonMeta :
    (had_data : Bool) (prior : List MetaIndex) (ds : List IndexDef)
    → All (λ d. utf8_valid d.name ≡ true) ds
    → All IsJsonMeta (adopt_declared had_data prior ds)
unfolding adopt_declared
declared-IsJsonMeta had_data prior [] h = tt
declared-IsJsonMeta had_data prior (d ∷ ds) h =
    ((h.0, kind_name_valid d.kind), declared-IsJsonMeta had_data prior ds h.1)

gone-IsJsonMeta :
    (defs : List IndexDef) (ms : List MetaIndex)
    → All IsJsonMeta ms
    → All IsJsonMeta (soft_dropped defs ms)
unfolding soft_dropped
gone-IsJsonMeta defs [] h = tt
gone-IsJsonMeta defs (m ∷ ms) h = elim (Bool-cases (declares defs m.name)) [
  | inl there ↦ rw (there, soft_dropped) (gone-IsJsonMeta defs ms h.1)
  | inr missing ↦ rw (missing, soft_dropped) (h.0, gone-IsJsonMeta defs ms h.1)
]

module _ (env : Env) (codec : IsMetaCodec env.schema) (db : Db env) where
  abbrev pub entries : Db env → List MetaIndex
  entries d = load_meta env.schema d.meta

  abbrev pub has_data : Bool
  has_data = ltb 0 (env.trees.pk.len db.index.pk)

  -- What the store knows of a name, after the adoption.
  abbrev pub Adopted : Db env → Bytes → Option IndexDef → Type 0
  Adopted after name none =
      (prior_of name (entries after) ≡ soft_drop (prior_of name (entries db)))
      × (is_member name after.prospective ≡ false)
      × IsDropped (dropped_kind name after.dropped) (prior_of name (entries db))
  Adopted after name (some d) =
      (complete : Bool) × (prior_of name (entries after)
        ≡ some
            (record { name = name; kind = kind_name d.kind; complete = complete; dropped = false }))
      × (is_member name after.prospective ≡ not complete)
      × (dropped_kind name after.dropped ≡ none)
      × ((complete ≡ true) ↔ Covers (entries db) has_data d)

  entries-adopt_schema :
      All IsJsonMeta (entries db)
      → All (λ d. utf8_valid d.name ≡ true) db.index_defs
      → entries (adopt_schema env db)
        ≡ adopt_declared has_data (entries db) db.index_defs
          ++ soft_dropped db.index_defs (entries db)
  unfolding adopt_schema load_meta
  entries-adopt_schema prior names =
      rw
        (codec.returns _ (
          All-append IsJsonMeta _ _ (declared-IsJsonMeta has_data (entries db) db.index_defs names)
            (gone-IsJsonMeta db.index_defs (entries db) prior)))
        refl

  -- Where the JSON codec of meta.json keeps its promise, of declared indexes with distinct names,
  -- and of names and kinds of valid UTF-8: after adoptSchema the file holds, for a name that is
  -- declared, its kind and whether the index covers every record, which is so exactly where its
  -- prior entry is of the same kind, is not dropped and is complete, or where no prior entry is of
  -- the same kind and not dropped and the store has no record; the name is prospective exactly
  -- where it is not complete, and is not dropped. For any other name the file holds the prior
  -- entry, if there is one, as dropped, the name is not prospective, and it is dropped with the
  -- kind of that entry, if that is a kind, and not dropped if there is no entry.
  pub adopt_schema_lem :
      (name : Bytes)
      → Distinct db.index_defs
      → All IsJsonMeta (entries db)
      → All (λ d. utf8_valid d.name ≡ true) db.index_defs
      → Adopted (adopt_schema env db) name (definition_of name db.index_defs)
  unfolding adopt_schema dropped_kind
  adopt_schema_lem name distinct prior names =
      let held = entries-adopt_schema prior names in
      let declared = adopt_declared has_data (entries db) db.index_defs in
      let gone = soft_dropped db.index_defs (entries db) in
      elim (Option-cases (definition_of name db.index_defs)) [
        | inl miss ↦
            let away = not_declared name db.index_defs miss in
            let unknown = undeclared has_data (entries db) name db.index_defs away in
            subst (Adopted (adopt_schema env db) name) (sym miss) (
              ap (prior_of name) held
                  ∙ prior_of-right name declared gone unknown.0
                  ∙ prior_of-gone db.index_defs name (entries db) away,
              unknown.1,
              dropped_kind-IsDropped name gone (prior_of name (entries db))
                  (prior_of-gone db.index_defs name (entries db) away),
            )
        | inr (d, hit) ↦
            let (there, named) = is_declared name db.index_defs d hit in
            let known = adopted has_data (entries db) name db.index_defs d distinct hit in
            let complete = completeness has_data (entries db) d in
            subst (Adopted (adopt_schema env db) name) (sym hit) (
              complete,
              ap (prior_of name) held
                  ∙ prior_of-left name declared gone
                      (prior_of-kept db.index_defs name (entries db) there)
                  ∙ known.0
                  ∙ ap
                      (λ n. some (record {
                        name = n;
                        kind = kind_name d.kind;
                        complete = complete;
                        dropped = false;
                      }))
                      named,
              known.1,
              kinds_absent name [] gone (prior_of-kept db.index_defs name (entries db) there),
              complete_iff has_data (entries db) d,
            )
      ]
