-- ===== src/Db/Schema.antt =====
-- nteedb-core/db.go, reindex.go and compact.go: the declared indexes against those of meta.json,
-- and which index values of a record survive a rewrite.
use ntee_db.Base.{
  Bool, true, false, not, ◌&&◌, ◌||◌, Option, none, some, List, [], ◌∷◌, ◌++◌, map, ltb,
  if◌then◌else◌,
}
use ntee_db.Bytes.{Bytes, bytes_less, bytes_eq}
use ntee_db.Btree
use ntee_db.Result.{ok, err}
use ntee_db.Record.{IndexValues}
use ntee_db.SecIndex.{ValueKind, IndexDef, make_entry}
use ntee_db.Index.{SecIndexes, find_sec}
use ntee_db.Meta.{write_meta, load_meta, MetaIndex, kind_name, parse_kind}
use ntee_db.Db.{Env, Db}

-- A set of names, in order.
unfoldable pub is_member : Bytes → List Bytes → Bool
is_member name [] = false
is_member name (n ∷ rest) = bytes_eq n name || is_member name rest

abbrev pub with_name : Bytes → List Bytes → List Bytes
with_name name names = Btree.put bytes_less name names

abbrev pub without_name : Bytes → List Bytes → List Bytes
without_name name names = Btree.without bytes_less name names

-- `priorByName`: the last entry of a name.
unfoldable pub prior_of : Bytes → List MetaIndex → Option MetaIndex
prior_of name [] = none
prior_of name (mi ∷ rest) = elim (prior_of name rest) [
  | some later ↦ some later
  | none ↦ if bytes_eq mi.name name then some mi else none
]

unfoldable pub declares : List IndexDef → Bytes → Bool
declares [] name = false
declares (def ∷ rest) name = bytes_eq def.name name || declares rest name

-- Whether the index covers every record.
unfoldable pub is_complete : Bool → Option MetaIndex → IndexDef → Bool
is_complete had_data none def = not had_data
is_complete had_data (some mi) def =
    if bytes_eq mi.kind (kind_name def.kind) && not mi.dropped then mi.complete else not had_data

abbrev pub declared_entry : IndexDef → Bool → MetaIndex
declared_entry def complete = record {
  name = def.name;
  kind = kind_name def.kind;
  complete = complete;
  dropped = false;
}

-- The first loop of `adoptSchema`.
unfoldable pub adopt_declared : Bool → List MetaIndex → List IndexDef → List MetaIndex
unfolding prior_of is_complete
adopt_declared had_data prior [] = []
adopt_declared had_data prior (def ∷ rest) =
    declared_entry def (is_complete had_data (prior_of def.name prior) def)
    ∷ adopt_declared had_data prior rest

unfoldable pub incomplete_names : List MetaIndex → List Bytes
incomplete_names [] = []
incomplete_names (mi ∷ rest) =
    let more = incomplete_names rest in if mi.complete then more else with_name mi.name more

-- The second loop: what is no longer declared is kept as a tombstone.
unfoldable pub soft_dropped : List IndexDef → List MetaIndex → List MetaIndex
unfolding declares
soft_dropped defs [] = []
soft_dropped defs (mi ∷ rest) =
    let more = soft_dropped defs rest in
    if declares defs mi.name then more else record mi { dropped = true } ∷ more

-- What the second loop puts in `dropped`.
unfoldable pub dropped_kinds : List (Bytes × ValueKind) → List MetaIndex → List (Bytes × ValueKind)
dropped_kinds kinds [] = kinds
dropped_kinds kinds (mi ∷ rest) =
    dropped_kinds
      (elim (parse_kind mi.kind) [
        | none ↦ kinds
        | some k ↦ Btree.put (λ a b. bytes_less a.0 b.0) (mi.name, k) kinds
      ])
      rest

-- The loop of `markReindexed`: an index with Extract is complete.
unfoldable pub reindexed_entries : List Bytes → List IndexDef → List MetaIndex
unfolding is_member
reindexed_entries prospective [] = []
reindexed_entries prospective (def ∷ rest) =
    elim def.extract [
      | some _ ↦ declared_entry def true
      | none ↦ declared_entry def (not (is_member def.name prospective))
    ]
    ∷ reindexed_entries prospective rest

unfoldable pub still_prospective : List IndexDef → List Bytes → List Bytes
still_prospective [] names = names
still_prospective (def ∷ rest) names =
    still_prospective rest
      (elim def.extract [ some _ ↦ without_name def.name names | none ↦ names ])

module _ (env : Env) where
  -- `adoptSchema`, after the load of the indexes.
  unfoldable pub adopt_schema : Db env → Db env
  unfolding adopt_declared soft_dropped incomplete_names dropped_kinds
  adopt_schema db =
      let prior = load_meta env.schema db.meta in
      let declared = adopt_declared (ltb 0 (env.trees.pk.len db.index.pk)) prior db.index_defs in
      let gone = soft_dropped db.index_defs prior in
      record db {
        meta = write_meta env.schema (declared ++ gone);
        prospective = incomplete_names declared;
        dropped = dropped_kinds [] gone;
      }

  unfoldable pub mark_reindexed : Db env → Db env
  unfolding reindexed_entries still_prospective
  mark_reindexed db = record db {
    meta = write_meta env.schema (reindexed_entries db.prospective db.index_defs);
    prospective = still_prospective db.index_defs db.prospective;
    dropped = [];
  }

  abbrev pub prospective_indexes : Db env → List Bytes
  prospective_indexes db = db.prospective

  abbrev pub dropped_indexes : Db env → List Bytes
  dropped_indexes db = map (λ d. d.0) db.dropped

  -- filterIX: the values of the declared indexes, of the declared kind.
  unfoldable pub filter_ix : SecIndexes env.trees → IndexValues → IndexValues
  filter_ix sec [] = []
  filter_ix sec ((name, val) ∷ ix) =
      let more = filter_ix sec ix in
      elim (find_sec env.trees name sec) [
        | none ↦ more
        | some si ↦ elim (make_entry si.kind val []) [ err _ ↦ more | ok _ ↦ (name, val) ∷ more ]
      ]

  -- `_, active := db.secIndexes[name]`
  abbrev pub is_active : SecIndexes env.trees → Bytes → Bool
  is_active sec name = elim (find_sec env.trees name sec) [ none ↦ false | some _ ↦ true ]

  -- filterIXKnown: the values of the declared and of the dropped indexes.
  unfoldable pub filter_ix_known : SecIndexes env.trees → List Bytes → IndexValues → IndexValues
  unfolding is_member
  filter_ix_known sec dropped [] = []
  filter_ix_known sec dropped ((name, val) ∷ ix) =
      let more = filter_ix_known sec dropped ix in
      if is_active sec name || is_member name dropped then (name, val) ∷ more else more
