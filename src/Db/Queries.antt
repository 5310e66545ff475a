-- ===== src/Db/Queries.antt =====
-- nteedb-core/secindex.go: the queries by index of a store.
use ntee_db.Base.{Bool, none, some, List, if◌then◌else◌}
use ntee_db.Base.Int.{ℤ}
use ntee_db.Bytes.{Bytes}
use ntee_db.Record.{AnyValue}
use ntee_db.Result.{Result, err, closed, unknown_index}
use ntee_db.SecIndex
use ntee_db.SecIndex.{SecIndex}
use ntee_db.Index.{find_sec}
use ntee_db.Db.{Env, Db}

module _ (env : Env) where
  -- The checks that the queries share. An absent limit is 0.
  abbrev pub with_index :
      {A : Type 0} → Db env → Bytes → (SecIndex env.trees.sec → Result A) → Result A
  with_index db name query =
      if db.closed then err closed else elim (find_sec env.trees name db.index.sec) [
        | none ↦ err unknown_index
        | some si ↦ query si
      ]

  unfoldable pub by_index : Db env → Bytes → AnyValue → ℤ → Result (List Bytes)
  by_index db name val limit = with_index db name (λ si. SecIndex.exact env.trees.sec si val limit)

  unfoldable pub by_index_has : Db env → Bytes → AnyValue → Result Bool
  by_index_has db name val = with_index db name (λ si. SecIndex.exists env.trees.sec si val)

  unfoldable pub by_index_range : Db env → Bytes → AnyValue → AnyValue → Result (List Bytes)
  by_index_range db name lo hi =
      with_index db name (λ si. SecIndex.range_query env.trees.sec si lo hi)

  unfoldable pub by_index_prefix : Db env → Bytes → Bytes → ℤ → Result (List Bytes)
  by_index_prefix db name p limit =
      with_index db name (λ si. SecIndex.prefix env.trees.sec si p limit)
