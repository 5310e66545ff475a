-- ===== src/Tests/Queries.antt =====
-- Examples of the theorems on queries, range deletes and the reaper.
use ntee_db.Base.{◌+◌, ◌<◌, ◌^◌, ◌≡◌, refl, none, [], ◌∷◌, length, arith, if◌then◌else◌}
use ntee_db.Base.Int.{pos, negsuc}
use ntee_db.Bytes.{Bytes, bytes_less}
use ntee_db.Btree.{All}
use ntee_db.Result.{ok}
use ntee_db.Record.{text, blank, to_disk, is_tombstone}
use ntee_db.Index.{put_key, refresh_sec, retract_sec}
use ntee_db.Btree
use ntee_db.Tests.Codec.{raise, put_record, put_values, put_ref, put_flag, put_integer}
use ntee_db.PkIndex
use ntee_db.PkIndex.{PkEntry, key_only}
use ntee_db.SecIndex
use ntee_db.SecIndex.{IndexDef, SecEntry, SecIndex, kind_string, value_equal}
use ntee_db.SecIndex.Search.{rank, upper_bound_value-lower_bound}
use ntee_db.SecIndex.Grouped.{answers, values_with}
use ntee_db.SecIndex.Prefixed.{prefix_lem}
use ntee_db.SecIndex.Spans.{is_some_key, spans, exists_lem, range_query_lem}
use ntee_db.SecIndex.Queries.{keys_where, limited, equals, exact_lem}
use ntee_db.Db.{Db}
use ntee_db.Db.Puts.{CarriedKey, IsDurable, stored-IsDurable}
use ntee_db.Db.Durable.{stored}
use ntee_db.Db.Ranges.{below, above, remove_by_pk_less, remove_by_pk_greater}
use ntee_db.Db.Removals.{remove_by_pk_less_lem, remove_by_pk_greater_lem}
use ntee_db.Db.Read.{prefix_scan}
use ntee_db.Db.Scans
use ntee_db.Db.Scans.{live_with, prefix_scan_lem}
use ntee_db.Db.Reaper.{reap_cycle}
use ntee_db.Db.Reaping.{LosesExpired, reap_cycle-LosesExpired}
use ntee_db.Tests.Store.{
  tree_lists, tree_lists-IsTrees, env, key_a, one_record, tombstone_a, carry, new_store,
  new_store-IsDurable,
}

abbrev probe_x : SecEntry
probe_x = record { s = b'x' ∷ []; f = pos 0; pk = [] }

-- Two entries of one value.
abbrev two_entries : SecIndex tree_lists.sec
two_entries =
    SecIndex.insert tree_lists.sec
      (SecIndex.insert tree_lists.sec
        (SecIndex.new_sec_index tree_lists.sec
          (record { name = b't' ∷ []; kind = kind_string; extract = none; max_per_value = pos 1 }))
        (record probe_x { pk = b'a' ∷ [] }))
      (record probe_x { pk = b'b' ∷ [] })

upper_bound_value-lower_bound_example :
    SecIndex.upper_bound_value tree_lists.sec two_entries probe_x
    ≡ SecIndex.lower_bound tree_lists.sec two_entries probe_x
      + rank
          (λ x. value_equal two_entries.kind x probe_x)
          ((tree_lists.sec two_entries.kind).scan two_entries.tree)
upper_bound_value-lower_bound_example =
    upper_bound_value-lower_bound tree_lists.sec tree_lists-IsTrees.sec two_entries probe_x refl

made_x : SecIndex.make_entry two_entries.kind (text (b'x' ∷ [])) [] ≡ ok probe_x
unfolding SecIndex.make_entry SecIndex.insert SecIndex.new_sec_index
made_x = refl

exact_lem_example :
    SecIndex.exact tree_lists.sec two_entries (text (b'x' ∷ [])) (negsuc 0)
    ≡ ok (
        limited (negsuc 0) (
          keys_where
            (equals two_entries.kind probe_x)
            ((tree_lists.sec two_entries.kind).scan two_entries.tree)))
exact_lem_example =
    exact_lem tree_lists.sec tree_lists-IsTrees.sec two_entries (text (b'x' ∷ [])) probe_x
      (negsuc 0) made_x refl

reap_cycle-LosesExpired_example :
    LosesExpired env (pos 9) one_record.index (reap_cycle env (pos 9) one_record).index
reap_cycle-LosesExpired_example = reap_cycle-LosesExpired env tree_lists-IsTrees (pos 9) one_record

-- A store whose log has one blank record.
line_a-Fits : length (raise (put_record (to_disk (blank key_a)))) + 1 < 2 ^ 31
unfolding to_disk put_values put_ref put_flag put_integer
line_a-Fits = ground arith

abbrev blank_record : Db env
blank_record = stored env new_store (blank key_a) (raise (put_record (to_disk (blank key_a))))

blank_record-IsDurable : IsDurable env blank_record
unfolding is_tombstone
blank_record-IsDurable =
    stored-IsDurable env tree_lists-IsTrees new_store (blank key_a) _ tombstone_a
      (carry (blank key_a) refl line_a-Fits) refl refl new_store-IsDurable

below_b : All (CarriedKey env) (below (b'b' ∷ []) (env.trees.pk.scan blank_record.index.pk))
unfolding below put_key refresh_sec retract_sec PkIndex.upsert PkIndex.get Btree.put Btree.find
    bytes_less
below_b = (tombstone_a, tt)

above_none :
    All (CarriedKey env) (above [] (env.trees.pk.ascend blank_record.index.pk (key_only [])))
unfolding above put_key refresh_sec retract_sec PkIndex.upsert PkIndex.get Btree.put Btree.find
    Btree.from bytes_less
above_none = (tombstone_a, tt)

remove_by_pk_less_lem_example :
    ((remove_by_pk_less env (b'b' ∷ []) blank_record).0
      ≡ ok (length (below (b'b' ∷ []) (env.trees.pk.scan blank_record.index.pk))))
    × ((j : Bytes)
        → PkIndex.get env.trees.pk (remove_by_pk_less env (b'b' ∷ []) blank_record).1.index.pk j ≡ (
            if bytes_less j (b'b' ∷ [])
            then none
            else PkIndex.get env.trees.pk blank_record.index.pk j))
remove_by_pk_less_lem_example =
    remove_by_pk_less_lem env tree_lists-IsTrees blank_record blank_record-IsDurable refl
      (b'b' ∷ []) below_b

remove_by_pk_greater_lem_example :
    ((remove_by_pk_greater env [] blank_record).0
      ≡ ok (length (above [] (env.trees.pk.ascend blank_record.index.pk (key_only [])))))
    × ((j : Bytes)
        → PkIndex.get env.trees.pk (remove_by_pk_greater env [] blank_record).1.index.pk j
          ≡ (if bytes_less [] j then none else PkIndex.get env.trees.pk blank_record.index.pk j))
remove_by_pk_greater_lem_example =
    remove_by_pk_greater_lem env tree_lists-IsTrees blank_record blank_record-IsDurable refl []
      above_none

exists_lem_example :
    SecIndex.exists tree_lists.sec two_entries (text (b'x' ∷ []))
    ≡ ok (
        is_some_key (
          keys_where
            (equals two_entries.kind probe_x)
            ((tree_lists.sec two_entries.kind).scan two_entries.tree)))
exists_lem_example =
    exists_lem tree_lists.sec tree_lists-IsTrees.sec two_entries (text (b'x' ∷ [])) probe_x made_x

range_query_lem_example :
    SecIndex.range_query tree_lists.sec two_entries (text (b'x' ∷ [])) (text (b'x' ∷ []))
    ≡ ok (
        keys_where
          (spans two_entries.kind probe_x probe_x)
          ((tree_lists.sec two_entries.kind).scan two_entries.tree))
range_query_lem_example =
    range_query_lem tree_lists.sec tree_lists-IsTrees.sec two_entries (text (b'x' ∷ []))
      (text (b'x' ∷ [])) probe_x probe_x made_x made_x

prefix_scan_lem_example :
    ((prefix_scan env (pos 9) key_a blank_record).0
      ≡ ok (Scans.keys_where (live_with (pos 9) key_a) (env.trees.pk.scan blank_record.index.pk)))
    × ((prefix_scan env (pos 9) key_a blank_record).1.index ≡ blank_record.index)
prefix_scan_lem_example = prefix_scan_lem env (pos 9) tree_lists-IsTrees key_a blank_record refl

two_entries-strings : two_entries.kind ≡ kind_string
unfolding SecIndex.insert SecIndex.new_sec_index
two_entries-strings = refl

prefix_lem_example :
    SecIndex.prefix tree_lists.sec two_entries (b'x' ∷ []) (negsuc 0)
    ≡ ok (
        answers
          (negsuc 0)
          ((tree_lists.sec two_entries.kind).scan two_entries.tree)
          (values_with (b'x' ∷ []) ((tree_lists.sec two_entries.kind).scan two_entries.tree)))
prefix_lem_example =
    prefix_lem tree_lists.sec tree_lists-IsTrees.sec two_entries two_entries-strings (b'x' ∷ [])
      (negsuc 0) refl
