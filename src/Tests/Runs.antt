-- ===== src/Tests/Runs.antt =====
-- Examples of the theorems on whole runs of a store.
use ntee_db.Base.{
  List, ap, sym, true, ℕ, ◌+◌, ◌<◌, ◌^◌, ◌≡◌, refl, false, none, some, [], ◌∷◌, ◌++◌, length, arith,
  if◌then◌else◌,
}
use ntee_db.Base.Int.{pos}
use ntee_db.Bytes.{Bytes, bytes_eq, bytes_less}
use ntee_db.Btree.{All}
use ntee_db.Result.{ok}
use ntee_db.Record.{Record, text, is_tombstone, utf8_valid, to_disk}
use ntee_db.Blob.{blob_size_of}
use ntee_db.PkIndex
use ntee_db.PkIndex.{expired_at}
use ntee_db.Index.{
  refresh_sec, retract_sec, insert_sec, insert_value, at_index, find_sec, Index, put_key,
  delete_key,
}
use ntee_db.Index.View.{SameIndex}
use ntee_db.Index.Keys.{put_entry, get-put_key, get-delete_key}
use ntee_db.Ttl.{resolve_ttl}
use ntee_db.Db.Boot.{fresh, replay_tail}
use ntee_db.Db.Write.{build_index_values, use_blob_for, enforce_max_per_value, inline_record, put}
use ntee_db.Db.Logged.{replay_tail-Logged}
use ntee_db.Db.Puts.{CarriedKey, IsDurable, stored-IsDurable}
use ntee_db.Db.Durable.{tombstone, stored}
use ntee_db.Db.Evictions.{Without, group, enforce_max_per_value_lem}
use ntee_db.SecIndex.Oldest.{surplus}
use ntee_db.Db.Read.{get}
use ntee_db.Db.{Db}
use ntee_db.Db.ReadBack.{get-put}
use ntee_db.Meta.{MetaIndex, meta_version, indexes_of, kind_name, load_meta, write_meta}
use ntee_db.SecIndex.{SecIndex, new_sec_index, insert, make_entry, kind_number, kind_string}
use ntee_db.Db.Schema.{adopt_schema, declares}
use ntee_db.Db.Priors.{definition_of}
use ntee_db.Db.Adoption.{IsJsonMeta, IsMetaCodec, Adopted, adopt_schema_lem}
use ntee_db.Tests.Files.{meta_codec, unmarshal-meta}
use mathlib.Core.Path.{subst}
use ntee_db.Db.Counters.{incr}
use ntee_db.Db.Counting.{counter_record, get-incr}
use ntee_db.Counter.{format_counter, put_digits}
use ntee_db.Btree
use ntee_db.Tests.Codec.{raise, put_record, put_value, put_values, put_ref, put_flag, put_integer}
use ntee_db.Tests.Store.{
  new_store-IsDurable, tombstone_a, small_object, tree_lists, tree_lists-IsTrees, env, tags,
  new_store, new_store-IsLogged, carry, key_a, object, tag_x, one_record, one_record-IsDurable,
}

-- A crash in the middle of the next append leaves two bytes of its line.
replay_tail-Logged_example :
    (final : Index env.trees) × (replay_tail env
        (blob_size_of one_record.blobs)
        0
        (fresh env.trees one_record.index_defs)
        (one_record.main.f.content ++ b'{' ∷ b'"' ∷ [])
      ≡ (final, one_record.main.f.content))
    × SameIndex env.trees final one_record.index
replay_tail-Logged_example =
    replay_tail-Logged env tree_lists-IsTrees (b'{' ∷ b'"' ∷ []) (refl, (refl, tt))
      one_record-IsDurable.logged

-- Two keys with a value of an index that keeps one.
abbrev key_b : Bytes
key_b = b'b' ∷ []

abbrev tagged : Bytes → Record
tagged key = inline_record env key object tag_x (pos 0) false

line_tagged_b-Fits : length (raise (put_record (to_disk (tagged key_b)))) + 1 < 2 ^ 31
unfolding to_disk utf8_valid put_values put_value put_ref put_flag put_integer
line_tagged_b-Fits = ground arith

abbrev with_tagged : Db env → Bytes → Db env
with_tagged db key = stored env db (tagged key) (raise (put_record (to_disk (tagged key))))

tombstone_b : CarriedKey env key_b
unfolding to_disk put_values put_ref put_flag put_integer
tombstone_b = (_, carry (tombstone key_b) refl (ground arith))

abbrev crowded : Db env
crowded = with_tagged (with_tagged new_store key_a) key_b

crowded-IsDurable : IsDurable env crowded
unfolding is_tombstone
crowded-IsDurable =
    stored-IsDurable env tree_lists-IsTrees (with_tagged new_store key_a) (tagged key_b) _
      tombstone_b (carry (tagged key_b) refl line_tagged_b-Fits) refl refl
      (stored-IsDurable env tree_lists-IsTrees new_store (tagged key_a) _ tombstone_a
        (carry (tagged key_a) refl (small_object (pos 0))) refl refl new_store-IsDurable)

abbrev crowd : (tree_lists.sec kind_string).Tree
crowd =
    let trees = tree_lists.sec kind_string in
    trees.set (trees.set trees.new (record { s = b'x' ∷ []; f = pos 0; pk = key_a }))
      (record { s = b'x' ∷ []; f = pos 0; pk = key_b })

abbrev crowded_tags : SecIndex tree_lists.sec
crowded_tags = record { name = b't' ∷ []; kind = kind_string; max = pos 1; tree = crowd }

crowded_found : find_sec tree_lists (b't' ∷ []) crowded.index.sec ≡ some crowded_tags
unfolding find_sec put_key refresh_sec retract_sec insert_sec insert_value at_index PkIndex.get
    Btree.find PkIndex.upsert bytes_eq new_sec_index make_entry insert Btree.put PkIndex.set_ix
    bytes_less
crowded_found = refl

enforce_max_per_value_lem_example :
    (after : Db env) × (enforce_max_per_value env ((b't' ∷ [], text (b'x' ∷ [])) ∷ []) crowded
      ≡ enforce_max_per_value env [] after)
    × Without env tree_lists-IsTrees
        (surplus (pos 1) (
          group env tree_lists-IsTrees crowded_tags (record { s = b'x' ∷ []; f = pos 0; pk = [] })))
        crowded
        after
unfolding make_entry
enforce_max_per_value_lem_example =
    enforce_max_per_value_lem env tree_lists-IsTrees (b't' ∷ []) (text (b'x' ∷ [])) [] crowded
      crowded_tags (record { s = b'x' ∷ []; f = pos 0; pk = [] }) crowded-IsDurable crowded_found
      refl

get-put_key_example :
    PkIndex.get tree_lists.pk (put_key tree_lists key_a 0 9 (pos 0) tag_x new_store.index).pk key_a
    ≡ (if bytes_eq key_a key_a
        then some (put_entry key_a 0 9 (pos 0) tag_x)
        else PkIndex.get tree_lists.pk new_store.index.pk key_a)
get-put_key_example =
    get-put_key tree_lists tree_lists-IsTrees key_a 0 9 (pos 0) tag_x new_store.index key_a

get-delete_key_example :
    PkIndex.get tree_lists.pk (delete_key tree_lists key_a one_record.index).pk key_a
    ≡ (if bytes_eq key_a key_a then none else PkIndex.get tree_lists.pk one_record.index.pk key_a)
get-delete_key_example = get-delete_key tree_lists tree_lists-IsTrees key_a one_record.index key_a

-- A value that is no object has no index values.
abbrev hi : Bytes
hi = b'h' ∷ b'i' ∷ []

built_hi : build_index_values env new_store.index_defs new_store.index.sec key_a hi [] ≡ ok []
unfolding build_index_values
built_hi = refl

inline_hi : use_blob_for env new_store (length hi) ≡ false
unfolding use_blob_for
inline_hi = refl

short_hi :
    length (raise (put_record (to_disk (inline_record env key_a hi [] (pos 0) false)))) + 1 < 2 ^ 31
unfolding to_disk utf8_valid put_values put_ref put_flag put_integer
short_hi = ground arith

no_expiry : resolve_ttl (pos 5) [] ≡ ok (pos 0)
unfolding resolve_ttl
no_expiry = refl

never : (n : ℕ) → expired_at (put_entry key_a new_store.main.size n (pos 0) []) (pos 9) ≡ false
unfolding expired_at
never n = refl

get-put_example :
    ((put env (pos 5) key_a hi [] new_store).0 ≡ ok tt)
    × ((get env (pos 9) key_a (put env (pos 5) key_a hi [] new_store).1).0 ≡ ok (some hi))
get-put_example =
    get-put env tree_lists-IsTrees new_store key_a hi (pos 5) (pos 9) (pos 0) []
      (raise (put_record (to_disk (inline_record env key_a hi [] (pos 0) false))))
      new_store-IsLogged.sound refl no_expiry built_hi inline_hi
      (carry (inline_record env key_a hi [] (pos 0) false) refl short_hi) (never _)

-- A counter that is created at 7.
line_seven-Fits :
    length (
        raise (
          put_record
            (to_disk (counter_record env tree_lists-IsTrees new_store key_a (pos 7) (pos 0)))))
      + 1
    < 2 ^ 31
unfolding to_disk utf8_valid put_values put_ref put_flag put_integer format_counter put_digits
line_seven-Fits = ground arith

no_counter : PkIndex.get env.trees.pk new_store.index.pk key_a ≡ none
unfolding PkIndex.get Btree.find
no_counter = refl

get-incr_example :
    ((incr env (pos 5) key_a (pos 7) [] new_store).0 ≡ ok (pos 7))
    × ((get env (pos 9) key_a (incr env (pos 5) key_a (pos 7) [] new_store).1).0
        ≡ ok (some (format_counter (pos 7))))
get-incr_example =
    get-incr env tree_lists-IsTrees new_store key_a (pos 7) (pos 5) (pos 9) (pos 0) []
      (raise (
        put_record
          (to_disk (counter_record env tree_lists-IsTrees new_store key_a (pos 7) (pos 0)))))
      new_store-IsLogged.sound refl (ground arith, ground arith) no_expiry no_counter
      (carry (counter_record env tree_lists-IsTrees new_store key_a (pos 7) (pos 0)) refl
        line_seven-Fits)
      (never _)

-- The prior meta.json has an index that is declared no more, and the one that is, complete.
abbrev prior_indexes : List MetaIndex
prior_indexes =
    record { name = b'o' ∷ []; kind = kind_name kind_number; complete = true; dropped = false }
    ∷ record { name = b't' ∷ []; kind = kind_name kind_string; complete = true; dropped = false }
    ∷ []

abbrev reopened : Db env
reopened = record one_record { meta = write_meta meta_codec prior_indexes; index_defs = tags }

entries-reopened : load_meta meta_codec reopened.meta ≡ prior_indexes
unfolding load_meta
entries-reopened =
    ap indexes_of (unmarshal-meta (record { version = meta_version; indexes = prior_indexes }))

meta_codec-IsMetaCodec : IsMetaCodec meta_codec
meta_codec-IsMetaCodec = record {
  returns = λ ms valid. unmarshal-meta (record { version = meta_version; indexes = ms });
}

prior-IsJsonMeta : All IsJsonMeta prior_indexes
unfolding utf8_valid kind_name
prior-IsJsonMeta = ((refl, refl), ((refl, refl), tt))

tags_valid : All (λ d. utf8_valid d.name ≡ true) tags
unfolding utf8_valid
tags_valid = (refl, tt)

adopt_schema_lem_example :
    Adopted env meta_codec-IsMetaCodec reopened
      (adopt_schema env reopened)
      (b't' ∷ [])
      (definition_of (b't' ∷ []) tags)
unfolding declares
adopt_schema_lem_example =
    adopt_schema_lem env meta_codec-IsMetaCodec reopened (b't' ∷ []) (refl, tt)
      (subst (All IsJsonMeta) (sym entries-reopened) prior-IsJsonMeta) tags_valid
