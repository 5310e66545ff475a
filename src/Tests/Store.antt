-- ===== src/Tests/Store.antt =====
-- A store on lists and on a small codec, and examples of the theorems on it.
use ntee_db.Base.{
  sym, ◌∙◌, ◌^◌, ◌+◌, ◌<◌, ◌≡◌, ◌⊎◌, refl, true, false, none, List, [], ◌∷◌, length, arith,
}
use ntee_db.Base.Int.{ℤ, pos, negsuc, ◌-ℤ◌, ◌+ℤ◌}
use mathlib.Core.Path.{subst}
use ntee_db.Bytes.{Bytes, bytes_eq}
use ntee_db.Btree
use ntee_db.Sort.{sort_search, search_from}
use ntee_db.Btree.Lists.{lists, lists-IsBtree}
use ntee_db.Result.{ok}
use ntee_db.Record.{
  Record, utf8_valid, to_disk, marshal_record, unmarshal_record, text, IndexValues,
}
use ntee_db.Record.RoundTrip.{from_disk-to_disk}
use ntee_db.PkIndex.{pk_order}
use ntee_db.SecIndex.{IndexDef, kind_string}
use ntee_db.SecIndex.Order.{sec_order}
use ntee_db.Index.{Trees, find_sec}
use ntee_db.Index.View.{IsTrees}
use ntee_db.MainLog.{open_main_log}
use ntee_db.MainLog.Lines.{scanned, image}
use ntee_db.SecIndex
use ntee_db.Blob.{find_gen}
use ntee_db.Db.{Env, Db}
use ntee_db.Db.Boot.{fresh}
use ntee_db.Db.Logged.{Carried, IsLogged}
use ntee_db.Db.Durable.{tombstone}
use ntee_db.Db.Puts.{CarriedKey, IsDurable, Succeeds, logged_record}
use ntee_db.Db.Mutations.{Refused, CarriedPut, write-Succeeds, put_indexed-Atomic, delete-Atomic}
use ntee_db.Db.Write.{
  inline_record, merge_explicit, merge_derived, build_index_values, check_self_eviction,
  use_blob_for, write, put_indexed, delete,
}
use ntee_db.Tests.Files.{hint_codec, meta_codec}
use ntee_db.Tests.Codec.{
  codec, put_record, raise, raise-IsLine, lower-raise, get_record-put_record, put_values, put_value,
  put_ref, put_flag, put_integer,
}

abbrev pub tree_lists : Trees
tree_lists = record { pk = lists pk_order; sec = λ k. lists (sec_order k) }

pub tree_lists-IsTrees : IsTrees tree_lists
tree_lists-IsTrees = record { pk = lists-IsBtree pk_order; sec = λ k. lists-IsBtree (sec_order k) }

abbrev pub env : Env
env = record { json = codec; hints = hint_codec; schema = meta_codec; trees = tree_lists }

abbrev pub tags : List IndexDef
tags = record { name = b't' ∷ []; kind = kind_string; extract = none; max_per_value = pos 1 } ∷ []

-- A new store with one index, which keeps one key per value; values of four bytes go to the blob
-- file.
abbrev pub new_store : Db env
new_store = record {
  opts = record { blob_threshold = pos 4; sync_every_write = true; hint_every_n = pos 2 };
  main = open_main_log (record { content = []; coming = [] }) true;
  blobs = (0, record { wf = record { content = []; coming = [] }; size = 0 }) ∷ [];
  cur_gen = 0;
  index = fresh tree_lists tags;
  index_defs = tags;
  meta = none;
  prospective = [];
  dropped = [];
  writes = 0;
  closed = false;
  hint = none;
  hint_gen = 0;
  pending = none;
  reap_queue = [];
}

pub new_store-IsLogged : IsLogged env new_store
unfolding open_main_log image SecIndex.new_sec_index
new_store-IsLogged = record {
  lines = [];
  final = fresh tree_lists tags;
  sound = record { size = refl; quiet = refl };
  holds = refl;
  whole = tt;
  replays = scanned;
  same = record {
    pk = refl;
    sec = (record { name = refl; kind = refl; max = refl; items = refl }, tt);
  };
}

pub new_store-IsDurable : IsDurable env new_store
unfolding find_gen SecIndex.new_sec_index
new_store-IsDurable = record {
  logged = new_store-IsLogged;
  keys = (tt, tt);
  blobs = (record { size = refl; quiet = refl }, tt);
  current = (_, refl);
}

ok_same : {A : Type 0} {a b : A} → ok a ≡ ok b → a ≡ b
ok_same h = ground arith

-- A short record is carried by its line.
pub carry :
    (r : Record)
    → r.text ≡ []
    → length (raise (put_record (to_disk r))) + 1 < 2 ^ 31
    → Carried env r (raise (put_record (to_disk r)))
unfolding marshal_record unmarshal_record
carry r t f = record {
  encodes = refl;
  one_line = raise-IsLine (put_record (to_disk r));
  fits = f;
  decodes = ground (
    arith,
    lower-raise (put_record (to_disk r)),
    get_record-put_record (to_disk r),
    from_disk-to_disk r t,
  );
}

pub tombstone_a : CarriedKey env (b'a' ∷ [])
unfolding to_disk put_values put_ref put_flag put_integer
tombstone_a = (_, carry (tombstone (b'a' ∷ [])) refl (ground arith))

abbrev pub key_a : Bytes
key_a = b'a' ∷ []

-- An object, so that it may have index values.
abbrev pub object : Bytes
object = b'{' ∷ b'}' ∷ []

abbrev pub tag_x : IndexValues
tag_x = (b't' ∷ [], text (b'x' ∷ [])) ∷ []

built_tag : build_index_values env tags new_store.index.sec key_a object tag_x ≡ ok tag_x
unfolding build_index_values merge_explicit find_sec bytes_eq SecIndex.new_sec_index
    SecIndex.make_entry merge_derived Btree.put
built_tag = refl

fits_tag : check_self_eviction env new_store.index.sec key_a tag_x ≡ ok tt
unfolding check_self_eviction find_sec bytes_eq SecIndex.new_sec_index SecIndex.would_self_evict
    SecIndex.make_entry SecIndex.lower_bound SecIndex.upper_bound_value sort_search search_from ◌-ℤ◌
    ◌+ℤ◌
fits_tag = refl

short_object : length object < 2 ^ 31
short_object = ground arith

pub small_object :
    (exp : ℤ)
    → length (raise (put_record (to_disk (inline_record env key_a object tag_x exp false)))) + 1
      < 2 ^ 31
unfolding to_disk utf8_valid put_values put_value put_ref put_flag put_integer
small_object (pos n) = ground arith
small_object (negsuc n) = ground arith

Carried-object :
    (exp : ℤ)
    → Carried env
        (logged_record env new_store new_store-IsDurable.current.0 key_a object tag_x exp)
        (raise (put_record (to_disk (inline_record env key_a object tag_x exp false))))
unfolding use_blob_for
Carried-object exp = carry (inline_record env key_a object tag_x exp false) refl (small_object exp)

carried_tag :
    (exp : ℤ)
    → CarriedPut env tree_lists-IsTrees new_store new_store-IsDurable key_a object tombstone_a
        short_object tag_x exp
carried_tag exp ix b =
    let same : tag_x ≡ ix = ok_same (sym built_tag ∙ b) in
    subst
      (λ ix.
        (line : Bytes) × Carried env
          (logged_record env new_store new_store-IsDurable.current.0 key_a object ix exp) line)
      same (_, Carried-object exp)

write-Succeeds_example : Succeeds env (write env key_a object tag_x (pos 0) new_store)
write-Succeeds_example =
    write-Succeeds env tree_lists-IsTrees new_store new_store-IsDurable key_a object tombstone_a
      short_object tag_x tag_x (pos 0) (carried_tag (pos 0)) built_tag fits_tag

put_indexed-Atomic_example :
    Refused env new_store
      (put_indexed env (pos 5) key_a object tag_x (pos 2_000_000 ∷ []) new_store)
    ⊎ Succeeds env (put_indexed env (pos 5) key_a object tag_x (pos 2_000_000 ∷ []) new_store)
put_indexed-Atomic_example =
    put_indexed-Atomic env tree_lists-IsTrees new_store new_store-IsDurable key_a object tombstone_a
      short_object tag_x (pos 5) (pos 2_000_000 ∷ []) (λ exp h. carried_tag exp)

-- A store with one record.
abbrev pub one_record : Db env
one_record = (write env key_a object tag_x (pos 0) new_store).1

one_record_written : Succeeds env (write env key_a object tag_x (pos 0) new_store)
one_record_written =
    write-Succeeds env tree_lists-IsTrees new_store new_store-IsDurable key_a object tombstone_a
      short_object tag_x tag_x (pos 0) (carried_tag (pos 0)) built_tag fits_tag

pub one_record-IsDurable : IsDurable env one_record
one_record-IsDurable = one_record_written.1

delete-Atomic_example :
    Refused env one_record (delete env key_a one_record)
    ⊎ Succeeds env (delete env key_a one_record)
delete-Atomic_example =
    delete-Atomic env tree_lists-IsTrees one_record one_record-IsDurable key_a tombstone_a
