-- ===== src/Tests/Compact.antt =====
-- An example of the theorem on Compact.
use ntee_db.Base.{◌+◌, length-append, ◌++◌, ◌∷◌, ◌≡◌, refl, sym, false, some, arith, [], length}
use mathlib.Core.Path.{subst}
use ntee_db.Base.Int.{pos}
use ntee_db.Bytes.{Bytes, bytes_eq, bytes_less}
use ntee_db.Btree
use ntee_db.Btree.{All}
use ntee_db.Result.{ok}
use ntee_db.Record.{Record, to_disk, is_tombstone}
use ntee_db.PkIndex
use ntee_db.PkIndex.{PkEntry}
use ntee_db.Index.Keys.{put_entry}
use ntee_db.Index.Appending.{scan-put_new}
use ntee_db.SecIndex
use ntee_db.Index
use ntee_db.Index.{put_key, refresh_sec, retract_sec, insert_sec, insert_value, at_index}
use ntee_db.Db.{Db, hint_of}
use ntee_db.Db.Boot.{load}
use ntee_db.Blob.{blob_size_of}
use ntee_db.Index.{Index}
use ntee_db.Index.View.{SameIndex}
use ntee_db.MainLog.{open_main_log}
use ntee_db.MainLog.Lines.{image, Scanned, scans, scanned}
use ntee_db.Record.{newline}
use ntee_db.Index.{rebuild_from, replay_record}
use ntee_db.Db.Hinting.{IsRebuilt, load-hinted}
use ntee_db.Db.Write.{inline_record}
use ntee_db.Db.Puts.{IsDurable, stored-IsDurable}
use ntee_db.Db.Durable.{stored}
use ntee_db.Db.ReadBack.{read_record-stored}
use ntee_db.Db.Logged.{IsLogged, Carried}
use ntee_db.Db.Schema.{filter_ix_known}
use ntee_db.Db.Compact.{compact, swaps}
use ntee_db.Db.Rewriting.{Kept, KeptAlive}
use ntee_db.Db.Rewritten.{keys_of, unexpired, lines_of}
use ntee_db.Db.Compacted.{compacted, compact_lem}
use ntee_db.Tests.Codec.{raise, put_record}
use ntee_db.Tests.Files.{hint_codec-IsHintCodec}
use ntee_db.Tests.Store.{
  tree_lists, tree_lists-IsTrees, env, key_a, object, tag_x, tombstone_a, carry, small_object,
  new_store, new_store-IsDurable, tags,
}

-- A store whose log has one record, with an index value.
abbrev tagged : Record
tagged = inline_record env key_a object tag_x (pos 0) false

abbrev tagged_line : Bytes
tagged_line = raise (put_record (to_disk tagged))

abbrev tagged_store : Db env
tagged_store = stored env new_store tagged tagged_line

tagged_store-IsDurable : IsDurable env tagged_store
unfolding is_tombstone
tagged_store-IsDurable =
    stored-IsDurable env tree_lists-IsTrees new_store tagged _ tombstone_a
      (carry tagged refl (small_object (pos 0))) refl refl new_store-IsDurable

tag_stays : compacted env tagged_store tagged ≡ tagged
unfolding filter_ix_known put_key refresh_sec retract_sec insert_sec insert_value at_index
    SecIndex.insert SecIndex.new_sec_index bytes_eq Index.find_sec PkIndex.get Btree.find
    PkIndex.upsert Btree.put bytes_less SecIndex.make_entry
tag_stays = refl

tagged_entry : PkEntry
tagged_entry = put_entry key_a new_store.main.size (length tagged_line + 1) (pos 0) tag_x

tagged-Kept : Kept env tagged_store (compacted env tagged_store) tagged_entry
unfolding is_tombstone tagged_entry
tagged-Kept = record {
  rec = tagged;
  line = tagged_line;
  reads =
      read_record-stored env new_store tagged tagged_line new_store-IsDurable.logged.sound
        (carry tagged refl (small_object (pos 0))) tagged_entry refl refl;
  carried =
      subst (λ r. Carried env r tagged_line) (sym tag_stays)
        (carry tagged refl (small_object (pos 0)));
  names = refl;
  puts = refl;
  whole = refl;
}

kept-All :
    All
      (KeptAlive env tagged_store (compacted env tagged_store) (pos 9))
      (env.trees.pk.scan tagged_store.index.pk)
unfolding tagged_entry
kept-All =
    subst (All (KeptAlive env tagged_store (compacted env tagged_store) (pos 9)))
      (sym (
        scan-put_new tree_lists tree_lists-IsTrees key_a new_store.main.size
          (length tagged_line + 1) (pos 0) new_store.index tt tag_x))
      ((λ _. tagged-Kept), tt)

compact_lem_example :
    (db' : Db env) × (compact env (swaps []) (pos 9) tagged_store ≡ (ok tt, db'))
    × IsLogged env db'
    × (keys_of (env.trees.pk.scan db'.index.pk)
        ≡ keys_of (unexpired (pos 9) (env.trees.pk.scan tagged_store.index.pk)))
    × (db'.main.f.content
        ≡ lines_of env tagged_store
            (compacted env tagged_store)
            (unexpired (pos 9) (env.trees.pk.scan tagged_store.index.pk)))
    × IsRebuilt env tree_lists-IsTrees tags db'.index
    × (db'.hint ≡ some (hint_of env db'.index.pk (length db'.main.f.content)))
compact_lem_example =
    compact_lem env tree_lists-IsTrees tagged_store tagged_store-IsDurable (pos 9) refl kept-All

nothing_there-IsRebuilt : IsRebuilt env tree_lists-IsTrees tags new_store.index
unfolding rebuild_from
nothing_there-IsRebuilt = (record { name = refl; kind = refl; max = refl; items = refl }, tt)

lands : (l : Bytes) → 0 + (length l + 1) ≡ length (l ++ newline ∷ [])
lands l = omega (arith, length-append l (newline ∷ []))

one_scan :
    Scanned env.json
      (replay_record tree_lists (blob_size_of new_store.blobs))
      0
      new_store.index
      (tagged_line ∷ [])
      (length (image (tagged_line ∷ [])))
      tagged_store.index
unfolding image replay_record is_tombstone open_main_log
one_scan =
    let c = carry tagged refl (small_object (pos 0)) in
    subst
      (λ n.
        Scanned env.json (replay_record tree_lists (blob_size_of new_store.blobs)) 0 new_store.index
          (tagged_line ∷ []) n tagged_store.index)
      (lands tagged_line) (scans tagged c.fits c.decodes refl scanned)

-- A hint of no entries, and a log with one record behind it and a torn line.
load-hinted_example :
    (final : Index env.trees) × (load env
        (blob_size_of new_store.blobs)
        (some (hint_of env new_store.index.pk 0))
        tags
        (image (tagged_line ∷ []) ++ (b'{' ∷ []))
      ≡ (final, image (tagged_line ∷ [])))
    × SameIndex env.trees final tagged_store.index
load-hinted_example =
    load-hinted env tree_lists-IsTrees hint_codec-IsHintCodec (blob_size_of new_store.blobs) tags
      new_store.index tagged_store.index [] (tagged_line ∷ []) (b'{' ∷ []) nothing_there-IsRebuilt
      (ground arith) tt ((carry tagged refl (small_object (pos 0))).one_line, tt) (refl, tt)
      one_scan
