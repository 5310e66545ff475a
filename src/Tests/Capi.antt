-- ===== src/Tests/Capi.antt =====
-- Examples of the theorems on the C interface.
use ntee_db.Base.{◌≡◌, refl, none, some, [], ◌∷◌, map, arith}
use ntee_db.Record.{text}
use ntee_db.Result.{ok}
use ntee_db.Db.{Db}
use ntee_db.Capi.Registry.{Registry, reg_put, reg_get}
use ntee_db.Capi.Values.{made}
use ntee_db.Capi.Batches.{cut_items}
use ntee_db.Capi.Exports.{nteedb_open, nteedb_close}
use ntee_db.Capi.Pieces.{Piece, meta_of, stored_as, cut_items-block}
use ntee_db.Capi.Handles.{Reach, start, opens, closes, Reach-reg_put}
use ntee_db.Tests.Store.{env, new_store}

abbrev piece_a : Piece
piece_a = record { key = b'a' ∷ []; value = b'1' ∷ b'2' ∷ []; ix = [] }

abbrev piece_b : Piece
piece_b = record { key = b'b' ∷ []; value = []; ix = (b't' ∷ [], text (b'x' ∷ [])) ∷ [] }

cut_items-block_example :
    cut_items (b'1' ∷ b'2' ∷ []) 0 (map meta_of (piece_a ∷ piece_b ∷ []))
    ≡ made (map stored_as (piece_a ∷ piece_b ∷ []))
cut_items-block_example = cut_items-block (piece_a ∷ piece_b ∷ []) (ground arith)

-- A registry after an open and a close.
abbrev opened_once : Registry (Db env)
opened_once = (nteedb_open env (ok new_store) (record { next = 0; stores = [] })).1

abbrev closed_again : Registry (Db env)
closed_again = (nteedb_close env 1 opened_once).1

closed_again-Reach : Reach env 1 closed_again
closed_again-Reach = closes 1 (opens (ok new_store) new_store refl start)

Reach-reg_put_example :
    (¬ (reg_put new_store closed_again).0 ≡ 0)
    × (reg_get (reg_put new_store closed_again).0 closed_again ≡ none)
    × (reg_get (reg_put new_store closed_again).0 (reg_put new_store closed_again).1
        ≡ some new_store)
Reach-reg_put_example = Reach-reg_put env 1 closed_again new_store (ground arith) closed_again-Reach
