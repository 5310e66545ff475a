-- ===== src/Capi/Settings.antt =====
-- nteedb-js/capi/options.go: the options of a store from JSON. The directory is no part of the
-- state of a store.
use ntee_db.Base.{Bool, false, Option, none, some, List, [], ◌∷◌, map, if◌then◌else◌}
use ntee_db.Base.Int.{ℤ, pos}
use ntee_db.Bytes.{Bytes, bytes_eq}
use ntee_db.SecIndex.{ValueKind, kind_string, kind_number, IndexDef}
use ntee_db.Db.{Options}
use ntee_db.Server.Text.{codes}
use ntee_db.Server.Settings.{Value, json_path_extract}
use ntee_db.Capi.Values.{Made, made, refused, bad_json}

pub record JsonIndex : Type 0 where
  pub name : Bytes
  pub kind : Bytes
  pub json_path : Bytes
  pub max_per_value : ℤ

pub record JsonOptions : Type 0 where
  pub blob_threshold : ℤ
  pub sync_every_write : Bool
  pub hint_every_n : ℤ
  pub indexes : List JsonIndex

-- Any kind but "number" is a string.
abbrev kind_of : Bytes → ValueKind
kind_of kind = if bytes_eq kind (codes "number") then kind_number else kind_string

-- jsonPathExtractor walks like the Extract functions of the server.
abbrev index_def : (Bytes → Option Value) → JsonIndex → IndexDef
index_def decode ji = record {
  name = ji.name;
  kind = kind_of ji.kind;
  extract =
      if bytes_eq ji.json_path []
      then none
      else some (json_path_extract decode ji.json_path (kind_of ji.kind));
  max_per_value = ji.max_per_value;
}

abbrev no_options : Options
no_options = record { blob_threshold = pos 0; sync_every_write = false; hint_every_n = pos 0 }

abbrev options_of : JsonOptions → Options
options_of jo = record {
  blob_threshold = jo.blob_threshold;
  sync_every_write = jo.sync_every_write;
  hint_every_n = jo.hint_every_n;
}

-- parseOptions, of the JSON text and of what json.Unmarshal makes of it.
unfoldable pub parse_options :
    (Bytes → Option Value) → (Bytes → Option JsonOptions) → Bytes → Made (Options × List IndexDef)
parse_options decode unmarshal [] = made (no_options, [])
parse_options decode unmarshal (c ∷ cs) = elim (unmarshal (c ∷ cs)) [
  | none ↦ refused bad_json
  | some jo ↦ made (options_of jo, map (index_def decode) jo.indexes)
]
