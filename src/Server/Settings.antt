-- ===== src/Server/Settings.antt =====
-- nteedb-server/schema.go, and the defaults of NewServer in nteedb-server/server.go: the settings of
-- the server and of the store that it opens.
use ntee_db.Base.{
  ℕ, suc, ◌*◌, ◌^◌, Bool, true, false, not, ◌&&◌, Option, none, some, List, [], ◌∷◌, if◌then◌else◌,
}
use ntee_db.Base.Int.{ℤ, pos, negsuc, sub_ℕ, ltb_ℤ, leb_ℤ, wrap64}
use ntee_db.Bytes.{Bytes, bytes_eq}
use ntee_db.Record.{AnyValue, text, number}
use ntee_db.SecIndex.{ValueKind, kind_string, kind_number, IndexDef}
use ntee_db.Db.{Options}
use ntee_db.Server.Text.{codes, split}

-- What the policy does with a float64: its order against 0, its default, and
-- `float64(part) >= ratio * float64(whole)`.
pub record Floats : Type 1 where
  pub Float : Type 0
  pub half : Float
  pub le_zero : Float → Bool
  pub reaches : ℤ → Float → ℤ → Bool

-- A value that encoding/json decodes into an `any`.
mutual
  pub data Value : Type 0 where
    string : Bytes → Value
    float : ℤ → Value
    object : Members → Value
    -- A Boolean, null or an array.
    plain : Value

  pub data Members : Type 0 where
    end : Members
    member : Bytes → Value → Members → Members

-- `m[seg]`, where the names of an object differ
unfoldable pub find_member : Bytes → Members → Option Value
find_member seg end = none
find_member seg (member name v rest) = if bytes_eq name seg then some v else find_member seg rest

unfoldable pub walk : List Bytes → Value → Option Value
unfolding find_member
walk [] v = some v
walk (seg ∷ segs) (object ms) = elim (find_member seg ms) [ none ↦ none | some v ↦ walk segs v ]
walk (seg ∷ segs) _ = none

abbrev of_kind : ValueKind → Option Value → Option AnyValue
of_kind kind_string (some (string s)) = some (text s)
of_kind kind_number (some (float f)) = some (number f)
of_kind _ _ = none

-- The Extract function of a path; `decode` is json.Unmarshal into an `any`.
unfoldable pub json_path_extract :
    (Bytes → Option Value) → Bytes → ValueKind → Bytes → Bytes → Option AnyValue
unfolding walk split
json_path_extract decode path kind key value = elim (decode value) [
  | none ↦ none
  | some v ↦ of_kind kind (walk (split b'.' [] path) v)
]

pub record SchemaIndex : Type 0 where
  pub name : Bytes
  pub kind : Bytes
  pub json_path : Bytes
  pub max_per_value : ℤ

unfoldable pub parse_kind : Bytes → Option ValueKind
parse_kind kind =
    if bytes_eq kind (codes "string")
    then some kind_string
    else if bytes_eq kind (codes "number")
    then some kind_number
    else none

-- The loop of LoadSchema: every index has a name and a kind.
unfoldable pub is_valid_schema : List SchemaIndex → Bool
unfolding parse_kind
is_valid_schema [] = true
is_valid_schema (ix ∷ rest) =
    not (bytes_eq ix.name [])
    && (elim (parse_kind ix.kind) [ none ↦ false | some _ ↦ true ])
    && is_valid_schema rest

abbrev index_def : (Bytes → Option Value) → SchemaIndex → ValueKind → IndexDef
index_def decode ix kind = record {
  name = ix.name;
  kind = kind;
  extract =
      if bytes_eq ix.json_path [] then none else some (json_path_extract decode ix.json_path kind);
  max_per_value = ix.max_per_value;
}

-- The loop of `Options`.
unfoldable pub index_defs : (Bytes → Option Value) → List SchemaIndex → Option (List IndexDef)
unfolding parse_kind
index_defs decode [] = some []
index_defs decode (ix ∷ rest) = elim (parse_kind ix.kind) [
  | none ↦ none
  | some kind ↦ elim (index_defs decode rest) [
    | none ↦ none
    | some defs ↦ some (index_def decode ix kind ∷ defs)
  ]
]

-- The schema file; its directory is no part of the state of a store.
pub record Schema : Type 0 where
  pub blob_threshold : ℤ
  pub sync_every_write : Bool
  pub hint_every_n : ℤ
  pub indexes : List SchemaIndex

-- Options
unfoldable pub store_options : (Bytes → Option Value) → Schema → Option (Options × List IndexDef)
unfolding index_defs
store_options decode s = elim (index_defs decode s.indexes) [
  | none ↦ none
  | some defs ↦ some (
    record {
      blob_threshold = s.blob_threshold;
      sync_every_write = s.sync_every_write;
      hint_every_n = s.hint_every_n;
    },
    defs,
  )
]

-- Kinds: the last declaration of a name decides, and a name without one has the zero kind.
abbrev kind_or_zero : Option ValueKind → ValueKind
kind_or_zero none = kind_string
kind_or_zero (some kind) = kind

unfoldable pub kind_from : ValueKind → List SchemaIndex → Bytes → ValueKind
unfolding parse_kind
kind_from kind [] name = kind
kind_from kind (ix ∷ rest) name =
    kind_from (if bytes_eq ix.name name then kind_or_zero (parse_kind ix.kind) else kind) rest name

-- `s.kinds[name]`
unfoldable pub kind_of : List SchemaIndex → Bytes → ValueKind
unfolding kind_from
kind_of ixs name = kind_from kind_string ixs name

-- time.Duration(n) * unit, in nanoseconds: the product wraps.
abbrev pub times : ℤ → ℕ → ℤ
times (pos n) unit = wrap64 (pos (n * unit))
times (negsuc n) unit = wrap64 (sub_ℕ 0 (suc n * unit))

module _ (floats : Floats) where
  open floats use {Float, half, le_zero}

  -- What the server reads of its configuration: the limits of a frame, and the policy.
  pub record Config : Type 0 where
    pub max_line : ℤ
    pub max_value : ℤ
    pub auto_compact : Bool
    pub compact_interval : ℤ
    pub main_ratio : Float
    pub main_min_bytes : ℤ
    pub blobs_relieve : Bool
    pub blob_ratio : Float
    pub blob_min_relieve_data_size : ℤ

  pub record AutoCompactConfig : Type 0 where
    pub enabled : Bool
    pub interval_seconds : Option ℤ
    pub main_ratio : Option Float
    pub main_min_bytes : Option ℤ
    pub blobs_relieve : Option Bool
    pub blob_ratio : Option Float
    pub blob_min_relieve_data_size : Option ℤ

  -- The value of "autoCompact": a Boolean, or an object whose "enabled" may be missing.
  pub data AutoCompact : Type 0 where
    switch : Bool → AutoCompact
    options : Option Bool → AutoCompactConfig → AutoCompact

  -- The zero AutoCompactConfig.
  abbrev unset : AutoCompactConfig
  unset = record {
    enabled = false;
    interval_seconds = none;
    main_ratio = none;
    main_min_bytes = none;
    blobs_relieve = none;
    blob_ratio = none;
    blob_min_relieve_data_size = none;
  }

  abbrev or_true : Option Bool → Bool
  or_true none = true
  or_true (some b) = b

  unfoldable pub unmarshal_auto_compact : AutoCompact → AutoCompactConfig
  unmarshal_auto_compact (switch b) = record unset { enabled = b }
  unmarshal_auto_compact (options enabled obj) = record obj { enabled = or_true enabled }

  -- A setting, or what stands in the configuration.
  abbrev pub set_or : {A : Type 0} → Option A → A → A
  set_or none old = old
  set_or (some a) old = a

  abbrev interval : Option ℤ → ℤ → ℤ
  interval none old = old
  interval (some n) old = if ltb_ℤ (pos 0) n then times n (10 ^ 9) else old

  abbrev relieves : Bool → Option Bool → Bool
  relieves enabled none = enabled
  relieves enabled (some b) = enabled && b

  unfoldable pub apply : AutoCompactConfig → Config → Config
  apply c cfg = record cfg {
    auto_compact = c.enabled;
    blobs_relieve = relieves c.enabled c.blobs_relieve;
    compact_interval = interval c.interval_seconds cfg.compact_interval;
    main_ratio = set_or c.main_ratio cfg.main_ratio;
    main_min_bytes = set_or c.main_min_bytes cfg.main_min_bytes;
    blob_ratio = set_or c.blob_ratio cfg.blob_ratio;
    blob_min_relieve_data_size = set_or c.blob_min_relieve_data_size cfg.blob_min_relieve_data_size;
  }

  abbrev pub default : ℤ → ℤ → ℤ
  default d v = if leb_ℤ v (pos 0) then d else v

  -- The defaults of NewServer.
  unfoldable pub with_defaults : Config → Config
  with_defaults cfg = record cfg {
    max_line = default (pos (2 ^ 20)) cfg.max_line;
    max_value = default (pos (32 * 2 ^ 20)) cfg.max_value;
    compact_interval = default (pos (30 * 10 ^ 9)) cfg.compact_interval;
    main_ratio = if le_zero cfg.main_ratio then half else cfg.main_ratio;
    main_min_bytes = default (pos (2 ^ 20)) cfg.main_min_bytes;
    blob_ratio = if le_zero cfg.blob_ratio then half else cfg.blob_ratio;
    blob_min_relieve_data_size = default (pos (64 * 2 ^ 20)) cfg.blob_min_relieve_data_size;
  }
