-- ===== src/Sync/Meta.antt =====
-- src/sync15/meta.ts: `meta/global`, the format version and the sync id of each engine.
use fire_sync.Prelude.{
  ℕ, String, Bool, false, not, Option, none, some, List, [], ◌==◌, eqb, if◌then◌else◌, any,
  or_default, is_some,
}
use fire_sync.Prelude.Dict
use fire_sync.Prelude.Dict.{Dict}
use fire_sync.Prelude.Result.{Result, ok, err}

pub record EngineMeta : Type 0 where
  pub version : ℕ
  pub sync_id : Option String

pub record MetaGlobal : Type 0 where
  pub storage_version : ℕ
  pub sync_id : String
  pub engines : Dict EngineMeta
  pub declined : Option (List String)

-- The value of JSON, by the fields that are read; a field of another type is none.
pub record RawMeta : Type 0 where
  pub storage_version : Option ℕ
  pub sync_id : Option String
  pub engines : Option (Dict EngineMeta)
  pub declined : Option (List String)

pub data MetaError : Type 0 where
  not_an_object no_storage_version : MetaError
  unsupported_storage_version : ℕ → MetaError

abbrev pub supported : RawMeta → Option ℕ → Result MetaError MetaGlobal
supported raw none = err no_storage_version
supported raw (some v) =
    if not (eqb v 5)
    then err (unsupported_storage_version v)
    else ok (record {
      storage_version = v;
      sync_id = or_default raw.sync_id "";
      engines = or_default raw.engines [];
      declined = some (or_default raw.declined []);
    })

-- `none` is a value that is no object.
unfoldable pub parse_meta_global : Option RawMeta → Result MetaError MetaGlobal
parse_meta_global none = err not_an_object
parse_meta_global (some raw) = supported raw raw.storage_version

-- `meta.engines[engine]?.syncID ?? null`
abbrev pub remote_sync_id : MetaGlobal → String → Option String
remote_sync_id meta engine = elim (Dict.get engine meta.engines) [
  | none ↦ none
  | some e ↦ e.sync_id
]

abbrev pub differs : Option String → Option String → Bool
differs (some remote) (some cached) = not (remote == cached)
differs _ _ = false

unfoldable pub engine_was_reset : MetaGlobal → String → Option String → Bool
engine_was_reset meta engine cached_sync_id = differs (remote_sync_id meta engine) cached_sync_id

abbrev pub declines : Option (List String) → String → Bool
declines none engine = false
declines (some declined) engine = any (λ d. d == engine) declined

unfoldable pub engine_is_enabled : MetaGlobal → String → Bool
engine_is_enabled meta engine =
    if declines meta.declined engine then false else is_some (Dict.get engine meta.engines)
