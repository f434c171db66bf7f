-- ===== src/Registry/Config.antt =====
-- internal/registry/config.go: the configuration of the registry's process, as the structure that
-- is written as JSON, and its password file. `bcrypt` is a parameter.
use rollhook.Prelude.{ℕ, Bool, true, Option, none, some, List, [], ◌∷◌, ◌++◌, if◌then◌else◌, ltb}
use rollhook.Text.{Bytes, codes}

abbrev pub zot_user : Bytes
zot_user = codes "rollhook"

abbrev pub default_keep_tags : ℕ
default_keep_tags = 5

abbrev pub zot_gc_delay : Bytes
zot_gc_delay = codes "2h"

abbrev pub zot_gc_interval : Bytes
zot_gc_interval = codes "6h"

-- `ZotPassword`
abbrev pub zot_password : Bytes → Bytes
zot_password secret = secret

pub record ZotKeepTags : Type 0 where
  pub patterns : List Bytes
  pub most_recently_pushed_count : ℕ

pub record ZotRetentionPolicy : Type 0 where
  pub repositories : List Bytes
  pub delete_untagged : Bool
  pub delete_referrers : Bool
  pub keep_tags : List ZotKeepTags

pub record ZotRetention : Type 0 where
  pub delay : Bytes
  pub policies : List ZotRetentionPolicy

pub record ZotStorage : Type 0 where
  pub root_directory : Bytes
  pub dedupe : Bool
  pub gc : Bool
  pub gc_delay : Bytes
  pub gc_interval : Bytes
  pub retention : Option ZotRetention

pub record ZotHttp : Type 0 where
  pub address : Bytes
  pub port : ℕ
  pub htpasswd_path : Bytes
  pub compat : List Bytes

pub record ZotConfig : Type 0 where
  pub dist_spec_version : Bytes
  pub http : ZotHttp
  pub storage : ZotStorage
  pub log_level : Bytes

abbrev pub retention_of : ℕ → ZotRetention
retention_of keep_tags = record {
  delay = zot_gc_delay;
  policies =
      record {
        repositories = codes "**" ∷ [];
        delete_untagged = true;
        delete_referrers = true;
        keep_tags =
            record { patterns = codes ".*" ∷ []; most_recently_pushed_count = keep_tags } ∷ [];
      }
      ∷ [];
}

-- `GenerateZotConfig`; the number of tags comes from `envInt`, which returns no negative one.
pub generate_zot_config : Bytes → Bytes → ℕ → ℕ → ZotConfig
generate_zot_config storage_root htpasswd_path port keep_tags = record {
  dist_spec_version = codes "1.1.1";
  http = record {
    address = codes "127.0.0.1";
    port = port;
    htpasswd_path = htpasswd_path;
    compat = codes "docker2s2" ∷ [];
  };
  storage = record {
    root_directory = storage_root;
    dedupe = true;
    gc = true;
    gc_delay = zot_gc_delay;
    gc_interval = zot_gc_interval;
    retention = if ltb 0 keep_tags then some (retention_of keep_tags) else none;
  };
  log_level = codes "info";
}

-- `GenerateHtpasswd`; `none` is the error of `bcrypt.GenerateFromPassword`.
unfoldable pub generate_htpasswd : (Bytes → Option Bytes) → Bytes → Option Bytes
generate_htpasswd bcrypt password = elim (bcrypt password) [
  | none ↦ none
  | some hash ↦ some (zot_user ++ codes ":" ++ hash ++ 10 ∷ [])
]
