-- ===== src/Examples/Configuration.antt =====
-- Configuration files and manifests at concrete inputs.
use apf_ue4ss.Prelude.{true, false, ◌≡◌, refl, some, [], ◌∷◌, filter}
use apf_ue4ss.Prelude.Int.{ℤ, pos}
use apf_ue4ss.Configuration.{Doubles, ApConfig, defaults, load, config_json}
use apf_ue4ss.Registry.Parse.{read_manifest, named_location, named_item}
use apf_ue4ss.Registry.Parse.Laws.{
  single, any_version, understood, manifest_json, read_manifest-manifest_json,
}
use apf_ue4ss.ClientManager.{ClientManager, load_framework_config}
use apf_ue4ss.ClientManager.Settings.{load_framework_config-config_json}
use apf_ue4ss.Prelude.Dict.{lookup}
use apf_ue4ss.Examples.Fixtures.{Doc, doc_ops, doc_laws, ruins}

-- Whole numbers as doubles.
abbrev whole : Doubles Doc ℤ
whole = record { two = pos 2; number = doc_ops.integer; as_number = doc_ops.as_integer }

abbrev fresh : ApConfig ℤ
fresh = record { config = defaults whole; loaded = false; loaded_path = "" }

-- A port that is no number, behind a game name that is read.
abbrev bad_port : Doc
bad_port = doc_ops.object (
    ("game_name", doc_ops.text "Ruins")
    ∷ ("ap_server", doc_ops.object (("port", doc_ops.text "38281") ∷ []))
    ∷ [])

-- The file is refused.
bad_port_test : (load whole fresh "config.json" (some (some bad_port))).1 ≡ false
unfolding load lookup
bad_port_test = refl

read_manifest-manifest_json_example :
    read_manifest (manifest_json ruins (single "other.mod" "<=0.1.0" ∷ any_version "bad.mod" ∷ []))
    ≡ some (record ruins {
      incompatible =
          record { id = "other.mod"; versions = [] }
          ∷ record { id = "bad.mod"; versions = [] }
          ∷ [];
      locations = filter named_location ruins.locations;
      items = filter named_item ruins.items;
    })
unfolding understood
read_manifest-manifest_json_example =
    read_manifest-manifest_json doc_laws ruins
      (single "other.mod" "<=0.1.0" ∷ any_version "bad.mod" ∷ [])

abbrev client_manager : ClientManager
client_manager = record {
  has_lua = true;
  mod_id = "";
  mod_version = "";
  has_mod_folder = true;
  framework_config = record {
    game_name = "";
    version = "";
    logging = record { level = "info"; file = "ap_framework.log"; console = true };
    loaded = false;
  };
  current_lifecycle_state = "UNINITIALIZED";
  has_ipc_client = false;
  has_action_executor = false;
  log_open = false;
  initialized = false;
}

load_framework_config-config_json_example :
    ((load_framework_config client_manager
        (some (some (config_json whole (defaults whole))))
        true).1
      ≡ true)
    × ((load_framework_config client_manager
          (some (some (config_json whole (defaults whole))))
          true).0.framework_config
        ≡ record {
          game_name = "";
          version = "1.0.0";
          logging = record { level = "info"; file = "ap_framework.log"; console = true };
          loaded = true;
        })
load_framework_config-config_json_example =
    load_framework_config-config_json doc_laws whole client_manager (defaults whole) true
