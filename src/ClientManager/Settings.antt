-- ===== src/ClientManager/Settings.antt =====
-- The configuration file that ap_config.cpp writes, as ap_client_manager.cpp reads it.
use apf_ue4ss.Prelude.{Bool, true, some, ◌≡◌, refl}
use apf_ue4ss.Prelude.Dict.{lookup, string_eq}
use apf_ue4ss.Types.Json.{JsonOps, JsonLaws, value, value_text}
use apf_ue4ss.Configuration.{Doubles, FrameworkConfig, config_json}
use apf_ue4ss.ClientManager.{
  ClientManager, LoggingConfig, ClientFrameworkConfig, load_section, read_framework_config,
  load_framework_config,
}

module _ {J : Type 0} ⦃ops : JsonOps J⦄ (laws : JsonLaws ops) {D : Type 0}
    (doubles : Doubles J D) where
  section_json :
      (l : LoggingConfig) (c : FrameworkConfig D)
      → load_section l (config_json doubles c) ≡ (l, true)
  unfolding load_section config_json lookup
  section_json l c = rw (load_section, laws.member-object) refl

  read_config_json :
      (f : ClientFrameworkConfig) (c : FrameworkConfig D)
      → read_framework_config f (config_json doubles c) ≡ (
        record { game_name = c.game_name; version = "1.0.0"; logging = f.logging; loaded = true },
        true,
      )
  unfolding read_framework_config config_json lookup value_text
  read_config_json f c = simp (
    read_framework_config, value, laws.is_object-object, laws.member-object, laws.as_text-text,
    section_json,
  )

  -- Of the configuration that the framework saves the client reads the name of the game and no
  -- setting of the log: its level, file and console stay as they are, whatever the framework's are.
  pub load_framework_config-config_json :
      (m : ClientManager) (c : FrameworkConfig D) (opens : Bool)
      → ((load_framework_config m (some (some (config_json doubles c))) opens).1 ≡ true)
        × ((load_framework_config m (some (some (config_json doubles c))) opens).0.framework_config
            ≡ record {
              game_name = c.game_name;
              version = "1.0.0";
              logging = m.framework_config.logging;
              loaded = true;
            })
  unfolding load_framework_config
  load_framework_config-config_json m c opens =
      rw (read_config_json m.framework_config c) (refl, refl)
