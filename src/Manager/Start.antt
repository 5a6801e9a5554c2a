-- ===== src/Manager/Start.antt =====
-- `init`: what the manifests that were discovered decide.
use apf_ue4ss.Prelude.{ℕ, String, false, Option, List, [], ◌∷◌, fold}
use apf_ue4ss.Types.Enums.{LifecycleState, validation, priority_registration, registration}
use apf_ue4ss.Prelude.{none}
use apf_ue4ss.Session.{new}
use apf_ue4ss.Types.Json.{JsonOps}
use apf_ue4ss.Registry.{DirEntry, discover_manifests, get_enabled_manifests}
use apf_ue4ss.Registry as reg
use apf_ue4ss.Capabilities.{Capabilities}
use apf_ue4ss.Capabilities as caps
use apf_ue4ss.Manager.{Manager, Config}

-- The registration phase that the framework starts in.
abbrev pub first_phase : List String → LifecycleState
first_phase [] = registration
first_phase (client ∷ clients) = priority_registration

module _ {J : Type 0} ⦃ops : JsonOps J⦄ where
  -- The capabilities of the enabled manifests.
  abbrev pub collected : Option (List (DirEntry J)) → Capabilities J
  collected folder =
      fold caps.add_manifest caps.empty
        (get_enabled_manifests (discover_manifests reg.empty folder).0)

  -- The manager when it has collected the capabilities.
  abbrev validated : Config → ℕ → Option (List (DirEntry J)) → Manager J
  validated config now folder = record {
    current_state = validation;
    state_entered_at = now;
    config = config;
    registry = (discover_manifests reg.empty folder).0;
    capabilities = collected folder;
    session = new;
    pending_scouts = [];
    state_loaded = false;
    reconnect_attempted = false;
    last_save = none;
  }
