-- ===== src/Configuration/Laws.antt =====
-- What ap_config.cpp reads back, and what a bad file does.
use apf_ue4ss.Prelude.{String, true, Option, none, some, List, if◌then◌else◌, ◌≡◌, refl}
use apf_ue4ss.Prelude.Dict.{lookup, string_eq}
use apf_ue4ss.Types.{TimeoutConfig, ApServerConfig}
use apf_ue4ss.Types.Enums.{LogLevel, trace, debug, info, warn, error, fatal}
use apf_ue4ss.Types.Json.{JsonOps, JsonLaws}
use apf_ue4ss.Retry.{RetryConfig}
use apf_ue4ss.Configuration.{
  Doubles, ThreadingConfig, FrameworkConfig, level_of, level_name, field, section, timeouts_json,
  threading_json, server_json, retry_json, read_config, config_json,
}

level_of-level_name : (l current : LogLevel) → level_of (level_name l) current ≡ l
unfolding level_of level_name
level_of-level_name trace c = refl
level_of-level_name debug c = refl
level_of-level_name info c = refl
level_of-level_name warn c = refl
level_of-level_name error c = refl
level_of-level_name fatal c = refl

module _ {J : Type 0} ⦃ops : JsonOps J⦄ (laws : JsonLaws ops) where
  field-object :
      {A : Type 0} (read : J → Option A) (fields : List (String × J)) (key : String) (current : A)
      → field read (ops.object fields) key current
        ≡ (elim (lookup key fields) [ none ↦ some current | some v ↦ read v ])
  unfolding field
  field-object read fields key current = rw (field, laws.member-object fields key) refl

  section-object :
      {A : Type 0} (read : J → A → Option A) (fields : List (String × J)) (key : String)
      (current : A)
      → section read (ops.object fields) key current ≡ (elim (lookup key fields) [
        | none ↦ some current
        | some v ↦ if ops.is_object v then read v current else some current
      ])
  unfolding section
  section-object read fields key current = rw (section, laws.member-object fields key) refl

  is_object-timeouts : (c : TimeoutConfig) → ops.is_object (timeouts_json {J = J} c) ≡ true
  unfolding timeouts_json
  is_object-timeouts c = laws.is_object-object _

  is_object-threading : (c : ThreadingConfig) → ops.is_object (threading_json {J = J} c) ≡ true
  unfolding threading_json
  is_object-threading c = laws.is_object-object _

  is_object-server : (c : ApServerConfig) → ops.is_object (server_json {J = J} c) ≡ true
  unfolding server_json
  is_object-server c = laws.is_object-object _

-- A double survives the trip through a document.
pub record DoubleLaws {J D : Type 0} (doubles : Doubles J D) : Type 0 where
  pub as_number-number : (x : D) → doubles.as_number (doubles.number x) ≡ some x

module _ {J : Type 0} ⦃ops : JsonOps J⦄ (laws : JsonLaws ops) {D : Type 0} (doubles : Doubles J D)
    (double_laws : DoubleLaws doubles) where
  is_object-retry : (c : RetryConfig D) → ops.is_object (retry_json doubles c) ≡ true
  unfolding retry_json
  is_object-retry c = laws.is_object-object _

  -- What `save` writes, the `try` of `load` reads back: every field of any configuration.
  pub read_config-config_json :
      (c d : FrameworkConfig D) → read_config doubles (config_json doubles c) d ≡ some c
  unfolding read_config config_json lookup
  read_config-config_json c d = simp (
    read_config,
    field-object laws,
    section-object laws,
    laws.as_integer-integer,
    laws.as_text-text,
    laws.as_boolean-boolean,
    level_of-level_name,
    is_object-timeouts laws,
    is_object-threading laws,
    is_object-server laws,
    is_object-retry,
    double_laws.as_number-number,
  )
