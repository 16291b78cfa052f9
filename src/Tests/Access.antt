-- ===== src/Tests/Access.antt =====
-- Staging, activating and revoking one share code (kiwi_catalog/services/runtime_access.py).
use kiwi_catalog.Prelude.{◌≡◌, refl, true, not, ◌&&◌, none, some, [], ◌∷◌, pos, ◌=ₛ◌, arith, strip}
use kiwi_catalog.Prelude.Table.{find?, update, insert, count, max_of}
use kiwi_catalog.Result.{Error, ok}
use kiwi_catalog.Action.{done, raised}
use kiwi_catalog.RuntimeAccess.Store.{Config, Consent, Access, Env}
use kiwi_catalog.RuntimeAccess.Parse.{
  Json, Fields, AccessConfig, parse_access_config, parse_share, get, only, has_all,
  consent_terms_version,
}
use kiwi_catalog.RuntimeAccess.{
  custody_enabled, with_status, of_agent, head_version, config_row, active_runtime_access,
  merchant_projection,
}
use kiwi_catalog.RuntimeAccess.Changes.{
  stage_share, stage_runtime_access, activate_runtime_access, record_consent, revoke_version,
  revoke_consent, revoke_runtime_access, active_consent,
}
use kiwi_catalog.RuntimeAccess.Versions.{IsSound, Write, perform_all, perform_all-IsSound}
use kiwi_catalog.RuntimeAccess.Effects.{
  stage_runtime_access-once, activate_runtime_access-active, revoke_runtime_access-ends,
}

abbrev env : Env
env = record {
  now = 1000;
  custody = "";
  encrypt = λ s. some (record { ciphertext = "sealed"; key_id = "k1" });
  decrypt = λ s k. none;
}

abbrev pub share_json : Json
share_json = Json.object (
    Fields.field "provider" (Json.text "workbuddy") (
      Fields.field "access_mode" (Json.text "share_parameter") (
        Fields.field "parameter_name" (Json.text "sharecode") (
          Fields.field "secret_value" (Json.text "s3cret") (
            Fields.field "adapter_version" (Json.text "workbuddy-share-v1") (
              Fields.field "auth_mode" (Json.text "signature") (
                Fields.field "expected_version" (Json.int (pos 0)) (
                  Fields.field "consent"
                    (Json.object (
                      Fields.field "terms_version" (Json.text consent_terms_version)
                        (Fields.field "granted" (Json.bool true) Fields.no_fields)))
                    Fields.no_fields))))))))

abbrev revoke_json : Json
revoke_json = Json.object (
    Fields.field "access_mode" (Json.text "none")
      (Fields.field "expected_version" (Json.int (pos 1)) Fields.no_fields))

pub share_parsed : parse_access_config share_json ≡ ok (AccessConfig.share 0 "s3cret")
unfolding parse_access_config parse_share get only has_all
share_parsed = refl

abbrev start : Access
start = record {
  configs = [];
  consents = [];
  faults = [];
  agents = record { catalog_agent_id = "a"; merchant_id = "m" } ∷ [];
}

abbrev pending_row : Config
pending_row = record {
  catalog_agent_id = "a";
  config_version = 1;
  provider = "workbuddy";
  access_mode = "share_parameter";
  parameter_name = "sharecode";
  secret_ciphertext = "sealed";
  key_id = "k1";
  adapter_version = "workbuddy-share-v1";
  auth_mode = "signature";
  status = "pending";
  revoked_reason = "";
  validated_at = none;
  created_at = 1000;
  updated_at = 1000;
}

abbrev staged : Access
staged = record start { configs = pending_row ∷ [] }

abbrev active_row : Config
active_row = record pending_row { status = "active"; validated_at = some 1000 }

abbrev consent_row : Consent
consent_row = record {
  catalog_agent_id = "a";
  merchant_id = "m";
  scope = "directory_custody";
  terms_version = consent_terms_version;
  granted_at = 1000;
  revoked_at = none;
}

abbrev live : Access
live = record staged { configs = active_row ∷ []; consents = consent_row ∷ [] }

abbrev revoked_row : Config
revoked_row = record active_row {
  status = "revoked";
  revoked_reason = "merchant_revoked";
  secret_ciphertext = "";
}

abbrev ended : Access
ended = record live {
  configs = revoked_row ∷ [];
  consents = record consent_row { revoked_at = some 1000 } ∷ [];
}

staging :
    stage_runtime_access env "a" share_json start ≡ done (merchant_projection pending_row) staged
unfolding stage_runtime_access custody_enabled parse_access_config parse_share get only has_all
    stage_share head_version config_row find? update insert max_of
staging = refl

activation : activate_runtime_access env "a" 1 staged ≡ done (merchant_projection active_row) live
unfolding activate_runtime_access custody_enabled head_version config_row record_consent find?
    update insert max_of count strip
activation = refl

revocation :
    revoke_runtime_access env "a" revoke_json live ≡ done (merchant_projection revoked_row) ended
unfolding revoke_runtime_access parse_access_config get only has_all revoke_version head_version
    active_runtime_access config_row revoke_consent find? update max_of
revocation = refl

stage_runtime_access-once_example :
    stage_runtime_access env "a" share_json staged ≡ raised Error.conflict staged
stage_runtime_access-once_example =
    stage_runtime_access-once env "a" start (merchant_projection pending_row) staged share_json
      staging env share_json 0 "s3cret" "s3cret" share_parsed share_parsed

activate_runtime_access-active_example :
    (head_version "a" staged ≡ 1)
    × (row : Config) × (active_runtime_access "a" live ≡ some row)
    × (row.config_version ≡ 1)
    × (row.status ≡ "active")
    × (row.validated_at ≡ some 1000)
activate_runtime_access-active_example =
    activate_runtime_access-active env "a" staged (merchant_projection active_row) live 1 activation

revoke_runtime_access-ends_example :
    (active_runtime_access "a" ended ≡ none)
    × (count (with_status "a" "pending") ended.configs ≡ 0)
    × (count (λ c. of_agent "a" c && not (c.secret_ciphertext =ₛ "")) ended.configs ≡ 0)
    × (active_consent "a" ended ≡ none)
revoke_runtime_access-ends_example =
    revoke_runtime_access-ends env "a" live (merchant_projection revoked_row) ended revoke_json
      revocation

no_rows-IsSound : IsSound []
unfolding count
no_rows-IsSound b = (omega arith, omega arith)

perform_all-IsSound_example :
    IsSound
      (perform_all
        ((env, Write.stage "a" share_json)
          ∷ (env, Write.activate "a" 1)
          ∷ (env, Write.stage "a" share_json)
          ∷ (env, Write.revoke "a" revoke_json)
          ∷ [])
        start).configs
perform_all-IsSound_example =
    perform_all-IsSound
      ((env, Write.stage "a" share_json)
        ∷ (env, Write.activate "a" 1)
        ∷ (env, Write.stage "a" share_json)
        ∷ (env, Write.revoke "a" revoke_json)
        ∷ [])
      start no_rows-IsSound
