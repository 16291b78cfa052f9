-- ===== src/Tests/Handlers.antt =====
-- Bindings that are made, rotated, revoked and exchanged for a grant
-- (kiwi_catalog/api/handlers/cloud_binding.py).
use kiwi_catalog.Prelude.{◌≡◌, refl, some, none, true, [], ◌∷◌, strip, suffix, decimal}
use kiwi_catalog.Prelude.Table.{find?, update, insert, delete, count, max_of}
use kiwi_catalog.Result.{Error, ok, err}
use kiwi_catalog.Action.{done, Outcome, state_of, db_session}
use kiwi_catalog.RequestNonces.{utc, consume_request_nonce, store_nonce}
use kiwi_catalog.AgentCatalog.{
  is_agent, require_catalog_agent, set_state_domains, with_domains, insert_verification,
}
use kiwi_catalog.AgentCatalog.Store.{Agent}
use kiwi_catalog.StateDomains.{fold_verification_status}
use kiwi_catalog.BindingRequests.{binding_name, canonical_domain_of, activate_linked_access_config}
use kiwi_catalog.BindingRequests.Evidence.{record_active_binding_evidence, add_evidence}
use kiwi_catalog.BindingRequests.Endpoints.{
  active_binding, is_binding, of_kind, sync_cloud_endpoints, sync_endpoints, upsert_a2a_endpoint,
  cloud_card_url,
}
use kiwi_catalog.BindingRequests.Single.{IsSound}
use kiwi_catalog.BindingRequests.Store.{Binding, Db as Core}
use kiwi_catalog.Enrollments.Devices.{has_id as is_enrollment}
use kiwi_catalog.Enrollments.Store.{Enrollment, Proof}
use kiwi_catalog.BindingHandlers.{
  place_binding, insert_active_binding, create_runtime_binding, revoke_runtime_binding,
  write_revocation, owned,
}
use kiwi_catalog.BindingHandlers.Commit.Checks.{IsOpen}
use kiwi_catalog.BindingHandlers.Exchange.{commit_binding-binds, commit_binding-once}
use kiwi_catalog.BindingHandlers.Grants.{
  bound, next_version, stage_or_skip, check_unchanged, finish_binding, place_grant, bind_enrollment,
  commit_binding,
}
use kiwi_catalog.BindingHandlers.Rebinding.{rebinding-refused}
use kiwi_catalog.BindingHandlers.Revocation.{revoke_runtime_binding-revokes}
use kiwi_catalog.BindingHandlers.Steps.{create, revoke, commit, serve_all, bindings-IsSound}
use kiwi_catalog.BindingHandlers.Store.{Db, Env, Offer, Auth, Bid, Answer}
use kiwi_catalog.Tests.Bindings.{env as core_env, start as core_start, old_binding, old-IsSound}

abbrev env : Env
env = record { core = core_env; hash = λ s. s }

abbrev offer : Offer
offer = record {
  binding_id = "";
  runtime_origin = "https://shop.example";
  a2a_endpoint = "https://shop.example/a2a";
  key_id = "k1";
  key_thumbprint = "t1";
  key_jwk_json = "jwk";
  generation = 1;
  service_epoch = 1;
  expires_at = none;
  management_valid = true;
}

abbrev enrollment : Enrollment
enrollment = record {
  enrollment_id = "enr_1";
  device_code_hash = "d1";
  user_code = "12AB34CD";
  status = "authorized";
  key_id = "k1";
  key_thumbprint = "t1";
  key_jwk_json = "jwk";
  runtime_origin = "https://shop.example";
  a2a_endpoint = "https://shop.example/a2a";
  generation = 1;
  service_epoch = 1;
  public_preview_json = "card";
  public_profile_revision = "";
  approved_card_digest = "";
  merchant_id = "mkt_1";
  catalog_agent_id = "cagt_lamp";
  grant_hash = "grant";
  scopes = "runtime:bind" ∷ [];
  expected_binding_version = 5;
  authorization_epoch = 1;
  created_at = 900;
  expires_at = 1500;
  grant_expires_at = some 1400;
  authorized_at = some 950;
  binding_id = "";
  consumed_at = none;
}

abbrev start : Db
start = record { core = core_start; enrollments = enrollment ∷ [] }

abbrev proof : Proof
proof = record {
  nonce = "nonce-0001";
  issued_at = some (utc 990);
  exp = some 1050;
  body_digest = "";
}

abbrev bid : Bid
bid = record {
  agent_id = "cagt_lamp";
  enrollment_id = "enr_1";
  grant = "grant";
  offer = offer;
  jwk = record { kty = "OKP"; members = []; text = "jwk"; thumbprint = "t1" };
  possession = ok proof;
  access = none;
}

abbrev answer : Answer
answer = record { proof = ok proof; expires_at = 1030 }

abbrev admin : Auth
admin = record {
  is_admin = true;
  possession = ok (record { nonce = some "nonce-0002"; issued_at = some (utc 990) });
  runtime = err Error.permission_denied;
}

abbrev outcome : Outcome Db Binding
outcome = commit_binding env bid "t1" answer start

abbrev version_five : Binding
version_five = record old_binding {
  binding_id = "bind_agt_lamp_5";
  runtime_origin = "https://shop.example";
  a2a_endpoint = "https://shop.example/a2a";
  key_id = "k1";
  key_thumbprint = "t1";
  key_jwk_json = "jwk";
  binding_version = 5;
  created_at = 1000;
  updated_at = 1000;
}

exchange : outcome ≡ done version_five (state_of outcome)
unfolding commit_binding check_unchanged bind_enrollment place_grant finish_binding stage_or_skip
    insert_active_binding place_binding binding_name canonical_domain_of
    activate_linked_access_config sync_cloud_endpoints sync_endpoints active_binding
    upsert_a2a_endpoint cloud_card_url record_active_binding_evidence add_evidence
    require_catalog_agent set_state_domains with_domains fold_verification_status
    insert_verification consume_request_nonce store_nonce find? update insert delete count max_of
    strip suffix decimal
exchange = refl

bindings-IsSound_example :
    IsSound
      (serve_all
        (commit env bid "t1" answer
          ∷ create env "cagt_lamp" offer admin none
          ∷ revoke env "cagt_lamp" "bind_agt_lamp_6" admin
          ∷ [])
        start).core.bindings
bindings-IsSound_example = bindings-IsSound _ start old-IsSound

commit_binding-binds_example :
    (row : Enrollment) × (g : Agent) × (find? (is_enrollment "enr_1") start.enrollments ≡ some row)
    × (find? (is_agent "cagt_lamp") start.core.agents ≡ some g)
    × IsOpen env bid answer row g
    × (next_version "cagt_lamp" start.core ≡ row.expected_binding_version)
    × (active_binding "cagt_lamp" (state_of outcome).core.bindings ≡ some version_five)
    × (find? (is_enrollment "enr_1") (state_of outcome).enrollments
        ≡ some (bound "bind_agt_lamp_5" 1000 row))
commit_binding-binds_example =
    commit_binding-binds env bid "t1" answer start (state_of outcome) version_five old-IsSound
      exchange

commit_binding-once_example :
    db_session (commit_binding env bid "t1" answer) (state_of outcome) ≡ state_of outcome
commit_binding-once_example =
    commit_binding-once env bid "t1" answer start (state_of outcome) version_five exchange env bid
      "t1" answer refl

abbrev revocation : Outcome Core Unit
revocation = revoke_runtime_binding core_env "cagt_lamp" "bind_old_4" admin core_start

revoking : revocation ≡ done tt (state_of revocation)
unfolding revoke_runtime_binding write_revocation find? strip
revoking = refl

revoke_runtime_binding-revokes_example :
    (row : Binding) × (find? (owned (strip "cagt_lamp") (strip "bind_old_4")) core_start.bindings
      ≡ some row)
    × ((r : Binding) × (find?
            (owned (strip "cagt_lamp") (strip "bind_old_4"))
            (state_of revocation).bindings
          ≡ some r)
        × (r.status ≡ "revoked"))
    × (row.status ≡ "active"
        → (active_binding (strip "cagt_lamp") (state_of revocation).bindings ≡ none)
          × (find? (of_kind (strip "cagt_lamp") "a2a") (state_of revocation).endpoints ≡ none))
revoke_runtime_binding-revokes_example =
    revoke_runtime_binding-revokes core_env "cagt_lamp" "bind_old_4" admin core_start
      (state_of revocation) old-IsSound revoking

abbrev first_revoked : Binding
first_revoked = record old_binding { binding_version = 1; status = "revoked" }

abbrev afterwards : Db
afterwards = record start { core = record core_start { bindings = first_revoked ∷ [] } }

stripped : "cagt_lamp" ≡ strip "cagt_lamp"
unfolding strip
stripped = refl

free : active_binding (strip "cagt_lamp") afterwards.core.bindings ≡ none
unfolding active_binding find? max_of strip
free = refl

taken : find? (is_binding (strip "cagt_lamp") 1) afterwards.core.bindings ≡ some first_revoked
unfolding find? strip
taken = refl

rebinding-refused_example :
    (db_session (commit_binding env bid "t1" answer) afterwards ≡ afterwards)
    × (db_session (create_runtime_binding core_env "cagt_lamp" offer admin none) afterwards.core
        ≡ afterwards.core)
rebinding-refused_example =
    rebinding-refused env "cagt_lamp" bid "t1" answer offer admin none afterwards first_revoked
      stripped refl free taken
