-- ===== src/Tests/Bindings.antt =====
-- The first binding of an agent, requested, confirmed and promoted
-- (kiwi_catalog/services/binding_requests.py).
use kiwi_catalog.Prelude.{
  ◌<◌, ◌≡◌, refl, some, none, List, [], ◌∷◌, ◌&&◌, ◌=ₛ◌, true, All, arith, strip, suffix, decimal,
}
use kiwi_catalog.Prelude.Table.{find?, update, insert, delete, count, max_of}
use kiwi_catalog.Action.{done, Outcome, state_of, db_session}
use kiwi_catalog.StateDomains.{fold_verification_status}
use kiwi_catalog.Degradation.{highest_supported_level, evidence_kind_to_level}
use kiwi_catalog.AgentCatalog.{
  is_agent, require_catalog_agent, set_state_domains, with_domains, insert_verification,
}
use kiwi_catalog.AgentCatalog.Store.{Agent}
use kiwi_catalog.AgentCatalog.Writes.{latest_passed}
use kiwi_catalog.BindingRequests.{
  confirm_request, reject_request, write_binding, binding_name, settle_requests,
  complete_confirmation, fill_domain, canonical_domain_of, activate_linked_access_config, Confirmed,
  of_agent,
}
use kiwi_catalog.BindingRequests.Requests.{
  require_owned_agent, load_pending_request, expire_stale, is_request, pending_of,
}
use kiwi_catalog.BindingRequests.Confirmation.{confirm_request-binds}
use kiwi_catalog.BindingRequests.Endpoints.{
  active_binding, sync_cloud_endpoints, sync_endpoints, upsert_a2a_endpoint, cloud_card_url,
}
use kiwi_catalog.BindingRequests.Evidence.{record_active_binding_evidence, add_evidence}
use kiwi_catalog.BindingRequests.Once.{serve_all-decided}
use kiwi_catalog.BindingRequests.Promotion.{IsTop, confirm_request-promotes}
use kiwi_catalog.BindingRequests.Single.{IsSound}
use kiwi_catalog.BindingRequests.Steps.{Call, confirm, serve_all}
use kiwi_catalog.BindingRequests.Store.{Binding, Request, Db, Env}

abbrev pub env : Env
env = record {
  now = 1000;
  ttl = none;
  max = none;
  issuer_kid = "kid";
  base_url = "https://catalog.example";
  request_id = "breq_2";
  calls = 1;
  hostname = λ url. some "shop.example";
  custody = "";
  encrypt = λ s. none;
  decrypt = λ s k. none;
}

abbrev pub lamp_agent : Agent
lamp_agent = record {
  catalog_agent_id = "cagt_lamp";
  merchant_id = "mkt_1";
  canonical_domain = "";
  verification_status = "discovered";
  verification_level = "discovered";
  freshness_state = "stale";
  administrative_state = "active";
  display_name = "Lamps";
  handoff_destination_types = [];
  last_refresh_attempt_at = none;
  last_refresh_result = "";
  last_seen_at = none;
  last_verified_at = none;
  updated_at = 0;
}

abbrev request : Request
request = record {
  binding_request_id = "breq_1";
  catalog_agent_id = "cagt_lamp";
  merchant_id = "mkt_1";
  runtime_origin = "https://shop.example";
  a2a_endpoint = "https://shop.example/a2a";
  key_id = "k1";
  key_thumbprint = "t1";
  key_jwk_json = "jwk";
  generation = 1;
  service_epoch = 1;
  nonce = "nonce-0001";
  status = "pending";
  requested_at = 900;
  expires_at = 260100;
  decided_at = none;
  decided_note = "";
  access_config_version = 0;
}

abbrev pub old_binding : Binding
old_binding = record {
  binding_id = "bind_old_4";
  catalog_agent_id = "cagt_lamp";
  merchant_id = "mkt_1";
  runtime_origin = "https://old.example";
  a2a_endpoint = "https://old.example/a2a";
  key_id = "k0";
  key_thumbprint = "t0";
  key_jwk_json = "jwk0";
  binding_version = 4;
  service_epoch = 1;
  status = "active";
  expires_at = none;
  created_at = 10;
  updated_at = 10;
}

abbrev pub start : Db
start = record {
  agents = lamp_agent ∷ [];
  bindings = old_binding ∷ [];
  requests = request ∷ record request { binding_request_id = "breq_0" } ∷ [];
  nonces = [];
  endpoints = [];
  publications = [];
  verifications = [];
  configs = [];
  consents = [];
  faults = [];
  audits = [];
}

abbrev outcome : Outcome Db Confirmed
outcome = confirm_request env "mkt_1" "cagt_lamp" "breq_1" start

abbrev version_two : Binding
version_two = record old_binding {
  binding_id = "bind_agt_lamp_5";
  runtime_origin = "https://shop.example";
  a2a_endpoint = "https://shop.example/a2a";
  key_id = "k1";
  key_thumbprint = "t1";
  key_jwk_json = "jwk";
  binding_version = 5;
  created_at = 1000;
  updated_at = 1000;
}

abbrev confirmed : Confirmed
confirmed = record { binding = version_two; canonical_domain = "shop.example" }

confirmation : outcome ≡ done confirmed (state_of outcome)
unfolding confirm_request require_owned_agent load_pending_request expire_stale write_binding
    binding_name settle_requests complete_confirmation fill_domain canonical_domain_of
    activate_linked_access_config sync_cloud_endpoints sync_endpoints active_binding
    upsert_a2a_endpoint cloud_card_url record_active_binding_evidence add_evidence
    require_catalog_agent set_state_domains with_domains fold_verification_status
    insert_verification find? update insert delete max_of strip suffix decimal
confirmation = refl

pub old-IsSound : IsSound start.bindings
unfolding count
old-IsSound = record {
  one_active = λ a. ground arith;
  ids = (refl, tt);
  versions = λ a v. ground arith;
}

confirm_request-binds_example :
    (active_binding (strip "cagt_lamp") (state_of outcome).bindings ≡ some version_two)
    × All (λ b. of_agent (strip "cagt_lamp") b ≡ true → b.binding_version < 5) (old_binding ∷ [])
    × (count (pending_of (strip "cagt_lamp")) (state_of outcome).requests ≡ 0)
    × ((req : Request) × (find?
            (λ r. is_request (strip "breq_1") r && r.catalog_agent_id =ₛ strip "cagt_lamp")
            start.requests
          ≡ some req)
        × (req.status ≡ "pending")
        × (1000 < req.expires_at)
        × (version_two.runtime_origin ≡ req.runtime_origin)
        × (version_two.a2a_endpoint ≡ req.a2a_endpoint)
        × (version_two.key_jwk_json ≡ req.key_jwk_json))
confirm_request-binds_example =
    confirm_request-binds env "mkt_1" "cagt_lamp" "breq_1" start (state_of outcome) confirmed
      old-IsSound confirmation

confirm_request-promotes_example :
    ((g : Agent) × (find? (is_agent (strip "cagt_lamp")) (state_of outcome).agents ≡ some g)
      × IsTop 1000 g)
    × (highest_supported_level "commerce_verified" 5000
          (λ from to. true)
          (latest_passed (strip "cagt_lamp") (state_of outcome).verifications)
          evidence_kind_to_level
        ≡ "commerce_verified")
confirm_request-promotes_example =
    confirm_request-promotes env "mkt_1" "cagt_lamp" "breq_1" start (state_of outcome) confirmed
      old-IsSound tt confirmation 5000 (omega arith) (λ from to. true)

abbrev rejected : Request
rejected = record request { status = "rejected"; decided_at = some 950 }

abbrev decided_db : Db
decided_db = record start { requests = rejected ∷ [] }

breq_1_stripped : strip "breq_1" ≡ "breq_1"
unfolding strip
breq_1_stripped = refl

breq_1_found : find? (is_request "breq_1") decided_db.requests ≡ some rejected
unfolding find?
breq_1_found = refl

rejected_alone : (count (λ (r : Request). r.binding_request_id =ₛ "breq_1") [] ≡ 0) × Unit {0}
unfolding count
rejected_alone = (refl, tt)

abbrev again : List Call
again = confirm env "mkt_1" "cagt_lamp" "breq_1" ∷ []

serve_all-decided_example :
    (find? (is_request "breq_1") (serve_all again decided_db).requests ≡ some rejected)
    × (db_session (confirm_request env "mkt_1" "cagt_lamp" "breq_1") (serve_all again decided_db)
        ≡ serve_all again decided_db)
    × (db_session
          (reject_request env "mkt_1" "cagt_lamp" "breq_1" "no")
          (serve_all again decided_db)
        ≡ serve_all again decided_db)
serve_all-decided_example =
    serve_all-decided "breq_1" rejected decided_db rejected_alone breq_1_found refl breq_1_stripped
      again env "mkt_1" "cagt_lamp" "no"
