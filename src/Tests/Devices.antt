-- ===== src/Tests/Devices.antt =====
-- A device that is enrolled (kiwi_catalog/services/enrollments.py).
use Prim.Native.String
use kiwi_catalog.Prelude.{
  ◌≡◌, ◌≤◌, ◌=ₛ◌, refl, some, none, true, false, [], ◌∷◌, List, strip, ascii_upper, is_ascii,
  equal_upper, arith,
}
use kiwi_catalog.Prelude.Table.{find?, update, insert, count, max_of}
use kiwi_catalog.Result.{ok}
use kiwi_catalog.Action.{done, Outcome, state_of, db_session}
use kiwi_catalog.AgentCatalog.{is_agent}
use kiwi_catalog.AgentCatalog.Store.{Agent}
use kiwi_catalog.RequestNonces.{Nonce, utc, consume_request_nonce, store_nonce}
use kiwi_catalog.Enrollments.{
  refuse_binding_takeover, takes_over, of_merchant, authorize_enrollment, authorize,
  authorize_paired, check_pairing, poll, Polled, of_device, is_authorized, is_expired,
}
use kiwi_catalog.Enrollments.Devices.{pairing_required, check_exp, has_id}
use kiwi_catalog.Enrollments.Completed.{enrollment_completes}
use kiwi_catalog.Enrollments.Granted.{poll-Approved}
use kiwi_catalog.Enrollments.Granted.Trace.{Call, serve, serve_all, Approved}
use kiwi_catalog.Enrollments.Steps.{paired}
use kiwi_catalog.Enrollments.Store.{Enrollment, Db, Env, Proof}

abbrev env : Env
env = record {
  now = 1000;
  calls = 1;
  pairing_mode = "required";
  hash = λ s. s;
  stable_grant = λ id code. "grant";
  card_digest = λ s. s;
  enrollment_id = "enr_2";
  device_code = "d2";
  user_code = "0000AAAA";
}

abbrev waiting_row : Enrollment
waiting_row = record {
  enrollment_id = "enr_1";
  device_code_hash = "d1";
  user_code = "12AB34CD";
  status = "ready_for_authorization";
  key_id = "k1";
  key_thumbprint = "t1";
  key_jwk_json = "jwk";
  runtime_origin = "https://shop.example";
  a2a_endpoint = "https://shop.example/a2a";
  generation = 1;
  service_epoch = 1;
  public_preview_json = "card";
  public_profile_revision = "";
  approved_card_digest = "";
  merchant_id = "";
  catalog_agent_id = "";
  grant_hash = "";
  scopes = [];
  expected_binding_version = 1;
  authorization_epoch = 1;
  created_at = 900;
  expires_at = 1500;
  grant_expires_at = none;
  authorized_at = none;
  binding_id = "";
  consumed_at = none;
}

abbrev agent : Agent
agent = record {
  catalog_agent_id = "cagt_1";
  merchant_id = "mkt_1";
  canonical_domain = "";
  verification_status = "discovered";
  verification_level = "discovered";
  freshness_state = "fresh";
  administrative_state = "active";
  display_name = "Lamps";
  handoff_destination_types = [];
  last_refresh_attempt_at = none;
  last_refresh_result = "";
  last_seen_at = none;
  last_verified_at = none;
  updated_at = 0;
}

abbrev start : Db
start = record {
  enrollments = waiting_row ∷ [];
  agents = agent ∷ [];
  bindings = [];
  nonces = [];
  audits = [];
}

abbrev later : Env
later = record env { now = 1100 }

abbrev possession : Proof
possession = record {
  nonce = "nonce-0001";
  issued_at = some (utc 1090);
  exp = some 1150;
  body_digest = "";
}

alone : (count (λ (r : Enrollment). r.enrollment_id =ₛ "enr_1") [] ≡ 0) × Unit {0}
unfolding count
alone = (refl, tt)

waiting_found : find? (has_id "enr_1") start.enrollments ≡ some waiting_row
unfolding find?
waiting_found = refl

device_found : find? (of_device "d1") start.enrollments ≡ some waiting_row
unfolding find?
device_found = refl

agent_found : find? (is_agent "cagt_1") start.agents ≡ some agent
unfolding find?
agent_found = refl

code_plain : is_ascii (ascii_upper (strip " 12ab34cd ")) ≡ true
unfolding is_ascii strip ascii_upper
code_plain = refl

code_fits : paired env "12AB34CD" (ascii_upper (strip " 12ab34cd ")) ≡ true
unfolding paired pairing_required equal_upper strip ascii_upper
code_fits = refl

code_short : String.count (ascii_upper (strip " 12ab34cd ")) ≤ 64
unfolding strip ascii_upper
code_short = omega arith

abbrev kept_nonce : Nonce
kept_nonce = record {
  key_id = "k1";
  nonce = "nonce-0001";
  issued_at = utc 1090;
  expires_at = utc 1390;
  created_at = 1100;
}

nonce_accepted :
    consume_request_nonce 1100 1
      (record { key_id = "k1"; nonce = "nonce-0001"; issued_at = some (utc 1090) })
      []
    ≡ done tt (kept_nonce ∷ [])
unfolding consume_request_nonce store_nonce find? insert
nonce_accepted = refl

no_takeover : takes_over "k1" (find? (of_merchant "mkt_1") start.bindings) ≡ false
unfolding find?
no_takeover = refl

enrollment_completes_example :
    (t u : Db) × (final : Enrollment) × (authorize_enrollment env "enr_1" "mkt_1" " 12ab34cd "
        "cagt_1" start
      ≡ done tt t)
    × (poll later "d1" (ok possession) t ≡ done (Polled.granted "grant" final) u)
    × (final.merchant_id ≡ "mkt_1")
    × (final.catalog_agent_id ≡ "cagt_1")
    × (final.enrollment_id ≡ "enr_1")
enrollment_completes_example =
    enrollment_completes env later "enr_1" "mkt_1" " 12ab34cd " "cagt_1" "d1" waiting_row agent
      possession 1150 start (kept_nonce ∷ []) alone waiting_found device_found refl refl no_takeover
      (omega arith) agent_found refl code_short code_plain code_fits (omega arith) refl refl refl
      nonce_accepted

abbrev calls : List Call
calls = Call.authorize env "enr_1" "mkt_1" " 12ab34cd " "cagt_1" ∷ []

abbrev final_row : Enrollment
final_row = record waiting_row {
  status = "authorized";
  approved_card_digest = "card";
  merchant_id = "mkt_1";
  catalog_agent_id = "cagt_1";
  grant_hash = "grant";
  scopes = "runtime:bind" ∷ "card:publish" ∷ "heartbeat" ∷ [];
  grant_expires_at = some 1600;
  authorized_at = some 1000;
}

abbrev polled : Outcome Db Polled
polled = poll later "d1" (ok possession) (serve_all calls start)

polled_grant : polled ≡ done (Polled.granted "grant" final_row) (state_of polled)
unfolding serve_all serve authorize_enrollment refuse_binding_takeover authorize authorize_paired
    check_pairing check_exp pairing_required equal_upper is_ascii strip ascii_upper poll
    consume_request_nonce store_nonce find? insert update count max_of db_session
polled_grant = refl

poll-Approved_example :
    (is_authorized final_row ≡ true)
    × (is_expired 1100 final_row ≡ false)
    × Approved "enr_1" "12AB34CD" calls "mkt_1" "cagt_1"
poll-Approved_example =
    poll-Approved "enr_1" waiting_row start alone waiting_found refl calls later "d1" "grant"
      (ok possession) final_row (state_of polled) refl polled_grant
