-- ===== src/Tests/Updates.antt =====
-- An update of a runtime's configuration whose challenge fails
-- (kiwi_catalog/api/handlers/cloud_binding.py).
use kiwi_catalog.Prelude.{◌≡◌, ◌⊎◌, refl, some, arith, strip}
use kiwi_catalog.Prelude.Table.{find?, update, insert, delete, count, max_of}
use kiwi_catalog.Result.{Error, ok, err}
use kiwi_catalog.RequestNonces.{utc, accept_request, consume_request_nonce, store_nonce}
use kiwi_catalog.RuntimeAccess.{custody_enabled, head_version, config_row, merchant_projection}
use kiwi_catalog.RuntimeAccess.Parse.{parse_access_config, parse_share, get, only, has_all}
use kiwi_catalog.RuntimeAccess.Changes.{stage_share, stage_runtime_access}
use kiwi_catalog.BindingRequests.Endpoints.{active_binding}
use kiwi_catalog.BindingRequests.Store.{Env as CoreEnv}
use kiwi_catalog.Enrollments.Devices.{check_exp}
use kiwi_catalog.BindingHandlers.Compensation.{Undone, update_runtime_access-Undone}
use kiwi_catalog.BindingHandlers.Updates.{
  Update, Course, authorize_update, open_update, end_update, update_runtime_access,
}
use kiwi_catalog.Tests.Access.{share_json, share_parsed}
use kiwi_catalog.Tests.Bindings.{env as core_env, start}

abbrev env : CoreEnv
env = record core_env { encrypt = λ s. some (record { ciphertext = "sealed"; key_id = "k1" }) }

abbrev course : Course
course = record {
  opening = env;
  ending = env;
  discarding = env;
  verdict = err Error.permission_denied;
  meanwhile = λ db. db;
  before_discard = λ db. db;
}

abbrev request : Update
request = record {
  agent_id = "cagt_lamp";
  binding_id = "bind_old_4";
  access = share_json;
  runtime = ok (record { key_id = "k0"; nonce = "nonce-0001"; issued_at = some (utc 990) });
  exp = some 1050;
}

failed : (update_runtime_access course request start).0 ≡ err Error.permission_denied
unfolding update_runtime_access end_update open_update authorize_update check_exp
    parse_access_config parse_share get only has_all active_binding accept_request
    consume_request_nonce store_nonce stage_runtime_access stage_share custody_enabled head_version
    config_row merchant_projection find? update insert delete count max_of strip
failed = refl

update_runtime_access-Undone_example :
    ((update_runtime_access course request start).1 ≡ start)
    ⊎ Undone course request 0 start (update_runtime_access course request start).1
unfolding count
update_runtime_access-Undone_example =
    update_runtime_access-Undone course request start 0 "s3cret" Error.permission_denied
      share_parsed (λ a v. omega arith) (λ x keyed. keyed) (λ x keyed. keyed) failed
