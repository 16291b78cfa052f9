-- ===== src/Enrollments.antt =====
-- kiwi_catalog/services/enrollments.py: a device asks to be enrolled, a merchant authorizes it with
-- the pairing code, and the device polls for its grant.
pub mod Devices
pub mod Store
pub mod Steps
pub mod Granted
pub mod Completed
use kiwi_catalog.Enrollments.Devices.{
  enrollment_scopes, pairing_required, check_exp, verified, consume_nonce, has_id,
}
use Prim.Native.String
use Prim.Native.String.{◌++◌}
use kiwi_catalog.Prelude.{
  ℕ, ◌+◌, String, Bool, true, false, not, ◌&&◌, ◌||◌, Option, none, some, [], ◌∷◌, ◌==◌, ◌=ₛ◌, ltb,
  leb, one_of, truthy, if◌then◌else◌, strip, ascii_upper, equal_upper, is_ascii,
}
use kiwi_catalog.Prelude.Table.{find?, update, insert, count, max_of}
use kiwi_catalog.Result.{Error, Result}
use kiwi_catalog.Action.{Action, ◌>>=◌, ◌>>◌, pure, raise, gets, modify, raise_if, from_option}
use kiwi_catalog.AgentCatalog.{is_agent}
use kiwi_catalog.AgentCatalog.Store.{Agent}
use kiwi_catalog.BindingRequests.{of_agent}
use kiwi_catalog.BindingRequests.Store.{Binding}
use Store.{Enrollment, Db, Env, Proof}

-- `grant_expires_at <= now`, where the empty text is below every time
abbrev pub grant_over : ℕ → Enrollment → Bool
grant_over now r = elim r.grant_expires_at [ none ↦ true | some t ↦ leb t now ]

abbrev pub is_ready : Enrollment → Bool
is_ready r = r.status =ₛ "ready_for_authorization"

abbrev pub is_authorized : Enrollment → Bool
is_authorized r = r.status =ₛ "authorized"

abbrev pub is_expired : ℕ → Enrollment → Bool
is_expired now r = (is_ready r && leb r.expires_at now) || (is_authorized r && grant_over now r)

abbrev pub expire : String → Db → Db
expire id db = record db {
  enrollments = update (has_id id) (λ r. record r { status = "expired" }) db.enrollments;
}

-- The status that is shown; the other fields of the answer are columns of the row.
unfoldable pub public_enrollment : Env → String → Action Db String
public_enrollment e id = do
  found ← gets (λ (db : Db). find? (has_id id) db.enrollments)
  row ← from_option Error.not_found found
  if is_expired e.now row then (do modify (expire id); pure "expired") else pure row.status

-- The pairing code, stripped, and upper-cased where `equal_upper` does not do it: it is malformed, missing although it is required, or wrong.
unfoldable pub check_pairing : Env → String → String → Action Db Unit
check_pairing e expected presented = do
  raise_if (ltb 64 (String.count presented)) Error.validation
  raise_if (presented =ₛ "" && pairing_required e) Error.conflict
  raise_if (not (presented =ₛ "") && not (is_ascii presented)) Error.type_error
  raise_if (not (presented =ₛ "") && not (equal_upper presented expected)) Error.conflict

abbrev pub eligible : String → Option Agent → Bool
eligible merchant_id none = false
eligible merchant_id (some g) = g.merchant_id =ₛ merchant_id && g.administrative_state =ₛ "active"

abbrev pub authorized : Env → String → String → ℕ → Enrollment → Enrollment
authorized e merchant_id agent_id version r = record r {
  status = "authorized";
  merchant_id = merchant_id;
  catalog_agent_id = agent_id;
  grant_hash = e.hash (e.stable_grant r.enrollment_id r.device_code_hash);
  scopes = enrollment_scopes;
  approved_card_digest = e.card_digest r.public_preview_json;
  authorized_at = some e.now;
  grant_expires_at = some (e.now + 600);
  expected_binding_version = version;
}

abbrev pub record_authorization : String → String → ℕ → Db → Db
record_authorization a merchant_id now db = record db {
  audits =
      insert
        (record {
          catalog_agent_id = a;
          actor = "merchant:" ++ merchant_id;
          event = "runtime_enrollment_authorized";
          created_at = now;
        })
        db.audits;
}

abbrev pub ready_row : String → Enrollment → Bool
ready_row id r = has_id id r && is_ready r

-- The authorization once the pairing code has passed.
unfoldable pub authorize_paired : Env → Enrollment → String → String → Action Db Unit
authorize_paired e row merchant_id agent_id =
    if is_authorized row && not (grant_over e.now row) && row.merchant_id =ₛ merchant_id
    then pure tt
    else (do
      raise_if (not (is_ready row) || leb row.expires_at e.now) Error.conflict
      agent ← gets (λ (db : Db). find? (is_agent agent_id) db.agents)
      raise_if (not (eligible merchant_id agent)) Error.conflict
      version ←
          gets (λ (db : Db). max_of (of_agent agent_id) (λ b. b.binding_version) db.bindings + 1)
      changed ← gets (λ (db : Db). count (ready_row row.enrollment_id) db.enrollments)
      modify (λ (db : Db). record db {
        enrollments =
            update (ready_row row.enrollment_id) (authorized e merchant_id agent_id version)
              db.enrollments;
      })
      raise_if (not (changed == 1)) Error.conflict
      modify (record_authorization agent_id merchant_id e.now))

-- The answer names the enrollment and the agent that it was called with.
unfoldable pub authorize : Env → Enrollment → String → String → String → Action Db Unit
authorize e row merchant_id user_code agent_id = do
  check_pairing e row.user_code (ascii_upper (strip user_code))
  authorize_paired e row merchant_id agent_id

abbrev pub of_merchant : String → Binding → Bool
of_merchant m b = b.merchant_id =ₛ m && b.status =ₛ "active"

-- A binding that is active has another key than the enrollment.
abbrev pub takes_over : String → Option Binding → Bool
takes_over key_id none = false
takes_over key_id (some b) = not (b.key_id =ₛ key_id)

-- Another key may not take the place of a merchant's active binding.
unfoldable pub refuse_binding_takeover : String → Enrollment → Action Db Unit
refuse_binding_takeover merchant_id row =
    if truthy merchant_id
    then (do
      active ← gets (λ (db : Db). find? (of_merchant merchant_id) db.bindings)
      raise_if (takes_over row.key_id active) Error.conflict)
    else pure tt

-- The transaction of the portal's handler (kiwi_catalog/api/handlers/accounts.py) around it: the
-- row, its availability, and the binding that it may not take over. `agent_id` is that of the
-- merchant's own agent, which `ensure_my_catalog_agent` finds.
unfoldable pub authorize_enrollment : Env → String → String → String → String → Action Db Unit
authorize_enrollment e id merchant_id user_code agent_id = do
  found ← gets (λ (db : Db). find? (has_id id) db.enrollments)
  row ← from_option Error.not_found found
  raise_if
      (not (is_ready row || is_authorized row)
        || is_expired e.now row
        || (truthy row.merchant_id && not (row.merchant_id =ₛ merchant_id)))
      Error.conflict
  refuse_binding_takeover merchant_id row
  authorize e row merchant_id user_code agent_id

pub data Polled : Type 0 where
  pending : Polled
  granted : String → Enrollment → Polled

abbrev pub of_device : String → Enrollment → Bool
of_device digest r = r.device_code_hash =ₛ digest

-- What the suspension of an agent does to its enrollments, like the pause and the withdrawal of its
-- card (kiwi_catalog/services/agent_verification.py, kiwi_catalog/services/account_agents.py).
unfoldable pub cancel_enrollments : String → Db → Db
cancel_enrollments a db = record db {
  enrollments =
      update
        (λ r.
          r.catalog_agent_id =ₛ a
          && one_of ("ready_for_authorization" ∷ "authorized" ∷ "bound" ∷ "published" ∷ [])
              r.status)
        (λ r. record r { status = "canceled"; authorization_epoch = r.authorization_epoch + 1 })
        db.enrollments;
}

-- A poll with a device code, and what `verify_binding_possession` gives for its signature.
unfoldable pub poll : Env → String → Result Proof → Action Db Polled
poll e device_code possession = do
  found ← gets (λ (db : Db). find? (of_device (e.hash device_code)) db.enrollments)
  row ← from_option Error.not_found found
  if is_expired e.now row then (do modify (expire row.enrollment_id); raise Error.conflict) else (do
    signed ← verified possession
    check_exp e.now signed
    consume_nonce e row.key_id signed
    if is_ready row then pure Polled.pending else (do
      raise_if (not (is_authorized row)) Error.conflict
      let grant = e.stable_grant row.enrollment_id row.device_code_hash
      raise_if (not (e.hash grant =ₛ row.grant_hash)) Error.conflict
      pure (Polled.granted grant row)))
