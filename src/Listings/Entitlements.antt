-- ===== src/Listings/Entitlements.antt =====
-- kiwi_catalog/services/listing_entitlements.py: plans, the merchants' entitlements, and the number
-- of active listings that they leave room for.
pub mod Admission
pub mod Changes
pub mod Terms
use kiwi_catalog.Prelude.{
  ℕ, ◌-◌, String, Bool, true, false, not, ◌&&◌, Option, none, some, [], ◌∷◌, ◌==◌, ◌=ₛ◌, leb,
  one_of, is_some, truthy, if◌then◌else◌, ℤ, pos, negsuc,
}
use kiwi_catalog.Prelude.Table.{find?, update, insert, count}
use kiwi_catalog.Result.{Error}
use kiwi_catalog.Action.{Action, Outcome, ◌>>=◌, ◌>>◌, pure, raise, gets, modify, raise_if}
use kiwi_catalog.Listings.Store.{Listing, Account, Plan, Entitlement, Db}

abbrev pub has_plan : String → Plan → Bool
has_plan plan_code p = p.plan_code =ₛ plan_code

abbrev pub of_merchant : String → Entitlement → Bool
of_merchant merchant_id e = e.merchant_id =ₛ merchant_id

-- `insert or ignore into listing_plans values ('free', 20, ?)`
unfoldable pub ensure_free_plan : ℕ → Db → Db
ensure_free_plan now db = if is_some (find? (has_plan "free") db.plans) then db else record db {
  plans = insert (record { plan_code = "free"; active_limit = 20; updated_at = now }) db.plans;
}

unfoldable pub ensure_free_entitlement : String → ℕ → Db → Db
ensure_free_entitlement merchant_id now db =
    let db' = ensure_free_plan now db in
    if is_some (find? (of_merchant merchant_id) db'.entitlements) then db' else record db' {
      entitlements =
          insert
            (record {
              merchant_id = merchant_id;
              plan_code = "free";
              status = "active";
              limit_override = none;
              updated_at = now;
            })
            db'.entitlements;
    }

pub record Capacity : Type 0 where
  pub plan_code : String
  pub status : String
  pub active_limit : ℕ
  pub active_used : ℕ
  pub active_remaining : ℕ

-- the clause of the `count(*)`
abbrev pub is_active_of : String → Listing → Bool
is_active_of merchant_id row = row.merchant_id =ₛ merchant_id && row.publication_state =ₛ "ACTIVE"

unfoldable pub active_used : String → Db → ℕ
active_used merchant_id db = count (is_active_of merchant_id) db.listings

-- the override, or the plan's limit where it is null
abbrev pub limit_of : Entitlement → Plan → ℕ
limit_of e p = elim e.limit_override [ none ↦ p.active_limit | some n ↦ n ]

unfoldable pub capacity_of : String → Db → Entitlement → Plan → Capacity
capacity_of merchant_id db e p = record {
  plan_code = e.plan_code;
  status = e.status;
  active_limit = limit_of e p;
  active_used = active_used merchant_id db;
  active_remaining = limit_of e p - active_used merchant_id db;
}

-- The join gives no row where the merchant has no entitlement or its plan is unknown.
unfoldable pub capacity : String → Action Db Capacity
capacity merchant_id db = elim (find? (of_merchant merchant_id) db.entitlements) [
  | none ↦ Outcome.raised Error.permission_denied db
  | some e ↦ elim (find? (has_plan e.plan_code) db.plans) [
    | none ↦ Outcome.raised Error.permission_denied db
    | some p ↦ Outcome.done (capacity_of merchant_id db e p) db
  ]
]

-- `account is None or account["status"] != "active" or account["email_verified"] != 1`, of the
-- account with the lowest id
abbrev account_ready : Option Account → Bool
account_ready none = false
account_ready (some a) = a.status =ₛ "active" && a.email_verified == 1

abbrev is_active_state : Option String → Bool
is_active_state none = false
is_active_state (some s) = s =ₛ "ACTIVE"

unfoldable pub require_publication_capacity : String → Option String → Action Db Unit
require_publication_capacity merchant_id existing_state = do
  account ← gets (λ (db : Db). find? (λ a. a.merchant_id =ₛ merchant_id) db.accounts)
  raise_if (not (account_ready account)) Error.permission_denied
  current ← capacity merchant_id
  raise_if (not (current.status =ₛ "active")) Error.permission_denied
  raise_if (not (is_active_state existing_state) && leb current.active_limit current.active_used)
      Error.permission_denied

unfoldable pub audit : String → String → String → ℕ → Db → Db
audit merchant_id actor action now db = record db {
  audits =
      insert
        (record { merchant_id = merchant_id; actor = actor; action = action; created_at = now })
        db.audits;
}

unfoldable pub set_plan_limit : String → ℤ → String → ℕ → Action Db Unit
set_plan_limit plan_code (negsuc n) actor now = raise Error.validation
set_plan_limit plan_code (pos active_limit) actor now = do
  raise_if (not (truthy plan_code)) Error.validation
  plan ← gets (λ (db : Db). find? (has_plan plan_code) db.plans)
  raise_if (not (is_some plan)) Error.not_found
  modify (λ (db : Db). record db {
    plans =
        update (has_plan plan_code)
          (λ p. record p { active_limit = active_limit; updated_at = now }) db.plans;
  })
  modify (audit "" actor "plan_limit_changed" now)

-- `update merchant_listing_entitlements set … where merchant_id = ?`
unfoldable pub set_entitlement : String → (Entitlement → Entitlement) → Db → Db
set_entitlement merchant_id f db = record db {
  entitlements = update (of_merchant merchant_id) f db.entitlements;
}

abbrev pub is_negative : Option ℤ → Bool
is_negative (some (negsuc n)) = true
is_negative (some (pos n)) = false
is_negative none = false

abbrev pub valid_status : Option String → Bool
valid_status none = true
valid_status (some s) = one_of ("active" ∷ "suspended" ∷ []) s

unfoldable pub set_plan : String → Option String → Action Db Unit
set_plan merchant_id none = pure tt
set_plan merchant_id (some plan_code) = do
  plan ← gets (λ (db : Db). find? (has_plan plan_code) db.plans)
  raise_if (not (is_some plan)) Error.not_found
  modify (set_entitlement merchant_id (λ e. record e { plan_code = plan_code }))

-- `clear_override` wins over a new override.
unfoldable pub set_override : Bool → Option ℤ → Entitlement → Entitlement
set_override true limit e = record e { limit_override = none }
set_override false (some (pos n)) e = record e { limit_override = some n }
set_override false (some (negsuc n)) e = e
set_override false none e = e

unfoldable pub set_status : Option String → Entitlement → Entitlement
set_status none e = e
set_status (some s) e = record e { status = s }

-- The checks and the writes of `set_merchant_entitlement`, up to the reading back.
unfoldable pub change_entitlement :
    String → Option String → Option ℤ → Option String → Bool → ℕ → Action Db Unit
unfolding set_plan set_override set_status
change_entitlement merchant_id plan_code limit_override status clear_override now = do
  raise_if (not (valid_status status)) Error.validation
  raise_if (is_negative limit_override) Error.validation
  known ← gets (λ (db : Db). one_of db.merchants merchant_id)
  raise_if (not known) Error.not_found
  modify (ensure_free_entitlement merchant_id now)
  set_plan merchant_id plan_code
  modify (set_entitlement merchant_id (set_override clear_override limit_override))
  modify (set_entitlement merchant_id (set_status status))
  modify (set_entitlement merchant_id (λ e. record e { updated_at = now }))

unfoldable pub set_merchant_entitlement :
    String → String → Option String → Option ℤ → Option String → Bool → ℕ → Action Db Capacity
set_merchant_entitlement merchant_id actor plan_code limit_override status clear_override now = do
  change_entitlement merchant_id plan_code limit_override status clear_override now
  result ← capacity merchant_id
  modify (audit merchant_id actor "merchant_entitlement_changed" now)
  pure result
