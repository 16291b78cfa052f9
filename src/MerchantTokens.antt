-- ===== src/MerchantTokens.antt =====
-- kiwi_catalog/services/merchant_tokens.py: the applications of merchants, and the tokens that are
-- issued, rotated and revoked. The token that is drawn, its digest and its encryption, and a new
-- merchant's id are given.
pub mod Validity
pub mod Accounts
pub mod Approval
use kiwi_catalog.Prelude.{
  ℕ, String, Bool, not, ◌&&◌, Option, none, some, List, ◌==◌, ◌=ₛ◌, is_some, or_else, if◌then◌else◌,
  strip,
}
use kiwi_catalog.Prelude.Table.{find?, update, insert, delete}
use kiwi_catalog.Result.{Error}
use kiwi_catalog.Action.{Action, Outcome, ◌>>=◌, ◌>>◌, pure, gets, modify, raise_if}

pub record Application : Type 0 where
  pub application_id : ℕ
  pub status : String
  pub agent_name : String
  pub contact_email : String
  pub phone : String
  pub account_id : ℕ
  pub merchant_id : String
  pub review_note : String
  pub reviewed_at : Option ℕ

-- the columns of `merchant_accounts` that are read or written
pub record Account : Type 0 where
  pub account_id : ℕ
  pub email : String
  pub merchant_id : String
  pub merchant_name : String
  pub phone : String
  pub updated_at : ℕ

pub record Merchant : Type 0 where
  pub id : String
  pub name : String
  pub created_at : ℕ
  pub updated_at : ℕ

pub record Token : Type 0 where
  pub merchant_id : String
  pub token_hash : String
  pub token_encrypted : String
  pub status : String
  pub issued_at : ℕ
  pub rotated_at : Option ℕ
  pub revoked_at : Option ℕ

-- `audit_events`, with the merchant or the application of its details
pub record Entry : Type 0 where
  pub event : String
  pub merchant_id : String
  pub created_at : ℕ

pub record Registry : Type 0 where
  pub applications : List Application
  pub accounts : List Account
  pub merchants : List Merchant
  pub tokens : List Token
  pub audits : List Entry

pub record Draw : Type 0 where
  pub now : ℕ
  pub token : String
  pub merchant_id : String
  pub digest : String → String
  pub encrypt : String → String

abbrev pub of_merchant : String → Token → Bool
of_merchant m t = t.merchant_id =ₛ m

abbrev pub audited : String → String → ℕ → Registry → Registry
audited event merchant_id now db = record db {
  audits = insert (record { event = event; merchant_id = merchant_id; created_at = now }) db.audits;
}

unfoldable pub require_token_row : String → Action Registry Token
require_token_row m db = elim (find? (of_merchant m) db.tokens) [
  | none ↦ Outcome.raised Error.not_found db
  | some t ↦ Outcome.done t db
]

abbrev pub rotated : Draw → Token → Token
rotated d t = record t {
  token_hash = d.digest d.token;
  token_encrypted = d.encrypt d.token;
  status = "active";
  rotated_at = some d.now;
}

-- Returns the new token.
unfoldable pub rotate_token : Draw → String → Action Registry String
rotate_token d m = do
  found ← require_token_row m
  modify (λ (db : Registry). record db { tokens = update (of_merchant m) (rotated d) db.tokens })
  modify (audited "merchant_token_rotated" m d.now)
  pure d.token

abbrev pub revoked : ℕ → Token → Token
revoked now t = record t { status = "revoked"; revoked_at = some now }

unfoldable pub revoke_token : ℕ → String → Action Registry String
revoke_token now m = do
  row ← require_token_row m
  if row.status =ₛ "revoked" then pure "revoked" else (do
    modify
        (λ (db : Registry). record db { tokens = update (of_merchant m) (revoked now) db.tokens })
    modify (audited "merchant_token_revoked" m now)
    pure "revoked")

abbrev pub presents : String → Token → Bool
presents hash t = t.status =ₛ "active" && t.token_hash =ₛ hash

unfoldable pub resolve_merchant_by_token : (String → String) → String → Registry → Option Token
resolve_merchant_by_token digest token db = find? (presents (digest token)) db.tokens

abbrev pub has_number : ℕ → Application → Bool
has_number n a = a.application_id == n

unfoldable pub application_of : ℕ → Action Registry Application
application_of n db = elim (find? (has_number n) db.applications) [
  | none ↦ Outcome.raised Error.not_found db
  | some a ↦ Outcome.done a db
]

unfoldable pub reject_application : ℕ → ℕ → String → Action Registry Unit
reject_application now n note = do
  row ← application_of n
  raise_if (not (row.status =ₛ "pending")) Error.conflict
  modify (λ (db : Registry). record db {
    applications =
        update (has_number n)
          (λ a. record a { status = "rejected"; review_note = note; reviewed_at = some now })
          db.applications;
  })
  modify (audited "merchant_application_rejected" "" now)

abbrev pub is_account : ℕ → Account → Bool
is_account n a = a.account_id == n

abbrev number_of : Option Account → ℕ
number_of none = 0
number_of (some a) = a.account_id

-- the application's account, or the one with its mail address; 0 where there is none
unfoldable pub linked_account : Application → Registry → ℕ
linked_account a db =
    if a.account_id == 0
    then number_of (find? (λ c. c.email =ₛ a.contact_email) db.accounts)
    else a.account_id

abbrev account_text : (Account → String) → ℕ → Registry → String
account_text f n db =
    if n == 0
    then ""
    else elim (find? (is_account n) db.accounts) [ none ↦ "" | some a ↦ strip (f a) ]

-- An account keeps its id; only the first approval takes a new one.
unfoldable pub merchant_for : Draw → ℕ → Registry → String
merchant_for d account db = or_else (account_text (λ a. a.merchant_id) account db) d.merchant_id

unfoldable pub display_name : Application → ℕ → Registry → String
display_name a account db = or_else (account_text (λ c. c.merchant_name) account db) a.agent_name

-- `insert or ignore into merchants`
unfoldable pub add_merchant : Draw → String → String → Registry → Registry
add_merchant d m name db = if is_some (find? (λ r. r.id =ₛ m) db.merchants) then db else record db {
  merchants =
      insert (record { id = m; name = name; created_at = d.now; updated_at = d.now }) db.merchants;
}

abbrev pub issued : Draw → String → Token
issued d m = record {
  merchant_id = m;
  token_hash = d.digest d.token;
  token_encrypted = d.encrypt d.token;
  status = "active";
  issued_at = d.now;
  rotated_at = none;
  revoked_at = none;
}

-- `insert or replace into merchant_tokens`
unfoldable pub replace_token : Draw → String → Registry → Registry
replace_token d m db = record db { tokens = insert (issued d m) (delete (of_merchant m) db.tokens) }

-- the account is filled in where there is one, its name and telephone where it has no name
unfoldable pub fill_account : Draw → Application → ℕ → String → Registry → Registry
fill_account d a account m db = if account == 0 then db else record db {
  accounts =
      update (λ c. is_account account c && c.merchant_name =ₛ "")
        (λ c. record c { merchant_name = a.agent_name; phone = a.phone })
        (update (is_account account) (λ c. record c { merchant_id = m; updated_at = d.now })
          db.accounts);
}

unfoldable pub approve_application : Draw → ℕ → Action Registry (String × String)
approve_application d n = do
  row ← application_of n
  raise_if (not (row.status =ₛ "pending")) Error.conflict
  account ← gets (linked_account row)
  m ← gets (merchant_for d account)
  name ← gets (display_name row account)
  modify (add_merchant d m name)
  modify (replace_token d m)
  modify (λ (db : Registry). record db {
    applications =
        update (has_number n)
          (λ a. record a { status = "approved"; merchant_id = m; reviewed_at = some d.now })
          db.applications;
  })
  modify (fill_account d row account m)
  modify (audited "merchant_token_issued" m d.now)
  pure (m, d.token)
