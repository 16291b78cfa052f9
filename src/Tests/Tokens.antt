-- ===== src/Tests/Tokens.antt =====
-- The token of one merchant from its approval to its revocation
-- (kiwi_catalog/services/merchant_tokens.py).
use kiwi_catalog.Prelude.{String, eq_iff, arith, ◌⊎◌, ◌≡◌, ◌≢◌, refl, some, none, [], ◌∷◌, strip}
use kiwi_catalog.Prelude.Table.{find?, update, insert, delete, count}
use kiwi_catalog.Result.{Error}
use kiwi_catalog.Action.{done, raised}
use kiwi_catalog.MerchantTokens.{
  Application, Account, Token, has_number, Registry, Draw, issued, rotated, revoked,
  approve_application, application_of, linked_account, merchant_for, display_name, add_merchant,
  replace_token, fill_account, rotate_token, revoke_token, require_token_row,
  resolve_merchant_by_token,
}
use kiwi_catalog.MerchantTokens.Validity.{rotate_token-valid, revoke_token-dead}
use kiwi_catalog.MerchantTokens.Accounts.{IsIdFor}
use kiwi_catalog.MerchantTokens.Approval.{decided, approve_application-issued}

abbrev draw : Draw
draw = record {
  now = 1000;
  token = "t-1";
  merchant_id = "mkt_2";
  digest = λ s. s;
  encrypt = λ s. "sealed";
}

abbrev second_draw : Draw
second_draw = record draw { now = 2000; token = "t-2" }

abbrev lamp_shop : Application
lamp_shop = record {
  application_id = 1;
  status = "pending";
  agent_name = "Lamp shop";
  contact_email = "lamps@example.org";
  phone = "1";
  account_id = 7;
  merchant_id = "";
  review_note = "";
  reviewed_at = none;
}

-- an account that was approved before
abbrev lamp_account : Account
lamp_account = record {
  account_id = 7;
  email = "lamps@example.org";
  merchant_id = "mkt_1";
  merchant_name = "Lamps";
  phone = "1";
  updated_at = 500;
}

abbrev start : Registry
start = record {
  applications = lamp_shop ∷ [];
  accounts = lamp_account ∷ [];
  merchants = [];
  tokens = [];
  audits = [];
}

abbrev approved : Registry
approved = record {
  applications =
      record lamp_shop { status = "approved"; merchant_id = "mkt_1"; reviewed_at = some 1000 } ∷ [];
  accounts = record lamp_account { updated_at = 1000 } ∷ [];
  merchants = record { id = "mkt_1"; name = "Lamps"; created_at = 1000; updated_at = 1000 } ∷ [];
  tokens = issued draw "mkt_1" ∷ [];
  audits =
      record { event = "merchant_token_issued"; merchant_id = "mkt_1"; created_at = 1000 } ∷ [];
}

approval : approve_application draw 1 start ≡ done ("mkt_1", "t-1") approved
unfolding approve_application application_of linked_account merchant_for display_name add_merchant
    replace_token fill_account find? update insert delete strip
approval = refl

approve_application-issued_example :
    IsIdFor draw start lamp_shop "mkt_1" approved
    × (find? (has_number 1) approved.applications ≡ some (decided draw "mkt_1" lamp_shop))
    × (resolve_merchant_by_token draw.digest "t-1" approved ≡ some (issued draw "mkt_1"))
    × (approve_application second_draw 1 approved ≡ raised Error.conflict approved)
unfolding find? count
approve_application-issued_example =
    approve_application-issued draw 1 start lamp_shop "mkt_1" "t-1" approved refl approval refl
      second_draw

abbrev rotated_registry : Registry
rotated_registry = record approved {
  tokens = rotated second_draw (issued draw "mkt_1") ∷ [];
  audits =
      record { event = "merchant_token_issued"; merchant_id = "mkt_1"; created_at = 1000 }
      ∷ record { event = "merchant_token_rotated"; merchant_id = "mkt_1"; created_at = 2000 }
      ∷ [];
}

rotation : rotate_token second_draw "mkt_1" approved ≡ done "t-2" rotated_registry
unfolding rotate_token require_token_row find? update insert
rotation = refl

old_token : ◌≢◌ {A = String} "t-1" "t-2"
old_token h = absurd (ground (arith, eq_iff "t-1" "t-2", h))

rotate_token-valid_example :
    (r : Token) × (resolve_merchant_by_token second_draw.digest "t-2" rotated_registry ≡ some r)
    × (r.merchant_id ≡ "mkt_1")
    × ((resolve_merchant_by_token second_draw.digest "t-1" rotated_registry ≡ none)
        ⊎ ((x : Token) × (resolve_merchant_by_token second_draw.digest "t-1" rotated_registry
              ≡ some x)
            × (x.merchant_id ≢ "mkt_1")))
unfolding count
rotate_token-valid_example =
    rotate_token-valid "mkt_1" approved second_draw "t-2" rotated_registry rotation refl "t-1"
      old_token

abbrev other_token : Token
other_token = record (issued draw "mkt_9") { token_hash = "t-9" }

abbrev two_merchants : Registry
two_merchants = record approved { tokens = issued draw "mkt_1" ∷ other_token ∷ [] }

abbrev revoked_registry : Registry
revoked_registry = record approved {
  tokens = revoked 3000 (issued draw "mkt_1") ∷ other_token ∷ [];
  audits =
      record { event = "merchant_token_issued"; merchant_id = "mkt_1"; created_at = 1000 }
      ∷ record { event = "merchant_token_revoked"; merchant_id = "mkt_1"; created_at = 3000 }
      ∷ [];
}

revocation : revoke_token 3000 "mkt_1" two_merchants ≡ done "revoked" revoked_registry
unfolding revoke_token require_token_row find? update insert
revocation = refl

other_resolves : resolve_merchant_by_token (λ s. s) "t-9" revoked_registry ≡ some other_token
unfolding resolve_merchant_by_token find?
other_resolves = refl

revoke_token-dead_example : other_token.merchant_id ≢ "mkt_1"
unfolding count
revoke_token-dead_example =
    revoke_token-dead "mkt_1" two_merchants 3000 "revoked" revoked_registry revocation
      (refl, (refl, tt)) (λ s. s) "t-9" other_token other_resolves
