-- ===== src/BuyerFollows/Store.antt =====
-- The rows of `buyer_follows` and `merchant_public_events` (kiwi_catalog/db/models.py). Times are in
-- microseconds.
use kiwi_catalog.Prelude.{ℕ, String, List}

pub record Event : Type 0 where
  pub event_id : String
  pub merchant_id : String
  pub publication_id : String
  pub event_type : String
  pub version : ℕ
  pub payload : String
  pub created_at : ℕ

pub record Follow : Type 0 where
  pub buyer_subject : String
  pub merchant_id : String
  pub category : String
  pub status : String
  pub consent_version : String
  pub last_seen_at : ℕ
  pub created_at : ℕ
  pub updated_at : ℕ

-- the columns of `merchants` that are read
pub record Merchant : Type 0 where
  pub id : String
  pub name : String

pub record Db : Type 0 where
  pub follows : List Follow
  pub events : List Event
  pub merchants : List Merchant

-- `sanitize` is `sanitize_public_payload`, which takes hidden links out of a payload when an event is
-- written and again when it is read; `category_of` reads a payload's category; the id is drawn.
pub record Env : Type 0 where
  pub now : ℕ
  pub event_id : String
  pub sanitize : String → String
  pub category_of : String → String

-- What a buyer is shown of one merchant.
pub record Update : Type 0 where
  pub merchant_id : String
  pub merchant_name : String
  pub events : List Event
  pub last_seen_at : ℕ
