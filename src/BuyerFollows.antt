-- ===== src/BuyerFollows.antt =====
-- kiwi_catalog/services/buyer_follows.py and kiwi_catalog/services/merchant_public_events.py: a
-- buyer follows merchants, and pulls the events that they have published since.
pub mod Events
pub mod Store
pub mod Rising
pub mod Pulls
pub mod Rounds
pub mod Fetches
pub mod Delivery
pub mod Subscription
use kiwi_catalog.BuyerFollows.Events.{list_events_after}
use Prim.Native.Nat.{Ordering}
use Prim.Native.String
use kiwi_catalog.Prelude.{
  ℕ, ◌+◌, ◌*◌, ◌/◌, String, Bool, true, false, not, ◌&&◌, ◌||◌, Option, none, some, List, [], ◌∷◌,
  ◌++◌, ◌==◌, ◌=ₛ◌, ltb, is_some, if◌then◌else◌, strip,
}
use kiwi_catalog.Prelude.Table.{find?, select, update, insert, count}
use kiwi_catalog.Result.{Error, Result, ok, err}
use Store.{Event, Follow, Merchant, Db, Env, Update}

abbrev pub of_follow : String → String → Follow → Bool
of_follow b m f = f.buyer_subject =ₛ b && f.merchant_id =ₛ m

unfoldable pub merchant_exists : String → Db → Bool
merchant_exists m db = is_some (find? (λ (r : Merchant). r.id =ₛ strip m) db.merchants)

abbrev pub name_of : Option Merchant → String
name_of none = ""
name_of (some r) = r.name

unfoldable pub merchant_name : String → Db → String
merchant_name m db = name_of (find? (λ (r : Merchant). r.id =ₛ m) db.merchants)

unfoldable pub validate_follow_fields : String → String → Result (String × String)
validate_follow_fields category consent_version =
    if ltb 100 (String.count (strip category))
    then err Error.validation
    else if ltb 100 (String.count (strip consent_version))
    then err Error.validation
    else ok (strip category, strip consent_version)

unfoldable pub get_follow : String → String → Db → Option Follow
get_follow b m db = find? (of_follow b m) db.follows

-- `now_iso`, which has whole seconds, beside the clock in microseconds
abbrev pub whole_second : ℕ → ℕ
whole_second now = now / 1000000 * 1000000

abbrev pub new_follow : ℕ → String → String → String → String → Follow
new_follow now b m category consent_version = record {
  buyer_subject = b;
  merchant_id = m;
  category = category;
  status = "active";
  consent_version = consent_version;
  last_seen_at = now;
  created_at = whole_second now;
  updated_at = whole_second now;
}

abbrev pub refollowed : ℕ → String → String → Follow → Follow
refollowed now category consent_version f = record f {
  category = category;
  consent_version = consent_version;
  status = "active";
  last_seen_at = if f.status =ₛ "active" then f.last_seen_at else now;
  updated_at = whole_second now;
}

-- The row, whether it is new, and whether it was cancelled before.
unfoldable pub follow_merchant : ℕ → String → String → String → String → Db → Db × Bool × Bool
follow_merchant now b m category consent_version db = elim (find? (of_follow b m) db.follows) [
  | none ↦ (
    record db { follows = insert (new_follow now b m category consent_version) db.follows },
    true,
    false,
  )
  | some f ↦ (
    record db {
      follows = update (of_follow b m) (refollowed now category consent_version) db.follows;
    },
    false,
    not (f.status =ₛ "active"),
  )
]

abbrev is_active : Option Follow → Bool
is_active none = false
is_active (some f) = f.status =ₛ "active"

unfoldable pub unfollow_merchant : ℕ → String → String → Db → Db × Bool
unfollow_merchant now b m db =
    if is_active (find? (of_follow b m) db.follows)
    then (
      record db {
        follows =
            update (of_follow b m)
              (λ f. record f { status = "cancelled"; updated_at = whole_second now }) db.follows;
      },
      true,
    )
    else (db, false)

-- `order by created_at asc, merchant_id asc`
abbrev pub follows_before : Follow → Follow → Bool
follows_before f g =
    ltb f.created_at g.created_at
    || (f.created_at == g.created_at
        && (elim (String.compare f.merchant_id g.merchant_id) [ Ordering.gt ↦ false | _ ↦ true ]))

unfoldable pub put_follow : Follow → List Follow → List Follow
put_follow f [] = f ∷ []
put_follow f (g ∷ gs) =
    let rest = put_follow f gs in if follows_before f g then f ∷ g ∷ gs else g ∷ rest

unfoldable pub in_order : List Follow → List Follow
in_order [] = []
in_order (f ∷ fs) = put_follow f (in_order fs)

abbrev pub active_of : String → Follow → Bool
active_of b f = f.buyer_subject =ₛ b && f.status =ₛ "active"

unfoldable pub list_follows : String → Db → List Follow
list_follows b db = in_order (select (active_of b) db.follows)

-- `UPDATES_PER_FOLLOW_CAP`
abbrev pub updates_per_follow_cap : ℕ
updates_per_follow_cap = 100

abbrev pub wants : (String → String) → String → Event → Bool
wants category_of category e = category =ₛ "" || category_of e.payload =ₛ category

unfoldable pub last_of : List Event → Option Event
last_of [] = none
last_of (e ∷ es) = elim (last_of es) [ none ↦ some e | some z ↦ some z ]

abbrev pub seen_until : ℕ → ℕ → Follow → Follow
seen_until seen now f = record f { last_seen_at = seen; updated_at = whole_second now }

-- Only a merchant with matching events is shown.
unfoldable pub shown_update : String → String → ℕ → List Event → List Update
shown_update m name seen [] = []
shown_update m name seen (x ∷ xs) =
    record { merchant_id = m; merchant_name = name; events = x ∷ xs; last_seen_at = seen } ∷ []

-- The body of the loop of `fetch_updates`, for a row as it was selected.
unfoldable pub pull : Env → Follow → Db → List Update × Db
pull e f db =
    let events =
      list_events_after e.sanitize f.merchant_id f.last_seen_at updates_per_follow_cap db.events in
    elim (last_of events) [
      | none ↦ ([], db)
      | some z ↦ (
        shown_update f.merchant_id (merchant_name f.merchant_id db) z.created_at
            (select (wants e.category_of f.category) events),
        record db {
          follows =
              update (of_follow f.buyer_subject f.merchant_id) (seen_until z.created_at e.now)
                db.follows;
        },
      )
    ]

unfoldable pub pull_all : Env → List Follow → Db → List Update × Db
pull_all e [] db = ([], db)
pull_all e (f ∷ fs) db =
    let first = pull e f db in let rest = pull_all e fs first.1 in (first.0 ++ rest.0, rest.1)

unfoldable pub fetch_updates : Env → String → Db → List Update × Db
fetch_updates e b db = pull_all e (list_follows b db) db

unfoldable pub follower_count : String → Db → ℕ
follower_count m db = count (λ f. f.merchant_id =ₛ m && f.status =ₛ "active") db.follows
