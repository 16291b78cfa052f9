-- ===== src/BuyerFollows/Events.antt =====
-- kiwi_catalog/services/merchant_public_events.py: the events of a merchant, with growing versions and
-- times.
use kiwi_catalog.Prelude.{
  ℕ, ◌+◌, String, Bool, not, ◌&&◌, ◌||◌, List, [], ◌∷◌, ◌==◌, ◌=ₛ◌, ltb, leb, one_of, is_some,
  if◌then◌else◌, map, take,
}
use kiwi_catalog.Prelude.Table.{find?, select, insert, max_of}
use kiwi_catalog.Result.{Error}
use kiwi_catalog.Action.{Action, Outcome, ◌>>=◌, ◌>>◌, pure, gets, raise_if}
use kiwi_catalog.BuyerFollows.Store.{Event, Db, Env}

abbrev pub event_types : List String
event_types =
    "product_added" ∷ "product_updated" ∷ "faq_updated" ∷ "service_notice" ∷ "publication_withdrawn"
    ∷ []

abbrev pub by_merchant : String → Event → Bool
by_merchant m e = e.merchant_id =ₛ m

abbrev pub next_version : String → List Event → ℕ
next_version m events = max_of (by_merchant m) (λ e. e.version) events + 1

-- The clock, or one microsecond after the merchant's last event.
unfoldable pub next_timestamp : ℕ → String → List Event → ℕ
next_timestamp now m events =
    let previous = max_of (by_merchant m) (λ e. e.created_at) events in
    if is_some (find? (by_merchant m) events) && leb now previous then previous + 1 else now

abbrev pub new_event : Env → String → String → String → String → List Event → Event
new_event e m publication_id event_type payload events = record {
  event_id = e.event_id;
  merchant_id = m;
  publication_id = publication_id;
  event_type = event_type;
  version = next_version m events;
  payload = e.sanitize payload;
  created_at = next_timestamp e.now m events;
}

-- The primary key and the unique index on the merchant's versions.
abbrev pub insert_event : Event → Action Db Unit
insert_event r db =
    if is_some (
      find?
        (λ x.
          x.event_id =ₛ r.event_id || (x.merchant_id =ₛ r.merchant_id && x.version == r.version))
        db.events)
    then Outcome.raised Error.integrity db
    else Outcome.done tt (record db { events = insert r db.events })

unfoldable pub emit_public_event : Env → String → String → String → String → Action Db Event
emit_public_event e m publication_id event_type payload = do
  raise_if (not (one_of event_types event_type)) Error.value_error
  row ← gets (λ (db : Db). new_event e m publication_id event_type payload db.events)
  insert_event row
  pure row

-- `order by created_at asc, version asc`
abbrev pub earlier : Event → Event → Bool
earlier x y =
    ltb x.created_at y.created_at || (x.created_at == y.created_at && leb x.version y.version)

unfoldable pub placed : Event → List Event → List Event
placed e [] = e ∷ []
placed e (x ∷ xs) = let rest = placed e xs in if earlier e x then e ∷ x ∷ xs else x ∷ rest

unfoldable pub by_time : List Event → List Event
by_time [] = []
by_time (e ∷ es) = placed e (by_time es)

abbrev pub after : String → ℕ → Event → Bool
after m seen e = e.merchant_id =ₛ m && ltb seen e.created_at

-- `_row_to_event`: the payload of a stored event is sanitised again when it is read.
abbrev pub read_back : (String → String) → Event → Event
read_back sanitize e = record e { payload = sanitize e.payload }

unfoldable pub list_events_after : (String → String) → String → ℕ → ℕ → List Event → List Event
list_events_after sanitize m seen limit events =
    map (read_back sanitize) (take limit (by_time (select (after m seen) events)))
