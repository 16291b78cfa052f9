-- ===== src/Tests/Follows.antt =====
-- A buyer who follows a merchant (kiwi_catalog/services/buyer_follows.py).
use kiwi_catalog.Prelude.{◌≤◌, ◌≡◌, refl, some, [], ◌∷◌, ◌++◌, List, arith, ◌=ₛ◌, if◌then◌else◌}
use kiwi_catalog.Prelude.Table.{find?, select, count}
use kiwi_catalog.BuyerFollows.{of_follow}
use kiwi_catalog.BuyerFollows.Delivery.Calls.{
  emit, fetch, Call, serve_all, all_published, all_handed,
}
use kiwi_catalog.BuyerFollows.Pulls.{stream, visible}
use kiwi_catalog.BuyerFollows.Rising.{Rising}
use kiwi_catalog.BuyerFollows.Store.{Event, Follow, Db, Env}
use kiwi_catalog.BuyerFollows.Subscription.{queue, pulls, serve_all-delivers, pulls-drain}

abbrev env : Env
env = record {
  now = 0;
  event_id = "";
  sanitize = λ s. if s =ₛ "lamps, call 555" then "lamps" else s;
  category_of = λ s. s;
}

abbrev follow : Follow
follow = record {
  buyer_subject = "account:1";
  merchant_id = "mkt_1";
  category = "lamps";
  status = "active";
  consent_version = "";
  last_seen_at = 100;
  created_at = 100;
  updated_at = 100;
}

-- its payload was stored before sanitising took the telephone number away
abbrev event : Event
event = record {
  event_id = "mev_1";
  merchant_id = "mkt_1";
  publication_id = "p";
  event_type = "product_added";
  version = 1;
  payload = "lamps, call 555";
  created_at = 150;
}

abbrev start : Db
start = record {
  follows = follow ∷ [];
  events =
      event
      ∷ record event { event_id = "mev_2"; version = 2; payload = "chairs"; created_at = 151 }
      ∷ [];
  merchants = [];
}

followed : find? (of_follow "account:1" "mkt_1") start.follows ≡ some follow
unfolding find?
followed = refl

alone : count (of_follow "account:1" "mkt_1") start.follows ≤ 1
unfolding count
alone = omega arith

rising : Rising (stream "mkt_1" start.events)
unfolding select
rising = ((omega arith, tt), (tt, tt))

abbrev calls : List Call
calls =
    emit 151 "mev_3" "mkt_1" "p" "product_updated" "lamps"
    ∷ fetch 200 "account:1"
    ∷ emit 210 "mev_4" "mkt_2" "q" "product_updated" "lamps"
    ∷ []

serve_all-delivers_example :
    (row : Follow) × (find? (of_follow "account:1" "mkt_1") (serve_all env calls start).follows
      ≡ some row)
    × (row.category ≡ "lamps")
    × (queue env "mkt_1" follow start ++ visible env "lamps" (all_published env "mkt_1" calls start)
        ≡ all_handed env "account:1" "mkt_1" calls start
          ++ queue env "mkt_1" row (serve_all env calls start))
serve_all-delivers_example =
    serve_all-delivers env "account:1" "mkt_1" follow start followed alone refl rising calls
      (omega arith, (omega arith, (omega arith, tt)))

pulls-drain_example :
    all_handed env "account:1" "mkt_1" (pulls "account:1" (200 ∷ [])) start
    ≡ queue env "mkt_1" follow start
unfolding select
pulls-drain_example =
    pulls-drain env "account:1" "mkt_1" follow start followed alone refl rising (200 ∷ [])
      (omega arith)
