-- ===== src/BuyerFollows/Delivery/Calls.antt =====
-- Publications and pulls in any order (kiwi_catalog/services/buyer_follows.py), and what each publishes
-- and hands out.
use kiwi_catalog.Prelude.{ℕ, String, List, [], ◌∷◌, ◌++◌, ◌=ₛ◌, if◌then◌else◌}
use kiwi_catalog.Prelude.Table.{max_of}
use kiwi_catalog.Action.{Outcome, done, raised, db_session}
use kiwi_catalog.BuyerFollows.{fetch_updates}
use kiwi_catalog.BuyerFollows.Events.{by_merchant, emit_public_event}
use kiwi_catalog.BuyerFollows.Pulls.{shown}
use kiwi_catalog.BuyerFollows.Store.{Event, Db, Env}

-- A merchant publishes, or a buyer pulls: the time, and what the call is given.
pub data Call : Type 0 where
  emit : ℕ → String → String → String → String → String → Call
  fetch : ℕ → String → Call

abbrev pub time_of : Call → ℕ
time_of (emit now id m publication_id event_type payload) = now
time_of (fetch now b) = now

abbrev pub at : Env → ℕ → String → Env
at base now id = record base { now = now; event_id = id }

unfoldable pub serve : Env → Call → Db → Db
serve base (emit now id m publication_id event_type payload) =
    db_session (emit_public_event (at base now id) m publication_id event_type payload)
serve base (fetch now b) = λ db. (fetch_updates (at base now "") b db).1

unfoldable pub serve_all : Env → List Call → Db → Db
serve_all base [] db = db
serve_all base (c ∷ cs) db = serve_all base cs (serve base c db)

-- The events of the merchant that a call publishes, and those that it hands to the buyer.
abbrev pub produced : String → Outcome Db Event → List Event
produced m (done ev t) = if ev.merchant_id =ₛ m then ev ∷ [] else []
produced m (raised error t) = []

unfoldable pub published : Env → String → Call → Db → List Event
published base m (emit now id m' publication_id event_type payload) db =
    produced m (emit_public_event (at base now id) m' publication_id event_type payload db)
published base m (fetch now b) db = []

unfoldable pub handed : Env → String → String → Call → Db → List Event
handed base b m (emit now id m' publication_id event_type payload) db = []
handed base b m (fetch now b') db =
    if b' =ₛ b then shown m (fetch_updates (at base now "") b' db).0 else []

unfoldable pub all_published : Env → String → List Call → Db → List Event
all_published base m [] db = []
all_published base m (c ∷ cs) db =
    published base m c db ++ all_published base m cs (serve base c db)

unfoldable pub all_handed : Env → String → String → List Call → Db → List Event
all_handed base b m [] db = []
all_handed base b m (c ∷ cs) db = handed base b m c db ++ all_handed base b m cs (serve base c db)

abbrev pub top_of : String → List Event → ℕ
top_of m events = max_of (by_merchant m) (λ x. x.created_at) events
