-- ===== src/BuyerFollows/Pulls.antt =====
-- One round of `fetch_updates` (kiwi_catalog/services/buyer_follows.py) as a buyer's follow of one
-- merchant sees it.
use mathlib.Core.List.{append_assoc, append-nil}
use kiwi_catalog.Prelude.{
  ℕ, max, ◌≤◌, String, ◌≡◌, refl, sym, ap, ◌∙◌, subst, true, false, inl, inr, none, some, List, [],
  ◌∷◌, ◌++◌, ltb, ◌=ₛ◌, arith, eq_refl, All, Bool-cases, Option-cases, map, take, if◌then◌else◌,
}
use kiwi_catalog.Prelude.Table.{find?, select, update, max_of}
use kiwi_catalog.Prelude.Table.Laws.{find?-true, find?-update}
use kiwi_catalog.Prelude.Table.Greatest.{All-le-max_of}
use kiwi_catalog.BuyerFollows.{
  of_follow, wants, last_of, seen_until, shown_update, pull, updates_per_follow_cap, merchant_name,
}
use kiwi_catalog.BuyerFollows.Events.{by_merchant, after, read_back, list_events_after}
use kiwi_catalog.BuyerFollows.Rising.{
  Rising, Rising-select, by_time-Rising, last_of-cut, last_of-All, All-take, take-none-drop,
  last_of-map-none, last_of-map-some,
}
use kiwi_catalog.Prelude.Cuts.{drop, select-and, All-select, select_only}
use kiwi_catalog.BuyerFollows.Store.{Event, Follow, Db, Env, Update}

-- The events of a merchant, and those that a buyer with this mark has not seen.
abbrev pub stream : String → List Event → List Event
stream m events = select (by_merchant m) events

abbrev pub waiting : String → ℕ → List Event → List Event
waiting m seen events = select (after m seen) events

-- What a buyer of a category is shown of events: they are sanitised, and then restricted.
abbrev pub visible : Env → String → List Event → List Event
visible e category events =
    select (wants e.category_of category) (map (read_back e.sanitize) events)

-- The events of one merchant in what a buyer is shown.
unfoldable pub shown : String → List Update → List Event
shown m [] = []
shown m (u ∷ us) = let rest = shown m us in if u.merchant_id =ₛ m then u.events ++ rest else rest

pub shown-append :
    (m : String) (us vs : List Update) → shown m (us ++ vs) ≡ shown m us ++ shown m vs
unfolding shown
shown-append m [] vs = refl
shown-append m (u ∷ us) vs = elim (Bool-cases (u.merchant_id =ₛ m)) [
  | inl e ↦ rw (e, shown-append m us vs) (sym (append_assoc u.events (shown m us) (shown m vs)))
  | inr e ↦ rw e (shown-append m us vs)
]

shown_update-own :
    (m name : String) (seen : ℕ) (es : List Event) → shown m (shown_update m name seen es) ≡ es
unfolding shown shown_update
shown_update-own m name seen [] = refl
shown_update-own m name seen (x ∷ xs) = rw (eq_refl m, append-nil) refl

pub shown_update-other :
    (m m' name : String) (seen : ℕ) (es : List Event)
    → (m' =ₛ m) ≡ false
    → shown m (shown_update m' name seen es) ≡ []
unfolding shown shown_update
shown_update-other m m' name seen [] h = refl
shown_update-other m m' name seen (x ∷ xs) h = rw h refl

-- The events are handed out in the order of their times.
pub list_events_after-take :
    (sanitize : String → String) (m : String) (seen limit : ℕ) (events : List Event)
    → Rising (stream m events)
    → list_events_after sanitize m seen limit events
      ≡ map (read_back sanitize) (take limit (waiting m seen events))
unfolding list_events_after
list_events_after-take sanitize m seen limit events h =
    let cut : waiting m seen events ≡ select (λ e. ltb seen e.created_at) (stream m events) =
      select-and (by_merchant m) (λ e. ltb seen e.created_at) events in
    let rising : Rising (waiting m seen events) =
      subst Rising (sym cut) (Rising-select (λ e. ltb seen e.created_at) (stream m events) h) in
    ap (λ es. map (read_back sanitize) (take limit es))
      (by_time-Rising (waiting m seen events) rising)

-- A later mark cuts the same events further on.
waiting-later :
    (m : String) (seen later : ℕ) (events : List Event)
    → seen ≤ later
    → waiting m later events ≡ select (λ e. ltb later e.created_at) (waiting m seen events)
unfolding select
waiting-later m seen later [] h = refl
waiting-later m seen later (x ∷ xs) h = ground (arith, waiting-later m seen later xs)

not_zero : updates_per_follow_cap ≡ 0 → ⊥
not_zero h = omega (arith, h)

-- What a round that reaches the follow `f` of the buyer `b` and the merchant `m` does to it.
pub record Pulled (e : Env) (b m : String) (f : Follow) (db : Db) (result : List Update × Db)
    : Type 0 where
  pub row : Follow
  pub found : find? (of_follow b m) result.1.follows ≡ some row
  pub status : row.status ≡ f.status
  pub category : row.category ≡ f.category
  pub events : result.1.events ≡ db.events
  pub handed :
      shown m result.0
      ≡ visible e f.category (take updates_per_follow_cap (waiting m f.last_seen_at db.events))
  pub left :
      waiting m row.last_seen_at db.events
      ≡ drop updates_per_follow_cap (waiting m f.last_seen_at db.events)
  pub mark :
      row.last_seen_at ≤ max f.last_seen_at (max_of (by_merchant m) (λ x. x.created_at) db.events)

module _ (e : Env) (f : Follow) (db : Db)
    (found : find? (of_follow f.buyer_subject f.merchant_id) db.follows ≡ some f)
    (rising : Rising (stream f.merchant_id db.events)) where
  next_events :
      list_events_after e.sanitize f.merchant_id f.last_seen_at updates_per_follow_cap db.events
      ≡ map
          (read_back e.sanitize)
          (take updates_per_follow_cap (waiting f.merchant_id f.last_seen_at db.events))
  next_events =
      list_events_after-take e.sanitize f.merchant_id f.last_seen_at updates_per_follow_cap
        db.events rising

  -- Nothing new: nothing is shown, and the row stays.
  pull-nothing :
      last_of (take updates_per_follow_cap (waiting f.merchant_id f.last_seen_at db.events)) ≡ none
      → Pulled e f.buyer_subject f.merchant_id f db (pull e f db)
  unfolding pull shown
  pull-nothing h =
      let none_read =
        last_of-map-none (read_back e.sanitize)
          (take updates_per_follow_cap (waiting f.merchant_id f.last_seen_at db.events)) h in
      let stays : pull e f db ≡ ([], db) = ground (arith, next_events, none_read) in
      let empty : waiting f.merchant_id f.last_seen_at db.events ≡ [] =
        elim (take-none-drop updates_per_follow_cap (waiting f.merchant_id f.last_seen_at db.events)
          h) [ inl never ↦ absurd (not_zero never) | inr e ↦ e ] in
      subst (Pulled e f.buyer_subject f.merchant_id f db) (sym stays) (record {
        row = f;
        found = found;
        status = refl;
        category = refl;
        events = refl;
        handed = rw empty (unfold select in refl);
        left = rw empty refl;
        mark = omega arith;
      })

  -- Something new: the mark moves to the last event that is taken.
  pull-some :
      (z : Event)
      → last_of (take updates_per_follow_cap (waiting f.merchant_id f.last_seen_at db.events))
        ≡ some z
      → Pulled e f.buyer_subject f.merchant_id f db (pull e f db)
  unfolding pull
  pull-some z h =
      let m = f.merchant_id in
      let w = waiting m f.last_seen_at db.events in
      let top = max_of (by_merchant m) (λ x. x.created_at) db.events in
      let q = of_follow f.buyer_subject m in
      let new = λ (x : Follow). seen_until z.created_at e.now x in
      let next : (
        shown_update m (merchant_name m db) z.created_at
            (visible e f.category (take updates_per_follow_cap w)),
        record db { follows = update q new db.follows },
      )
          ≡ pull e f db =
        ground (
          arith,
          next_events,
          last_of-map-some (read_back e.sanitize) (take updates_per_follow_cap w) z h,
        ) in
      let own : q f ≡ true = find?-true q db.follows f found in
      let all_after : All (λ x. after m f.last_seen_at x ≡ true) w =
        select_only (after m f.last_seen_at) db.events in
      let later : after m f.last_seen_at z ≡ true =
        last_of-All (λ x. after m f.last_seen_at x ≡ true) (take updates_per_follow_cap w) z
          (All-take (λ x. after m f.last_seen_at x ≡ true) updates_per_follow_cap w all_after) h in
      let bounded : by_merchant m z ≡ true → z.created_at ≤ top =
        last_of-All (λ x. by_merchant m x ≡ true → x.created_at ≤ top)
          (take updates_per_follow_cap w) z
          (All-take (λ x. by_merchant m x ≡ true → x.created_at ≤ top) updates_per_follow_cap w
            (All-select (λ x. by_merchant m x ≡ true → x.created_at ≤ top) (after m f.last_seen_at)
              db.events (All-le-max_of (by_merchant m) (λ x. x.created_at) db.events)))
          h in
      let cut : w ≡ select (λ x. ltb f.last_seen_at x.created_at) (stream m db.events) =
        select-and (by_merchant m) (λ x. ltb f.last_seen_at x.created_at) db.events in
      let rising_w : Rising w =
        subst Rising (sym cut)
          (Rising-select (λ x. ltb f.last_seen_at x.created_at) (stream m db.events) rising) in
      subst (Pulled e f.buyer_subject m f db) next (record {
        row = new f;
        found = find?-update q q new db.follows (λ x _. refl) ∙ (rw found (rw own refl));
        status = refl;
        category = refl;
        events = refl;
        handed = shown_update-own m (merchant_name m db) z.created_at _;
        left =
            waiting-later m f.last_seen_at z.created_at db.events (ground (arith, later))
            ∙ last_of-cut updates_per_follow_cap w z rising_w h;
        mark = ground (arith, bounded, later);
      })

  pub pull-own : Pulled e f.buyer_subject f.merchant_id f db (pull e f db)
  pull-own =
      elim (Option-cases
        (last_of (take updates_per_follow_cap (waiting f.merchant_id f.last_seen_at db.events)))) [
          | inl nothing ↦ pull-nothing nothing
          | inr (z, last) ↦ pull-some z last
        ]
