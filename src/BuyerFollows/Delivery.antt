-- ===== src/BuyerFollows/Delivery.antt =====
-- Publishing and pulling over time: kiwi_catalog/services/buyer_follows.py on top of
-- kiwi_catalog/services/merchant_public_events.py.
pub mod Calls
use kiwi_catalog.BuyerFollows.Delivery.Calls.{
  emit, fetch, Call, at, serve, published, handed, top_of,
}
use mathlib.Core.List.{append-nil}
use kiwi_catalog.Prelude.{
  ℕ, max, ◌≤◌, ◌<◌, String, ◌≡◌, refl, sym, ap, ◌∙◌, subst, true, false, inl, inr, some, List, [],
  ◌∷◌, ◌++◌, ◌=ₛ◌, arith, eq_iff, lt→ltb, All, All-map, All-both, Bool-cases, Option-cases,
  if◌then◌else◌, map, take,
}
use kiwi_catalog.Prelude.Table.{find?, select, insert, count}
use kiwi_catalog.Prelude.Table.Laws.{find?-count_zero}
use kiwi_catalog.Prelude.Table.Greatest.{
  max_of-zero, max_of-insert, max_of-insert_other, All-le-max_of,
}
use kiwi_catalog.Action.{done, Outcome-cases, db_session}
use kiwi_catalog.BuyerFollows.{of_follow, wants, fetch_updates, updates_per_follow_cap}
use kiwi_catalog.BuyerFollows.Events.{
  by_merchant, after, read_back, next_timestamp, new_event, emit_public_event,
}
use kiwi_catalog.BuyerFollows.Fetches.{
  fetch_updates-Pulled, fetch_updates-other, fetch_updates-count,
}
use kiwi_catalog.BuyerFollows.Pulls.{stream, waiting, visible, Pulled}
use kiwi_catalog.BuyerFollows.Rising.{Rising, Rising-insert}
use kiwi_catalog.Prelude.Cuts.{
  drop, take-append-drop, select-append, select-insert, select_only, All-select,
}
use kiwi_catalog.BuyerFollows.Store.{Event, Follow, Db, Env}

-- The follow of `b` and `m` with its mark, where the merchant's events have rising times.
pub record IsFollowed (b m : String) (start : ℕ) (f : Follow) (db : Db) : Type 0 where
  pub found : find? (of_follow b m) db.follows ≡ some f
  pub one : count (of_follow b m) db.follows ≤ 1
  pub active : (f.status =ₛ "active") ≡ true
  pub rising : Rising (stream m db.events)
  pub mark : f.last_seen_at ≤ max start (top_of m db.events)

-- A new event comes after all that the merchant has, and after the start.
next_timestamp-above :
    (start now : ℕ) (m : String) (events : List Event)
    → start < now
    → max start (top_of m events) < next_timestamp now m events
unfolding next_timestamp
next_timestamp-above start now m events h = elim (Option-cases (find? (by_merchant m) events)) [
  | inl missing ↦
      let zero_top : top_of m events ≡ 0 =
        max_of-zero (by_merchant m) (λ x. x.created_at) events
          (find?-count_zero (by_merchant m) events missing) in
      ground (arith, missing, zero_top)
  | inr (x, found) ↦ ground (arith, found)
]

emit-done :
    (e : Env) (m publication_id event_type payload : String) (s t : Db) (ev : Event)
    → emit_public_event e m publication_id event_type payload s ≡ done ev t
    → (ev ≡ new_event e m publication_id event_type payload s.events)
      × (t ≡ record s { events = insert ev s.events })
unfolding emit_public_event
emit-done e m publication_id event_type payload s t ev h = (ground arith, ground arith)

-- The follow after a call, and the balance: what waited and what was published is what was handed
-- out and what waits.
pub record Balanced (base : Env) (b m : String) (start : ℕ) (f : Follow) (c : Call) (db : Db)
    : Type 0 where
  pub row : Follow
  pub followed : IsFollowed b m start row (serve base c db)
  pub category : row.category ≡ f.category
  pub balance :
      visible base f.category (waiting m f.last_seen_at db.events)
        ++ visible base f.category (published base m c db)
      ≡ handed base b m c db
        ++ visible base f.category (waiting m row.last_seen_at (serve base c db).events)

waiting-insert :
    (m : String) (seen : ℕ) (ev : Event) (events : List Event)
    → after m seen ev ≡ true
    → waiting m seen (insert ev events) ≡ waiting m seen events ++ ev ∷ []
waiting-insert m seen ev events h =
    select-insert (after m seen) ev events ∙ (rw h (unfold insert in refl))

waiting-insert_other :
    (m : String) (seen : ℕ) (ev : Event) (events : List Event)
    → by_merchant m ev ≡ false
    → waiting m seen (insert ev events) ≡ waiting m seen events
waiting-insert_other m seen ev events h =
    let out : after m seen ev ≡ false = ground (arith, h) in
    select-insert (after m seen) ev events ∙ (rw out refl)

-- A new event of the merchant, or one of another.
IsFollowed-insert :
    (b m : String) (start : ℕ) (f : Follow) (db : Db) (ev : Event)
    → (by_merchant m ev ≡ true → max start (top_of m db.events) < ev.created_at)
    → IsFollowed b m start f db
    → IsFollowed b m start f (record db { events = insert ev db.events })
IsFollowed-insert b m start f db ev later i = elim (Bool-cases (by_merchant m ev)) [
  | inl own ↦
      let above = later own in
      let top = max_of-insert (by_merchant m) (λ x. x.created_at) ev db.events own in
      let below : All (λ x. x.created_at < ev.created_at) (stream m db.events) =
        All-map (λ x both. omega (arith, both.0 both.1, above)) (stream m db.events)
          (All-both _ _ (stream m db.events)
            (All-select (λ x. by_merchant m x ≡ true → x.created_at ≤ top_of m db.events)
              (by_merchant m) db.events
              (All-le-max_of (by_merchant m) (λ x. x.created_at) db.events))
            (select_only (by_merchant m) db.events)) in
      record {
        found = i.found;
        one = i.one;
        active = i.active;
        rising =
            subst Rising (sym (select-insert (by_merchant m) ev db.events ∙ (rw own refl)))
              (Rising-insert ev (stream m db.events) below i.rising);
        mark = omega (arith, i.mark, top);
      }
  | inr other ↦ record {
    found = i.found;
    one = i.one;
    active = i.active;
    rising =
        subst Rising (sym (select-insert (by_merchant m) ev db.events ∙ (rw other refl))) i.rising;
    mark = rw (max_of-insert_other (by_merchant m) (λ x. x.created_at) ev db.events other) i.mark;
  }
]

pub visible-nil :
    (e : Env) (category : String) (xs : List Event)
    → visible e category xs ++ visible e category [] ≡ visible e category xs
unfolding select
visible-nil e category xs = rw append-nil refl

map-append : (g : Event → Event) (xs ys : List Event) → map g (xs ++ ys) ≡ map g xs ++ map g ys
map-append g [] ys = refl
map-append g (x ∷ xs) ys = ap (λ zs. g x ∷ zs) (map-append g xs ys)

pub visible-append :
    (e : Env) (category : String) (xs ys : List Event)
    → visible e category (xs ++ ys) ≡ visible e category xs ++ visible e category ys
visible-append e category xs ys =
    let g = read_back e.sanitize in
    let w = wants e.category_of category in
    ap (select w) (map-append g xs ys) ∙ select-append w (map g xs) (map g ys)

-- The balance of a publication, once its event is known.
insert-Balance :
    (base : Env) (category b m : String) (start : ℕ) (f : Follow) (db : Db) (ev : Event)
    → (by_merchant m ev ≡ true → max start (top_of m db.events) < ev.created_at)
    → IsFollowed b m start f db
    → visible base category (waiting m f.last_seen_at db.events)
        ++ visible base category (if by_merchant m ev then ev ∷ [] else [])
      ≡ visible base category (waiting m f.last_seen_at (insert ev db.events))
insert-Balance base category b m start f db ev later i = elim (Bool-cases (by_merchant m ev)) [
  | inl own ↦
      let above = later own in
      let new : after m f.last_seen_at ev ≡ true =
        ground (arith, own, lt→ltb f.last_seen_at ev.created_at (omega (arith, above, i.mark))) in
      rw (own, waiting-insert m f.last_seen_at ev db.events new)
        (sym (visible-append base category (waiting m f.last_seen_at db.events) (ev ∷ [])))
  | inr other ↦
      rw (other, waiting-insert_other m f.last_seen_at ev db.events other)
        (visible-nil base category (waiting m f.last_seen_at db.events))
]

pub emit-Balanced :
    (base : Env) (b m : String) (start : ℕ) (f : Follow) (now : ℕ)
    (id m' publication_id event_type payload : String) (db : Db)
    → start < now
    → IsFollowed b m start f db
    → Balanced base b m start f (emit now id m' publication_id event_type payload) db
unfolding serve published handed db_session
emit-Balanced base b m start f now id m' publication_id event_type payload db h i =
    let e = at base now id in
    elim (Outcome-cases (emit_public_event e m' publication_id event_type payload db)) [
      | inr (error, t, failed) ↦ record {
        row = f;
        followed = rw failed i;
        category = refl;
        balance = rw failed (visible-nil base f.category (waiting m f.last_seen_at db.events));
      }
      | inl (ev, t, emitted) ↦
          let (new, state) = emit-done e m' publication_id event_type payload db t ev emitted in
          let later : by_merchant m ev ≡ true → max start (top_of m db.events) < ev.created_at =
            λ own.
              let mine : m' ≡ m = ground (arith, own, new, eq_iff m' m) in
              let stamp : ev.created_at ≡ next_timestamp now m db.events =
                ap (λ x. x.created_at) new ∙ ap (λ k. next_timestamp now k db.events) mine in
              omega (arith, stamp, next_timestamp-above start now m db.events h) in
          record {
            row = f;
            followed = rw (emitted, state) (IsFollowed-insert b m start f db ev later i);
            category = refl;
            balance =
                rw (emitted, state) (insert-Balance base f.category b m start f db ev later i);
          }
    ]

pub fetch-Balanced :
    (base : Env) (b m : String) (start : ℕ) (f : Follow) (now : ℕ) (b' : String) (db : Db)
    → IsFollowed b m start f db
    → Balanced base b m start f (fetch now b') db
unfolding serve published handed
fetch-Balanced base b m start f now b' db i =
    let e = at base now "" in
    let waits = waiting m f.last_seen_at db.events in
    elim (Bool-cases (b' =ₛ b)) [
      | inl mine ↦
          let same : b' ≡ b = (eq_iff b' b).0 mine in
          let p : Pulled e b m f db (fetch_updates e b' db) =
            subst (λ k. Pulled e b m f db (fetch_updates e k db)) (sym same)
              (fetch_updates-Pulled e b m f db i.found i.one i.active i.rising) in
          record {
            row = p.row;
            followed = record {
              found = p.found;
              one = omega (arith, fetch_updates-count e b b' m db, i.one);
              active = rw p.status i.active;
              rising = rw p.events i.rising;
              mark = rw p.events (omega (arith, p.mark, i.mark));
            };
            category = p.category;
            balance =
                rw (mine, p.events, p.handed, p.left)
                  (visible-nil base f.category waits
                    ∙ ap (visible base f.category)
                        (sym (take-append-drop updates_per_follow_cap waits))
                    ∙ visible-append base f.category (take updates_per_follow_cap waits)
                        (drop updates_per_follow_cap waits));
          }
      | inr other ↦
          let passes = fetch_updates-other e b b' m f db other i.found in
          record {
            row = f;
            followed = record {
              found = passes.0;
              one = omega (arith, fetch_updates-count e b b' m db, i.one);
              active = i.active;
              rising = rw passes.1 i.rising;
              mark = rw passes.1 i.mark;
            };
            category = refl;
            balance = rw (other, passes.1) (visible-nil base f.category waits);
          }
    ]
