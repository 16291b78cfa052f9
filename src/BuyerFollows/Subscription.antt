-- ===== src/BuyerFollows/Subscription.antt =====
-- A follow is a queue of the merchant's events (kiwi_catalog/services/buyer_follows.py,
-- kiwi_catalog/services/merchant_public_events.py).
use mathlib.Core.List.{append_assoc}
use kiwi_catalog.Prelude.{
  ℕ, zero, suc, ◌+◌, ◌*◌, ◌≤◌, ◌<◌, String, ◌≡◌, refl, sym, ap, ◌∙◌, subst, true, some, List, [],
  ◌∷◌, ◌++◌, ◌=ₛ◌, map, arith, eq_refl, All, length, take,
}
use kiwi_catalog.Prelude.Table.{find?, select, count}
use kiwi_catalog.BuyerFollows.{of_follow, fetch_updates, updates_per_follow_cap}
use kiwi_catalog.BuyerFollows.Delivery.{
  IsFollowed, Balanced, emit-Balanced, fetch-Balanced, visible-nil, visible-append,
}
use kiwi_catalog.BuyerFollows.Delivery.Calls.{
  emit, fetch, Call, time_of, at, serve, serve_all, published, handed, all_published, all_handed,
}
use kiwi_catalog.BuyerFollows.Fetches.{fetch_updates-Pulled, fetch_updates-count}
use kiwi_catalog.BuyerFollows.Pulls.{stream, waiting, visible, Pulled}
use kiwi_catalog.BuyerFollows.Rising.{Rising}
use kiwi_catalog.Prelude.Cuts.{drop, take-append-drop}
use kiwi_catalog.BuyerFollows.Store.{Event, Follow, Db, Env}

call-Balanced :
    (base : Env) (b m : String) (start : ℕ) (f : Follow) (c : Call) (db : Db)
    → start < time_of c
    → IsFollowed b m start f db
    → Balanced base b m start f c db
call-Balanced base b m start f (emit now id m' publication_id event_type payload) db h i =
    emit-Balanced base b m start f now id m' publication_id event_type payload db h i
call-Balanced base b m start f (fetch now b') db h i = fetch-Balanced base b m start f now b' db i

-- Two balances in a row make one.
balance_trans {ℓ} :
    {A : Type ℓ} (h1 h2 w0 w1 w2 p1 p2 : List A)
    → w0 ++ p1 ≡ h1 ++ w1
    → w1 ++ p2 ≡ h2 ++ w2
    → w0 ++ (p1 ++ p2) ≡ (h1 ++ h2) ++ w2
balance_trans h1 h2 w0 w1 w2 p1 p2 e1 e2 =
    sym (append_assoc w0 p1 p2)
    ∙ ap (λ xs. xs ++ p2) e1
    ∙ append_assoc h1 w1 p2
    ∙ ap (λ xs. h1 ++ xs) e2
    ∙ sym (append_assoc h1 h2 w2)

-- The queue: what the buyer wants of the events that wait.
abbrev pub queue : Env → String → Follow → Db → List Event
queue base m f db = visible base f.category (waiting m f.last_seen_at db.events)

run_balanced :
    (base : Env) (b m : String) (start : ℕ) (cs : List Call) (f : Follow) (db : Db)
    → All (λ c. start < time_of c) cs
    → IsFollowed b m start f db
    → (row : Follow) × (find? (of_follow b m) (serve_all base cs db).follows ≡ some row)
      × (row.category ≡ f.category)
      × (queue base m f db ++ visible base f.category (all_published base m cs db)
          ≡ all_handed base b m cs db ++ queue base m row (serve_all base cs db))
unfolding serve_all all_published all_handed
run_balanced base b m start [] f db later i =
    (f, i.found, refl, visible-nil base f.category (waiting m f.last_seen_at db.events))
run_balanced base b m start (c ∷ cs) f db later i =
    let step = call-Balanced base b m start f c db later.0 i in
    let (row, found, same, rest) =
      run_balanced base b m start cs step.row (serve base c db) later.1 step.followed in
    let rest' : visible base f.category (waiting m step.row.last_seen_at (serve base c db).events)
          ++ visible base f.category (all_published base m cs (serve base c db))
        ≡ all_handed base b m cs (serve base c db)
          ++ queue base m row (serve_all base cs (serve base c db)) =
      subst
        (λ k.
          visible base k (waiting m step.row.last_seen_at (serve base c db).events)
            ++ visible base k (all_published base m cs (serve base c db))
          ≡ all_handed base b m cs (serve base c db)
            ++ queue base m row (serve_all base cs (serve base c db)))
        step.category rest in
    (
      row,
      found,
      same ∙ step.category,
      rw
          (visible-append base f.category (published base m c db)
            (all_published base m cs (serve base c db)))
          (balance_trans (handed base b m c db) (all_handed base b m cs (serve base c db))
            (queue base m f db)
            (visible base f.category (waiting m step.row.last_seen_at (serve base c db).events))
            (queue base m row (serve_all base cs (serve base c db)))
            (visible base f.category (published base m c db))
            (visible base f.category (all_published base m cs (serve base c db))) step.balance
            rest'),
    )

-- A follow neither loses nor repeats an event. Let a buyer actively follow a merchant whose events
-- have rising times, and let merchants publish and buyers pull in any order, at times after the
-- follow's mark. Then what waited in the queue of the follow, and after it what the merchant has
-- published, is in this order exactly what the pulls have handed to the buyer, and after it what
-- waits at the end. The events are those that the buyer sees: each with its payload sanitised as it
-- is read, and those of the category that the buyer wants.
pub serve_all-delivers :
    (base : Env) (b m : String) (f : Follow) (db : Db)
    → find? (of_follow b m) db.follows ≡ some f
    → count (of_follow b m) db.follows ≤ 1
    → (f.status =ₛ "active") ≡ true
    → Rising (stream m db.events)
    → (cs : List Call) → All (λ c. f.last_seen_at < time_of c) cs
    → (row : Follow) × (find? (of_follow b m) (serve_all base cs db).follows ≡ some row)
      × (row.category ≡ f.category)
      × (queue base m f db ++ visible base f.category (all_published base m cs db)
          ≡ all_handed base b m cs db ++ queue base m row (serve_all base cs db))
serve_all-delivers base b m f db found one active rising cs later =
    run_balanced base b m f.last_seen_at cs f db later
      (record { found = found; one = one; active = active; rising = rising; mark = omega arith })

length-drop {ℓ} : {A : Type ℓ} (n k : ℕ) (xs : List A) → length xs ≤ n + k → length (drop n xs) ≤ k
length-drop zero k xs h = omega (arith, h)
length-drop (suc n) k [] h = omega arith
length-drop (suc n) k (x ∷ xs) h = length-drop n k xs (omega (arith, h))

-- The follow after a round of its buyer.
Pulled-IsFollowed :
    (base : Env) (b m : String) (start now : ℕ) (f : Follow) (db : Db)
    → (p : Pulled (at base now "") b m f db (fetch_updates (at base now "") b db))
    → IsFollowed b m start f db
    → IsFollowed b m start p.row (fetch_updates (at base now "") b db).1
Pulled-IsFollowed base b m start now f db p i = record {
  found = p.found;
  one = omega (arith, fetch_updates-count (at base now "") b b m db, i.one);
  active = rw p.status i.active;
  rising = rw p.events i.rising;
  mark = rw p.events (omega (arith, p.mark, i.mark));
}

empty_of_length : (xs : List Event) → length xs ≤ 0 → xs ≡ []
empty_of_length [] h = refl
empty_of_length (x ∷ xs) h = absurd (omega (arith, h))

abbrev pub pulls : String → List ℕ → List Call
pulls b times = map (λ t. fetch t b) times

drained :
    (base : Env) (b m : String) (start : ℕ) (times : List ℕ) (f : Follow) (db : Db)
    → IsFollowed b m start f db
    → length (waiting m f.last_seen_at db.events) ≤ length times * updates_per_follow_cap
    → all_handed base b m (pulls b times) db ≡ queue base m f db
unfolding all_handed handed serve
drained base b m start [] f db i few =
    let empty = empty_of_length (waiting m f.last_seen_at db.events) few in
    sym (ap (visible base f.category) empty ∙ (unfold select in refl))
drained base b m start (t ∷ times) f db i few =
    let e = at base t "" in
    let waits = waiting m f.last_seen_at db.events in
    let p = fetch_updates-Pulled e b m f db i.found i.one i.active i.rising in
    let next = (fetch_updates e b db).1 in
    let shorter : length (waiting m p.row.last_seen_at next.events)
        ≤ length times * updates_per_follow_cap =
      rw (p.events, p.left)
        (length-drop updates_per_follow_cap (length times * updates_per_follow_cap) waits
          (omega (arith, few))) in
    let rest =
      drained base b m start times p.row next (Pulled-IsFollowed base b m start t f db p i)
        shorter in
    let rest' : all_handed base b m (pulls b times) next
        ≡ visible base f.category (drop updates_per_follow_cap waits) =
      rest ∙ (rw (p.category, p.events, p.left) refl) in
    rw (eq_refl b, p.handed, rest')
      (sym (
          visible-append base f.category (take updates_per_follow_cap waits)
            (drop updates_per_follow_cap waits))
        ∙ ap (visible base f.category) (take-append-drop updates_per_follow_cap waits))

-- Enough pulls deliver everything: however many events of the merchant wait for an active follow, a
-- buyer who pulls at least once for every hundred of them is handed all that are of the wanted
-- category, sanitised as they are read, each once and in the order of their times. The merchant's events have rising times and
-- the follow is the only row of its buyer and merchant.
pub pulls-drain :
    (base : Env) (b m : String) (f : Follow) (db : Db)
    → find? (of_follow b m) db.follows ≡ some f
    → count (of_follow b m) db.follows ≤ 1
    → (f.status =ₛ "active") ≡ true
    → Rising (stream m db.events)
    → (times : List ℕ)
    → length (waiting m f.last_seen_at db.events) ≤ length times * updates_per_follow_cap
    → all_handed base b m (pulls b times) db ≡ queue base m f db
pulls-drain base b m f db found one active rising times few =
    drained base b m f.last_seen_at times f db
      (record { found = found; one = one; active = active; rising = rising; mark = omega arith })
      few
