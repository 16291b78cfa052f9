-- ===== src/Listings/Service/Steps.antt =====
-- The steps of a publication that succeeds, and what it leaves in the table
-- (kiwi_catalog/listings/service.py).
use text.Mathlib.Text.{starts_with}
use kiwi_catalog.Result.{Error}
use kiwi_catalog.Listings.Entitlements.Admission.{admission_decided}
use kiwi_catalog.Prelude.{
  ℕ, String, ◌≡◌, inl, inr, refl, subst, ◌∙◌, Bool, true, false, some, strip, arith, All, ◌==◌,
  Option, ◌=ₛ◌, truthy, ◌&&◌, not, eq_refl, Option-cases, Bool-cases,
}
use kiwi_catalog.Prelude.Table.{find?, update}
use kiwi_catalog.Prelude.Table.Keyed.{Distinct, find?-by_key}
use kiwi_catalog.Prelude.Table.Laws.{find?-All, find?-update}
use kiwi_catalog.Action.{Outcome, done, raised, Outcome-cases, Checks}
use kiwi_catalog.Listings.Store.{Listing, Canonical, Db}
use kiwi_catalog.Listings.Repository.{
  has_id, get_listing, get_listing_by_upsert_key, has_upsert_key, new_row, refreshed,
  insert_listing, refused,
}
use kiwi_catalog.Listings.Service.{
  Setting, update_existing, find_existing, retry, store_listing, publish_listing, check_capacity,
  release, released, quarantine_hold, hold_of, first_set, require_owner_active, owner_agent, barred,
  state_of_listing,
}
use kiwi_catalog.Listings.Service.Stored.{
  Stored, digest, until, update_existing-shape, update_existing-Stored, insert_listing-Stored,
}

abbrev pub IsStripped : Listing → Type 0
IsStripped r = strip r.listing_id ≡ r.listing_id

-- The primary keys: no two listings share one, and none has space around it.
pub record IsKeyed (db : Db) : Type 0 where
  pub distinct : Distinct (λ (r : Listing). r.listing_id) db.listings
  pub stripped : All IsStripped db.listings

-- a search by the upsert key finds a row of the table
pub find_existing-All :
    (P : Listing → Type 0) (c : Canonical) (db : Db) (row : Listing)
    → All P db.listings
    → find_existing c db ≡ some row
    → P row
unfolding find_existing get_listing_by_upsert_key
find_existing-All P c db row all h =
    elim (Option-cases (first_set c.source_product_ref c.publisher_listing_key)) [
      | inl no_key ↦ absurd (ground arith)
      | inr (key, set) ↦
          find?-All P (has_upsert_key c.listing_type c.owner_agent_id key) db.listings row all
            (ground arith)
    ]

pub require_owner_active-Checks :
    (owner merchant : String) (db : Db) → Checks (require_owner_active owner merchant) db
unfolding require_owner_active
require_owner_active-Checks owner merchant db = elim (Option-cases (owner_agent owner db)) [
  | inl absent ↦ inr (Error.not_found, ground arith)
  | inr (a, found) ↦ elim (Bool-cases (barred a)) [
    | inl bad ↦ inr (Error.permission_denied, ground arith)
    | inr good ↦ elim (Bool-cases (truthy a.merchant_id && not (a.merchant_id =ₛ merchant))) [
      | inl other ↦ inr (Error.permission_denied, ground arith)
      | inr own ↦ inl (ground arith)
    ]
  ]
]

check_capacity-Checks :
    (actor merchant : String) (existing : Option Listing) (db : Db)
    → Checks (check_capacity actor merchant existing) db
unfolding check_capacity
check_capacity-Checks actor merchant existing db =
    elim (Bool-cases (starts_with actor "runtime:")) [
      | inl asked ↦ elim (admission_decided merchant (state_of_listing existing) db) [
        | inl (passed, _) ↦ inl (rw asked passed)
        | inr (refusal, _) ↦ inr (Error.permission_denied, rw asked refusal)
      ]
      | inr free ↦ inl (rw free)
    ]

pub find_existing-by_id :
    (c : Canonical) (db : Db) (row : Listing)
    → IsKeyed db
    → find_existing c db ≡ some row
    → find? (has_id row.listing_id) db.listings ≡ some row
unfolding find_existing get_listing_by_upsert_key
find_existing-by_id c db row keyed h =
    elim (Option-cases (first_set c.source_product_ref c.publisher_listing_key)) [
      | inl no_key ↦ absurd (ground arith)
      | inr (key, set) ↦
          find?-by_key (λ r. r.listing_id) (has_upsert_key c.listing_type c.owner_agent_id key)
            db.listings row keyed.distinct (ground arith)
    ]

pub insert_listing-raised :
    (id : String) (c : Canonical) (d : String) (until now : ℕ) (db : Db) {err : Error} {s : Db}
    → insert_listing id c d until now db ≡ raised err s
    → s ≡ db
unfolding insert_listing
insert_listing-raised id c d until now db h =
    elim (Bool-cases (refused (new_row db.next_id id c d until now) db.listings)) [
      | inl full ↦ ground arith
      | inr free ↦ absurd (ground arith)
    ]

-- whether the insertion went through or lost the race
retry-Stored :
    (e : Setting) (c : Canonical) (db : Db)
    → IsKeyed db
    → (o : Outcome Db Listing) → insert_listing e.fresh_id c (digest e c) (until e c) e.now db ≡ o
    → {row : Listing} {created : Bool} {db' : Db} → retry e c o ≡ done (row, created) db'
    → Stored e c row db'
retry-Stored e c db keyed (Outcome.done r s) made {row} {created} {db'} h =
    let stored : Stored e c r s = insert_listing-Stored e c db made in
    let p : r ≡ row = ground arith in
    let q : s ≡ db' = ground arith in
    subst (λ z. Stored e c z db') p (subst (λ z. Stored e c r z) q stored)
retry-Stored e c db keyed (Outcome.raised err s) made h =
    let same : s ≡ db = insert_listing-raised _ c _ _ _ db made in
    elim (Option-cases (find_existing c s)) [
      | inl lost ↦ absurd (ground arith)
      | inr (raced, found) ↦
          let strips : strip raced.listing_id ≡ raced.listing_id =
            find_existing-All IsStripped c s raced (rw same keyed.stripped) found in
          update_existing-Stored e c raced s strips (rw (found, retry) at h)
    ]

module _ (e : Setting) (c : Canonical) (db : Db) where
  -- the checks at the head of a publication write nothing
  pub publish_listing-steps :
      (actor : String) {row : Listing} {created : Bool} {db' : Db}
      → publish_listing e c actor db ≡ done (row, created) db'
      → (check_capacity actor c.merchant_id (find_existing c db) db ≡ done tt db)
        × (stored : Listing × Bool) × (mid : Db) × (store_listing e c (find_existing c db) db
            ≡ done stored mid)
        × (release (hold_of (find_existing c db) == quarantine_hold) stored mid
            ≡ done (row, created) db')
  unfolding publish_listing
  publish_listing-steps actor h =
      elim (require_owner_active-Checks c.owner_agent_id c.merchant_id db) [
        | inr (_, stop) ↦ absurd (ground arith)
        | inl own ↦ elim (Bool-cases (hold_of (find_existing c db) == 1)) [
          | inl held ↦ absurd (ground arith)
          | inr free ↦ elim (check_capacity-Checks actor c.merchant_id (find_existing c db) db) [
            | inr (_, stop) ↦ absurd (ground arith)
            | inl room ↦ elim (Outcome-cases (store_listing e c (find_existing c db) db)) [
              | inr (_, _, stop) ↦ absurd (ground arith)
              | inl (stored, mid, st) ↦ (room, stored, mid, st, ground arith)
            ]
          ]
        ]
      ]

  -- The row that is stored, before a quarantine is released.
  pub store_listing-Stored :
      IsKeyed db
      → IsKeyed (e.others db)
      → {row : Listing} {created : Bool} {db' : Db}
      → store_listing e c (find_existing c db) db ≡ done (row, created) db'
      → Stored e c row db'
  unfolding store_listing
  store_listing-Stored keyed keyed' h = elim (Option-cases (find_existing c db)) [
    | inr (old, found) ↦
        update_existing-Stored e c old db
          (find_existing-All IsStripped c db old keyed.stripped found) (rw found at h)
    | inl new ↦ retry-Stored e c (e.others db) keyed' _ refl (rw new at h)
  ]

-- A row that is released from its quarantine is stored as it is returned.
release-Stored :
    (e : Setting) (c : Canonical) (stored : Listing) (b : Bool) (mid : Db)
    → Stored e c stored mid
    → stored.governance_hold ≡ quarantine_hold
    → {row : Listing} {created : Bool} {db' : Db}
    → release true (stored, b) mid ≡ done (row, created) db'
    → Stored e c row db'
unfolding release
release-Stored e c stored b mid s held {row} {created} {db'} h =
    let hit : Listing → Bool =
      λ r. has_id stored.listing_id r && r.governance_hold == quarantine_hold in
    let after : db' ≡ record mid { listings = update hit released mid.listings } = ground arith in
    let same : row ≡ released stored = ground arith in
    let found : find? (has_id stored.listing_id) (update hit released mid.listings)
        ≡ some (released stored) =
      find?-update (has_id stored.listing_id) hit released mid.listings (λ x _. refl)
      ∙ rw s.in_table (ground (arith, eq_refl stored.listing_id)) in
    record {
      in_table = rw (same, after) found;
      active = ground arith;
      fresh = ground (arith, s.fresh);
      content = ground (arith, s.content);
      product = ground (arith, s.product);
      key = ground (arith, s.key);
      digest = ground (arith, s.digest);
      until = ground (arith, s.until);
    }

-- the row that is updated is the one that was found, so its hold is still there
stored-hold :
    (e : Setting) (c : Canonical) (db : Db) (old : Listing)
    → IsKeyed db
    → find_existing c db ≡ some old
    → {row : Listing} {created : Bool} {mid : Db}
    → update_existing e c old db ≡ done (row, created) mid
    → row.governance_hold ≡ old.governance_hold
unfolding refreshed get_listing
stored-hold e c db old keyed found h =
    let (r, read, same, _, _) = update_existing-shape e c old db h in
    let strips : strip old.listing_id ≡ old.listing_id =
      find_existing-All IsStripped c db old keyed.stripped found in
    let by_id : find? (has_id old.listing_id) db.listings ≡ some r = rw strips at read in
    ground (arith, find_existing-by_id c db old keyed found)

module _ (e : Setting) (c : Canonical) (db : Db) (keyed : IsKeyed db)
    (keyed' : IsKeyed (e.others db)) where
  plain-Stored :
      (stored : Listing) (b : Bool) (mid : Db)
      → Stored e c stored mid
      → {row : Listing} {created : Bool} {db' : Db}
      → release false (stored, b) mid ≡ done (row, created) db'
      → Stored e c row db'
  unfolding release
  plain-Stored stored b mid s {row} {created} {db'} h =
      let p : stored ≡ row = ground arith in
      let q : mid ≡ db' = ground arith in
      subst (λ z. Stored e c z db') p (subst (λ z. Stored e c stored z) q s)

  held-Stored :
      (stored : Listing) (b : Bool) (mid : Db)
      → store_listing e c (find_existing c db) db ≡ done (stored, b) mid
      → hold_of (find_existing c db) ≡ quarantine_hold
      → {row : Listing} {created : Bool} {db' : Db}
      → release true (stored, b) mid ≡ done (row, created) db'
      → Stored e c row db'
  unfolding store_listing
  held-Stored stored b mid st held h = elim (Option-cases (find_existing c db)) [
    | inl new ↦ absurd (ground arith)
    | inr (old, found) ↦
        let kept : stored.governance_hold ≡ old.governance_hold =
          stored-hold e c db old keyed found (rw found at st) in
        release-Stored e c stored b mid (store_listing-Stored e c db keyed keyed' st) (ground arith)
          h
  ]

  released_or_not :
      (stored : Listing) (b : Bool) (mid : Db)
      → store_listing e c (find_existing c db) db ≡ done (stored, b) mid
      → {row : Listing} {created : Bool} {db' : Db}
      → release (hold_of (find_existing c db) == quarantine_hold) (stored, b) mid
        ≡ done (row, created) db'
      → Stored e c row db'
  released_or_not stored b mid st h =
      elim (Bool-cases (hold_of (find_existing c db) == quarantine_hold)) [
        | inl held ↦ held-Stored stored b mid st (ground arith) (rw held at h)
        | inr plain ↦
            plain-Stored stored b mid (store_listing-Stored e c db keyed keyed' st) (rw plain at h)
      ]

-- What a publication that succeeds returns is the row that the table then holds under its id: it is
-- active and fresh, it has the content, the keys, the digest and the time limit of the payload, and
-- that also where a lost race or a content quarantine was in the way.
pub publish_listing-Stored :
    (e : Setting) (c : Canonical) (actor : String) (db : Db)
    → IsKeyed db
    → IsKeyed (e.others db)
    → {row : Listing} {created : Bool} {db' : Db}
    → publish_listing e c actor db ≡ done (row, created) db'
    → Stored e c row db'
publish_listing-Stored e c actor db keyed keyed' h =
    let (_, (stored, b), mid, st, end) = publish_listing-steps e c db actor h in
    released_or_not e c db keyed keyed' stored b mid st end
