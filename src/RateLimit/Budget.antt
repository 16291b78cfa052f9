-- ===== src/RateLimit/Budget.antt =====
-- How many requests a window lets pass (kiwi_catalog/services/rate_limit.py).
use kiwi_catalog.Prelude.{
  ℕ, ◌+◌, ◌-◌, ◌≤◌, ◌<◌, min, String, ◌≡◌, refl, ◌⊎◌, inl, inr, Bool, true, false, ◌&&◌, none, some,
  List, [], ◌∷◌, ◌==◌, ◌=ₛ◌, ltb, if◌then◌else◌, pos, All, arith, eq_iff, Bool-cases, Option-cases,
}
use kiwi_catalog.Prelude.Table.{find?}
use kiwi_catalog.Prelude.Table.Laws.{
  find?-update, find?-insert_absent, find?-insert_found, find?-delete_other, find?-true,
}
use kiwi_catalog.Action.{Outcome, done, raised, db_session}
use kiwi_catalog.RateLimit.{
  Window, retention, is_bucket, expired, counted, upsert, prune_expired_windows, consume,
  fixed_window_start, enforce_rate_limit, write_window, enforce_agent_catalog_rate_limit,
}

-- What a bucket has used of its budget.
unfoldable pub used : String → ℕ → List Window → ℕ
used key window rows = elim (find? (is_bucket key window) rows) [
  | none ↦ 0
  | some r ↦ r.request_count
]

-- A write request: who makes it, and when.
pub record Request : Type 0 where
  pub actor : String
  pub at : ℕ

abbrev pub in_bucket : String → ℕ → Request → Bool
in_bucket key window q = q.actor =ₛ key && fixed_window_start q.at write_window == window

abbrev pub passed : Outcome (List Window) Unit → Bool
passed (done a s) = true
passed (raised e s) = false

unfoldable pub serve : ℕ → Request → List Window → Outcome (List Window) Unit
serve limit q = enforce_agent_catalog_rate_limit q.at q.actor (pos limit) none

-- The requests of one bucket that pass in a run, where each is served in a session of its own.
unfoldable pub admitted : ℕ → String → ℕ → List Request → List Window → ℕ
admitted limit key window [] rows = 0
admitted limit key window (q ∷ qs) rows =
    (if in_bucket key window q && passed (serve limit q rows) then 1 else 0)
    + admitted limit key window qs (db_session (serve limit q) rows)

unfoldable pub asked : String → ℕ → List Request → ℕ
asked key window [] = 0
asked key window (q ∷ qs) = (if in_bucket key window q then 1 else 0) + asked key window qs

-- Pruning spares the bucket that is being consumed, and all that are young enough.
used-prune :
    (now keep : ℕ) (key : String) (window : ℕ) (rows : List Window)
    → (now ≤ window + retention) ⊎ (keep ≡ window)
    → used key window (prune_expired_windows now (some keep) rows) ≡ used key window rows
unfolding used prune_expired_windows
used-prune now keep key window rows h =
    rw
      (
        used,
        prune_expired_windows,
        find?-delete_other (is_bucket key window) (expired now keep) rows (λ x k. ground arith),
      )
      refl

-- A consumption counts in its own bucket, where there is room.
used-upsert_own :
    (now : ℕ) (key : String) (window limit : ℕ) (rows : List Window)
    → 0 < limit
    → ((upsert now key window limit rows).0 ≡ ltb (used key window rows) limit)
      × (used key window (upsert now key window limit rows).1
          ≡ used key window rows + (if ltb (used key window rows) limit then 1 else 0))
unfolding used upsert
used-upsert_own now key window limit rows room =
    let new : Window = record {
      key = key;
      window_start = window;
      request_count = 1;
      updated_at = now;
    } in
    elim (Option-cases (find? (is_bucket key window) rows)) [
      | inl absent ↦
          ground (arith, find?-insert_absent (is_bucket key window) new rows absent, eq_iff key key)
      | inr (r, found) ↦ ground (
        arith,
        find?-true (is_bucket key window) rows r found,
        find?-update (is_bucket key window)
            (λ x. is_bucket key window x && ltb x.request_count limit) (counted now) rows
            (λ x h. refl),
      )
    ]

-- And in no other.
used-upsert_other :
    (now : ℕ) (key : String) (window limit : ℕ) (key' : String) (window' : ℕ) (rows : List Window)
    → (key' =ₛ key && window' == window) ≡ false
    → used key window (upsert now key' window' limit rows).1 ≡ used key window rows
unfolding used upsert
used-upsert_other now key window limit key' window' rows apart =
    let new : Window = record {
      key = key';
      window_start = window';
      request_count = 1;
      updated_at = now;
    } in
    let moved =
      find?-update (is_bucket key window)
        (λ x. is_bucket key' window' x && ltb x.request_count limit) (counted now) rows
        (λ x h. refl) in
    elim (Option-cases (find? (is_bucket key window) rows)) [
      | inl absent ↦
          ground (arith, find?-insert_absent (is_bucket key window) new rows absent, moved)
      | inr (x, here) ↦ ground (
        arith,
        find?-insert_found (is_bucket key window) new rows x here,
        find?-true (is_bucket key window) rows x here,
        moved,
        eq_iff x.key key',
        eq_iff x.key key,
        eq_iff key' key,
      )
    ]

-- The table that a request's own pruning leaves.
abbrev pruned : Request → List Window → List Window
pruned q rows = prune_expired_windows q.at (some (fixed_window_start q.at write_window)) rows

serve-own :
    (limit : ℕ) (q : Request) (key : String) (window : ℕ) (rows : List Window)
    → 0 < limit
    → in_bucket key window q ≡ true
    → (passed (serve limit q rows) ≡ ltb (used key window rows) limit)
      × (used key window (db_session (serve limit q) rows)
          ≡ used key window rows + (if ltb (used key window rows) limit then 1 else 0))
unfolding serve enforce_agent_catalog_rate_limit enforce_rate_limit consume db_session
serve-own limit q key window rows room own =
    let start = fixed_window_start q.at write_window in
    ground (
      arith,
      eq_iff q.actor key,
      used-upsert_own q.at q.actor start limit (pruned q rows) room,
      used-prune q.at start q.actor start rows (inr refl),
    )

serve-other :
    (limit : ℕ) (q : Request) (key : String) (window : ℕ) (rows : List Window)
    → 0 < limit
    → q.at ≤ window + retention
    → in_bucket key window q ≡ false
    → used key window (db_session (serve limit q) rows) ≡ used key window rows
unfolding serve enforce_agent_catalog_rate_limit enforce_rate_limit consume db_session
serve-other limit q key window rows room young apart =
    let start = fixed_window_start q.at write_window in
    ground (
      arith,
      used-upsert_other q.at key window limit q.actor start (pruned q rows) apart,
      used-prune q.at start key window rows (inl young),
    )

-- Of the write requests that one actor makes in one minute, exactly as many pass as its budget has
-- left, or all of them where they are fewer: whatever other actors and other minutes are served in
-- between, and however often old windows are pruned on the way, as long as no request of the run
-- comes more than seven days after that minute. The bucket has not used more than the positive
-- limit before.
pub admitted_exactly :
    (limit : ℕ) (key : String) (window : ℕ) (qs : List Request) (rows : List Window)
    → 0 < limit
    → All (λ q. q.at ≤ window + retention) qs
    → used key window rows ≤ limit
    → admitted limit key window qs rows ≡ min (asked key window qs) (limit - used key window rows)
unfolding admitted asked
admitted_exactly limit key window [] rows room young fits = ground arith
admitted_exactly limit key window (q ∷ qs) rows room young fits =
    let after = db_session (serve limit q) rows in
    elim (Bool-cases (in_bucket key window q)) [
      | inl own ↦
          let (answer, counted) = serve-own limit q key window rows room own in
          let rest =
            admitted_exactly limit key window qs after room young.1 (ground (arith, counted)) in
          rw (own, answer, rest, counted) (ground arith)
      | inr other ↦
          let same = serve-other limit q key window rows room young.0 other in
          let rest = admitted_exactly limit key window qs after room young.1 (rw same fits) in
          rw (other, rest, same) (omega arith)
    ]
