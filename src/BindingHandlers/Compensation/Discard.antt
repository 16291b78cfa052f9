-- ===== src/BindingHandlers/Compensation/Discard.antt =====
-- The discard of a staged version by `_invalidate_staged_best_effort`
-- (kiwi_catalog/api/handlers/cloud_binding.py).
use kiwi_catalog.Prelude.{
  ℕ, ◌≤◌, String, ◌≡◌, refl, ◌⊎◌, inl, inr, true, false, List, ◌=ₛ◌, arith, eq_iff, Bool-cases,
  Option-cases,
}
use kiwi_catalog.Prelude.Table.{find?, update, count}
use kiwi_catalog.Prelude.Table.Laws.{
  count-update_none, find?-count_zero, find?-true, find?-update, count-le,
}
use kiwi_catalog.Prelude.Table.Found.{find?-update_other, count-narrower}
use kiwi_catalog.Action.{Outcome-cases, db_session}
use kiwi_catalog.RuntimeAccess.{is_version, with_status, config_row}
use kiwi_catalog.RuntimeAccess.Changes.{pending_version, invalidated, invalidate_runtime_access}
use kiwi_catalog.RuntimeAccess.Store.{Config, Access, Env as AccessEnv}
use kiwi_catalog.BindingRequests.{access_of, settings}
use kiwi_catalog.BindingRequests.Store.{Db as Core, Env as CoreEnv}
use kiwi_catalog.BindingHandlers.Updates.{discard}

-- The primary key of the configurations.
abbrev pub IsKeyed : List Config → Type 0
IsKeyed rows = (a : String) (v : ℕ) → count (is_version a v) rows ≤ 1

pub pending_apart :
    (s : String) → (s =ₛ "pending") ≡ true → ((s =ₛ "invalid") ≡ false) × ((s =ₛ "active") ≡ false)
pending_apart s h =
    let same : s ≡ "pending" = ground (arith, h, eq_iff s "pending") in rw same (refl, refl)

-- What an invalidation does to the rows: nothing where no row of the version is pending.
pub invalidate-cases :
    (e : AccessEnv) (a : String) (v : ℕ) (db : Access)
    → count (is_version a v) db.configs ≤ 1
    → ((db_session (invalidate_runtime_access e a v) db).configs ≡ db.configs)
        × (count (pending_version a v) db.configs ≡ 0)
      ⊎ ((db_session (invalidate_runtime_access e a v) db).configs
          ≡ update (pending_version a v) (invalidated e.now) db.configs)
unfolding db_session invalidate_runtime_access config_row
invalidate-cases e a v db one = elim (Option-cases (find? (is_version a v) db.configs)) [
  | inl absent ↦ inl (
    ground (arith, absent),
    ground (
      arith,
      find?-count_zero (is_version a v) db.configs absent,
      count-le (pending_version a v) (is_version a v) db.configs (λ x g. ground arith),
    ),
  )
  | inr (row, found) ↦ elim (Bool-cases (row.status =ₛ "pending")) [
    | inl waits ↦ inr (
        ground (
          arith,
          found,
          waits,
          pending_apart row.status waits,
          find?-true (is_version a v) db.configs row found,
          find?-update (is_version a v) (pending_version a v) (invalidated e.now) db.configs
              (λ x _. refl),
        ))
    | inr other ↦ inl (
      ground (arith, found, other),
      count-narrower (is_version a v) (pending_version a v) db.configs row (λ x g. ground arith) one
          found (ground (arith, other)),
    )
  ]
]

pub active_not_pending :
    (a : String) (v : ℕ) (x : Config)
    → pending_version a v x ≡ true
    → with_status a "active" x ≡ false
active_not_pending a v x g =
    let waits : (x.status =ₛ "pending") ≡ true = ground (arith, g) in
    ground (arith, pending_apart x.status waits)

pub discard-configs :
    (e : CoreEnv) (a : String) (v : ℕ) (db : Core)
    → (discard e a v db).configs
      ≡ (db_session (invalidate_runtime_access (settings e) a v) (access_of db)).configs
unfolding discard db_session
discard-configs e a v db =
    elim (Outcome-cases (invalidate_runtime_access (settings e) a v (access_of db))) [
      | inl (view, t, h) ↦ ground (arith, h)
      | inr (error, t, h) ↦ ground (arith, h)
    ]

pub waiting_not_active :
    (a : String) (x : Config) → with_status a "pending" x ≡ true → with_status a "active" x ≡ false
waiting_not_active a x g =
    let waits : (x.status =ₛ "pending") ≡ true = ground (arith, g) in
    ground (arith, pending_apart x.status waits)

-- After a discard no row of the version is pending, and the active rows are the same.
pub discarded :
    (e : CoreEnv) (a : String) (v : ℕ) (db : Core)
    → IsKeyed db.configs
    → (count (pending_version a v) (discard e a v db).configs ≡ 0)
      × (find? (with_status a "active") (discard e a v db).configs
          ≡ find? (with_status a "active") db.configs)
discarded e a v db keyed =
    let rows : (discard e a v db).configs
        ≡ (db_session (invalidate_runtime_access (settings e) a v) (access_of db)).configs =
      discard-configs e a v db in
    elim (invalidate-cases (settings e) a v (access_of db) (keyed a v)) [
      | inl (kept, gone) ↦ ground (arith, rows, kept, gone)
      | inr changed ↦ (
        ground (
          arith,
          rows,
          changed,
          count-update_none (pending_version a v) (pending_version a v) (invalidated e.now)
              db.configs (λ x g. ground arith) (λ x g. g),
        ),
        ground (
          arith,
          rows,
          changed,
          find?-update_other (with_status a "active") (pending_version a v) (invalidated e.now)
              db.configs (λ x g. (active_not_pending a v x g, ground arith)),
        ),
      )
    ]
