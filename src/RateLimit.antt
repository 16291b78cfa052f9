-- ===== src/RateLimit.antt =====
-- kiwi_catalog/services/rate_limit.py: counting requests in fixed windows, and the two functions
-- that enforce a budget with it (kiwi_catalog/api/idempotency.py and
-- kiwi_catalog/agent_catalog/sqlite_repository.py). Times are whole seconds since the epoch.
pub mod Budget
use kiwi_catalog.Prelude.{
  ℕ, suc, ◌-◌, ◌*◌, ◌%◌, String, Bool, true, not, ◌&&◌, ◌||◌, Option, none, some, List, ◌==◌, ◌=ₛ◌,
  ltb, if◌then◌else◌, ℤ, pos, negsuc,
}
use kiwi_catalog.Prelude.Table.{find?, update, insert, delete}
use kiwi_catalog.Result.{Error}
use kiwi_catalog.Action.{Action, Outcome, ◌>>=◌, raise_if}

-- A row of `agent_catalog_write_rate_limits` or of `agent_catalog_register_limits`.
pub record Window : Type 0 where
  pub key : String
  pub window_start : ℕ
  pub request_count : ℕ
  pub updated_at : ℕ

-- `SQLiteRateLimitBackend`: its table and `_consume_count`.
pub record Backend : Type 0 where
  pub rows : List Window
  pub consume_count : ℕ

-- `_RATE_LIMIT_RETENTION_DAYS` in seconds
abbrev pub retention : ℕ
retention = 7 * 86400

-- `_RATE_LIMIT_PRUNE_EVERY`
abbrev pub prune_every : ℕ
prune_every = 128

abbrev pub is_bucket : String → ℕ → Window → Bool
is_bucket key window_start r = r.key =ₛ key && r.window_start == window_start

abbrev pub expired : ℕ → ℕ → Window → Bool
expired now keep r = ltb r.window_start (now - retention) && not (r.window_start == keep)

unfoldable pub prune_expired_windows : ℕ → Option ℕ → List Window → List Window
prune_expired_windows now none rows = delete (λ r. ltb r.window_start (now - retention)) rows
prune_expired_windows now (some keep) rows = delete (expired now keep) rows

abbrev pub counted : ℕ → Window → Window
counted now r = record r { request_count = suc r.request_count; updated_at = now }

-- The `insert … on conflict do update … where request_count < ?`, and whether it changed a row.
unfoldable pub upsert : ℕ → String → ℕ → ℕ → List Window → Bool × List Window
upsert now key window_start limit rows = elim (find? (is_bucket key window_start) rows) [
  | none ↦ (
    true,
    insert (record { key = key; window_start = window_start; request_count = 1; updated_at = now })
        rows,
  )
  | some r ↦ (
    ltb r.request_count limit,
    update (λ x. is_bucket key window_start x && ltb x.request_count limit) (counted now) rows,
  )
]

-- The first consumption of a backend prunes, and each 128th.
abbrev pub prunes : ℕ → Bool
prunes n = n == 1 || n % prune_every == 0

unfoldable pub consume : ℕ → String → ℕ → ℕ → Backend → Bool × Backend
unfolding upsert prune_expired_windows
consume now key window_start limit backend =
    let n = suc backend.consume_count in
    let kept =
      if prunes n
      then prune_expired_windows now (some window_start) backend.rows
      else backend.rows in
    let (under, rows) = upsert now key window_start limit kept in
    (under, record { rows = rows; consume_count = n })

unfoldable pub fixed_window_start : ℕ → ℕ → ℕ
fixed_window_start current window_seconds = current - current % window_seconds

-- the instant that the window is taken of: the caller's, or the clock's
abbrev instant : ℕ → Option ℕ → ℕ
instant now none = now
instant now (some current) = current

unfoldable pub enforce_rate_limit : ℕ → String → ℤ → ℕ → Option ℕ → Action Backend Unit
enforce_rate_limit now key (negsuc n) window_seconds current backend = Outcome.done tt backend
enforce_rate_limit now key (pos limit) window_seconds current backend =
    if limit == 0
    then Outcome.done tt backend
    else let (under, backend') =
        consume now key (fixed_window_start (instant now current) window_seconds) limit backend in
      raise_if (not under) Error.rate_limit backend'

-- A call with a backend of its own: what it leaves in the table.
abbrev with_backend : Outcome Backend Unit → Outcome (List Window) Unit
with_backend (Outcome.done a b) = Outcome.done a b.rows
with_backend (Outcome.raised e b) = Outcome.raised e b.rows

-- `CATALOG_WRITE_RATE_LIMIT_WINDOW_SECONDS`
abbrev pub write_window : ℕ
write_window = 60

unfoldable pub enforce_agent_catalog_rate_limit :
    ℕ → String → ℤ → Option ℕ → Action (List Window) Unit
enforce_agent_catalog_rate_limit now actor_key limit current rows = with_backend (
    enforce_rate_limit now actor_key limit write_window current
      (record { rows = rows; consume_count = 0 }))
