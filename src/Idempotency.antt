-- ===== src/Idempotency.antt =====
-- kiwi_catalog/api/idempotency.py: the ledger of write requests, and the five steps that the write
-- handlers of kiwi_catalog/api/handlers/listings.py take around their work: replay, rate limit,
-- claim, work and completion, with the claim cleared where the work fails.
pub mod Ledger
pub mod Replay
use Prim.Native.Nat.{◌-◌}
use kiwi_catalog.Prelude.{
  ℕ, ◌%◌, String, Bool, true, false, not, ◌&&◌, Option, none, some, List, ◌==◌, ◌=ₛ◌, ltb, is_some,
  truthy, if◌then◌else◌, ℤ,
}
use kiwi_catalog.Prelude.Table.{find?, update, insert, delete}
use kiwi_catalog.Result.{Error}
use kiwi_catalog.Action.{Action, Outcome, ◌>>=◌, ◌>>◌, pure, modify}
use kiwi_catalog.RateLimit.{Window, retention, enforce_agent_catalog_rate_limit}

-- A response: its key `idempotent` and the rest. `ok_only` is the `{"ok": True}` that stands for a
-- stored text which is no JSON object, `empty` the `{}` that stands for one which is no JSON.
pub data Body {ℓ} (R : Type ℓ) : Type ℓ where
  full : R → Body R
  ok_only empty : Body R

pub record Response {ℓ} (R : Type ℓ) : Type ℓ where
  pub body : Body R
  pub idempotent : Bool

-- What `decode_json(row["response_json"], {})` meets.
pub data Stored {ℓ} (R : Type ℓ) : Type ℓ where
  object : Response R → Stored R
  no_object malformed : Stored R

-- A row of `agent_catalog_write_idempotency`.
pub record Claim {ℓ} (R : Type ℓ) : Type ℓ where
  pub endpoint : String
  pub actor_key : String
  pub idempotency_key : String
  pub request_hash : String
  pub status : String
  pub response_json : Stored R
  pub created_at : ℕ
  pub updated_at : ℕ

-- The tables that a write handler uses: the ledger, the windows, and those of its work.
pub record Site {ℓ} (R S : Type ℓ) : Type ℓ where
  pub claims : List (Claim R)
  pub windows : List Window
  pub store : S

-- A request: where it goes, who makes it, the key and the hash of its content.
pub record Call : Type 0 where
  pub endpoint : String
  pub actor_key : String
  pub idempotency_key : String
  pub request_hash : String

-- What a request meets: the time, the budget of the deployment, and the process-wide
-- `_IDEMPOTENCY_COMPLETION_COUNT` when it completes.
pub record Moment : Type 0 where
  pub now : ℕ
  pub budget : ℤ
  pub completions : ℕ

module _ {ℓ} {R : Type ℓ} where
  abbrev pub is_claim : Call → Claim R → Bool
  is_claim c r =
      r.endpoint =ₛ c.endpoint
      && r.actor_key =ₛ c.actor_key
      && r.idempotency_key =ₛ c.idempotency_key

  abbrev pub is_request : Call → Claim R → Bool
  is_request c r = is_claim c r && r.request_hash =ₛ c.request_hash

  abbrev pub decoded : Stored R → Response R
  decoded (Stored.object r) = r
  decoded Stored.no_object = record { body = Body.ok_only; idempotent = false }
  decoded Stored.malformed = record { body = Body.empty; idempotent = false }

  abbrev pub marked : Response R → Response R
  marked r = record r { idempotent = true }

  abbrev pub claim_of : ℕ → Call → Claim R
  claim_of now c = record {
    endpoint = c.endpoint;
    actor_key = c.actor_key;
    idempotency_key = c.idempotency_key;
    request_hash = c.request_hash;
    status = "processing";
    response_json = Stored.object (record { body = Body.empty; idempotent = false });
    created_at = now;
    updated_at = now;
  }

  -- `_IDEMPOTENCY_PRUNE_EVERY`, `_IDEMPOTENCY_RETENTION_DAYS`
  abbrev pub outlived : ℕ → Claim R → Bool
  outlived now r = r.status =ₛ "completed" && ltb r.updated_at (now - retention)

  abbrev pub completed : ℕ → Response R → Claim R → Claim R
  completed now response r = record r {
    status = "completed";
    response_json = Stored.object response;
    updated_at = now;
  }

module _ {ℓ} {R S : Type ℓ} where
  unfoldable pub catalog_write_idempotency_row : Call → Site R S → Option (Claim R)
  catalog_write_idempotency_row c db = find? (is_claim c) db.claims

  -- the checks on the row that was found
  abbrev pub replay_row : Call → Option (Claim R) → Action (Site R S) (Option (Response R))
  replay_row c none db = Outcome.done none db
  replay_row c (some r) db =
      if not (r.request_hash =ₛ c.request_hash)
      then Outcome.raised Error.idempotency_conflict db
      else if not (r.status =ₛ "completed")
      then Outcome.raised Error.idempotency_conflict db
      else Outcome.done (some (marked (decoded r.response_json))) db

  unfoldable pub replay_catalog_write_idempotency : Call → Action (Site R S) (Option (Response R))
  replay_catalog_write_idempotency c db =
      if truthy c.idempotency_key
      then replay_row c (catalog_write_idempotency_row c db) db
      else Outcome.done none db

  -- The primary key refuses a second claim; the request is then replayed.
  unfoldable pub claim_catalog_write_idempotency :
      ℕ → Call → Action (Site R S) (Option (Response R))
  claim_catalog_write_idempotency now c db =
      if truthy c.idempotency_key
      then (if is_some (find? (is_claim c) db.claims)
          then replay_catalog_write_idempotency c db
          else Outcome.done none (record db { claims = insert (claim_of now c) db.claims }))
      else Outcome.done none db

  unfoldable pub complete_catalog_write_idempotency :
      ℕ → ℕ → Call → Response R → Site R S → Site R S
  complete_catalog_write_idempotency now completions c response db =
      let kept = if completions % 128 == 0 then delete (outlived now) db.claims else db.claims in
      if truthy c.idempotency_key
      then record db { claims = update (is_request c) (completed now response) kept }
      else db

  unfoldable pub clear_catalog_write_idempotency_claim : Call → Site R S → Site R S
  clear_catalog_write_idempotency_claim c db =
      if truthy c.idempotency_key
      then record db { claims = delete (λ r. is_request c r && r.status =ₛ "processing") db.claims }
      else db

  -- What the work does to its own tables.
  abbrev pub on_store : {A : Type ℓ} → Action S A → Action (Site R S) A
  on_store work db = elim (work db.store) [
    | Outcome.done a s ↦ Outcome.done a (record db { store = s })
    | Outcome.raised e s ↦ Outcome.raised e (record db { store = s })
  ]

  abbrev pub on_windows : Action (List Window) Unit → Action (Site R S) Unit
  on_windows check db = elim (check db.windows) [
    | Outcome.done a ws ↦ Outcome.done tt (record db { windows = ws })
    | Outcome.raised e ws ↦ Outcome.raised e (record db { windows = ws })
  ]

  -- `if replayed is not None: return replayed`
  abbrev pub unless_replayed :
      Option (Response R) → Action (Site R S) (Response R) → Action (Site R S) (Response R)
  unless_replayed none next db = next db
  unless_replayed (some r) next db = Outcome.done r db

  -- `except Exception: clear…; raise`
  abbrev pub cleared_after :
      Call → Outcome (Site R S) (Response R) → Outcome (Site R S) (Response R)
  cleared_after c (Outcome.done r db) = Outcome.done r db
  cleared_after c (Outcome.raised e db) =
      Outcome.raised e (clear_catalog_write_idempotency_claim c db)

  -- The work, the completion, and what the handler records afterwards.
  unfoldable pub work_and_complete :
      Moment → Call → Action S (Response R) → Action S Unit → Action (Site R S) (Response R)
  work_and_complete m c work after = do
    response ← on_store work
    modify (complete_catalog_write_idempotency m.now m.completions c response)
    on_store after
    pure response

  unfoldable pub idempotent_write :
      Moment → Call → Action S (Response R) → Action S Unit → Action (Site R S) (Response R)
  idempotent_write m c work after = do
    replayed ← replay_catalog_write_idempotency c
    unless_replayed replayed (do
      on_windows (enforce_agent_catalog_rate_limit m.now c.actor_key m.budget none)
      raced ← claim_catalog_write_idempotency m.now c
      unless_replayed raced (λ db. cleared_after c (work_and_complete m c work after db)))
