-- ===== src/QueueLedger.antt =====
-- kiwi_catalog/services/verification_queue_ledger.py: the rows of `verification_queue_tasks`, by which
-- the queue of verifications survives a restart, and the statements on them, with that of the worker
-- in kiwi_catalog/services/agent_verification.py.
pub mod Calls
pub mod Finished
pub mod Unresolved
pub mod Fence
use kiwi_catalog.Prelude.{
  ℕ, String, Bool, not, ◌&&◌, Option, List, [], ◌∷◌, ◌=ₛ◌, ltb, leb, one_of, is_some,
}
use kiwi_catalog.Prelude.Sorting.{ordered}
use kiwi_catalog.Prelude.Table.{find?, select, update, insert, delete, count}
use kiwi_catalog.Result.{Error}
use kiwi_catalog.Action.{Action, ◌>>=◌, ◌>>◌, gets, modify, raise_if}

-- Times are those of the queue's clock, in a unit in which they are whole; 0 is the default.
pub record Task : Type 0 where
  pub task_id : String
  pub catalog_agent_id : String
  pub kind : String
  pub actor : String
  pub status : String
  pub enqueued_at : ℕ
  pub started_at : ℕ
  pub finished_at : ℕ
  pub verification_status : String
  pub error : String
  pub result_json : String
  pub created_at : ℕ
  pub updated_at : ℕ

abbrev pub unknown_outcome_marker : String
unknown_outcome_marker = "queue_outcome_unknown"

abbrev pub has_id : String → Task → Bool
has_id id t = t.task_id =ₛ id

-- `status in ('pending','running')`
abbrev pub is_open : Task → Bool
is_open t = one_of ("pending" ∷ "running" ∷ []) t.status

abbrev pub is_terminal : Task → Bool
is_terminal t = one_of ("completed" ∷ "failed" ∷ "timeout" ∷ []) t.status

unfoldable pub load_pending_tasks : List Task → List Task
load_pending_tasks rows = ordered (λ x y. leb x.enqueued_at y.enqueued_at) (select is_open rows)

abbrev pub new_task : String → String → String → String → ℕ → ℕ → ℕ → Task
new_task id agent_id kind actor enqueued_at created_at updated_at = record {
  task_id = id;
  catalog_agent_id = agent_id;
  kind = kind;
  actor = actor;
  status = "pending";
  enqueued_at = enqueued_at;
  started_at = 0;
  finished_at = 0;
  verification_status = "";
  error = "";
  result_json = "{}";
  created_at = created_at;
  updated_at = updated_at;
}

-- The id is the primary key.
unfoldable pub insert_pending_task :
    String → String → String → String → ℕ → ℕ → ℕ → Action (List Task) Unit
insert_pending_task id agent_id kind actor enqueued_at created_at updated_at = do
  taken ← gets (find? (has_id id))
  raise_if (is_some taken) Error.integrity
  modify (insert (new_task id agent_id kind actor enqueued_at created_at updated_at))

unfoldable pub delete_task : String → Action (List Task) Unit
delete_task id = modify (delete (has_id id))

abbrev pub pending_row : String → Task → Bool
pending_row id t = has_id id t && t.status =ₛ "pending"

-- The statement of the worker, where a task failed before it was marked as running.
unfoldable pub delete_pending_task : String → Action (List Task) Unit
delete_pending_task id = modify (delete (pending_row id))

abbrev pub started : ℕ → ℕ → Task → Task
started started_at now t = record t {
  status = "running";
  started_at = started_at;
  updated_at = now;
}

unfoldable pub mark_task_running : String → ℕ → ℕ → Action (List Task) Unit
mark_task_running id started_at now = modify (update (has_id id) (started started_at now))

-- What the program hands over at the end of a task.
pub record Ending : Type 0 where
  pub status : String
  pub verification_status : String
  pub error : String
  pub result_json : String
  pub finished_at : ℕ
  pub updated_at : ℕ

abbrev pub finished : Ending → Task → Task
finished e t = record t {
  status = e.status;
  verification_status = e.verification_status;
  error = e.error;
  result_json = e.result_json;
  finished_at = e.finished_at;
  updated_at = e.updated_at;
}

-- The fence of the statement: the row is running, and not marked as unknown.
abbrev pub may_finish : String → Task → Bool
may_finish id t =
    has_id id t && t.status =ₛ "running" && not (t.verification_status =ₛ unknown_outcome_marker)

-- The column's check refuses another status.
unfoldable pub finish_task : String → Ending → Action (List Task) Unit
finish_task id e = do
  rows ← gets (count (may_finish id))
  raise_if
      (ltb 0 rows
        && not (one_of ("pending" ∷ "running" ∷ "completed" ∷ "failed" ∷ "timeout" ∷ []) e.status))
      Error.integrity
  modify (update (may_finish id) (finished e))

abbrev pub is_stale : ℕ → Task → Bool
is_stale cutoff t = is_terminal t && ltb t.finished_at cutoff

unfoldable pub cleanup_terminal_tasks : ℕ → Action (List Task) Unit
cleanup_terminal_tasks cutoff = modify (delete (is_stale cutoff))

unfoldable pub fetch_task_row : String → List Task → Option Task
fetch_task_row id rows = find? (has_id id) rows

abbrev pub unresolved : String → ℕ → ℕ → Task → Task
unresolved error finished_at now t = record t {
  status = "running";
  verification_status = unknown_outcome_marker;
  error = error;
  result_json = "{\"queue_outcome\":\"unknown\"}";
  finished_at = finished_at;
  updated_at = now;
}

abbrev pub open_row : String → Task → Bool
open_row id t = has_id id t && is_open t

unfoldable pub mark_task_unknown : String → String → ℕ → ℕ → Action (List Task) Unit
mark_task_unknown id error finished_at now =
    modify (update (open_row id) (unresolved error finished_at now))
