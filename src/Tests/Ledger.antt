-- ===== src/Tests/Ledger.antt =====
-- A task that timed out, and whose thread ends late
-- (kiwi_catalog/services/verification_queue_ledger.py).
use kiwi_catalog.Prelude.{◌≡◌, refl, ◌≤◌, List, [], ◌∷◌, some, arith, All, false}
use kiwi_catalog.Prelude.Table.{find?, update, delete, count}
use kiwi_catalog.Action.{db_session}
use kiwi_catalog.QueueLedger.{
  Task, Ending, has_id, finish_task, cleanup_terminal_tasks, mark_task_unknown,
}
use kiwi_catalog.QueueLedger.Calls.{Call, serve, serve_all, begins, Fenced}
use kiwi_catalog.QueueLedger.Fence.{serve_all-Fenced}

abbrev timed_out : Task
timed_out = record {
  task_id = "vt_1";
  catalog_agent_id = "cagt_1";
  kind = "verify";
  actor = "verification_worker";
  status = "timeout";
  enqueued_at = 10;
  started_at = 11;
  finished_at = 41;
  verification_status = "";
  error = "deadline";
  result_json = "{}";
  created_at = 10;
  updated_at = 41;
}

abbrev other : Task
other = record timed_out { task_id = "vt_2"; status = "running"; finished_at = 0; error = "" }

abbrev late : Ending
late = record {
  status = "completed";
  verification_status = "agent_verified";
  error = "";
  result_json = "{}";
  finished_at = 60;
  updated_at = 60;
}

abbrev calls : List Call
calls =
    Call.finish "vt_1" late
    ∷ Call.finish "vt_2" late
    ∷ Call.give_up "vt_1" "unconfirmed" 61 61
    ∷ Call.clean 40
    ∷ []

late_calls :
    serve_all calls (timed_out ∷ other ∷ [])
    ≡ timed_out
      ∷ record other {
        status = "completed";
        verification_status = "agent_verified";
        finished_at = 60;
        updated_at = 60;
      }
      ∷ []
unfolding serve_all serve db_session finish_task cleanup_terminal_tasks mark_task_unknown update
    delete count
late_calls = refl

there : find? (has_id "vt_1") (timed_out ∷ other ∷ []) ≡ some timed_out
unfolding find?
there = refl

once : count (has_id "vt_1") (timed_out ∷ other ∷ []) ≤ 1
unfolding count
once = omega arith

late_only : All (λ c. begins "vt_1" c ≡ false) calls
late_only = (refl, (refl, (refl, (refl, tt))))

serve_all-Fenced_example : Fenced "vt_1" timed_out (serve_all calls (timed_out ∷ other ∷ []))
serve_all-Fenced_example =
    serve_all-Fenced calls "vt_1" timed_out (timed_out ∷ other ∷ []) there once refl late_only
