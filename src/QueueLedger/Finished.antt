-- ===== src/QueueLedger/Finished.antt =====
-- The rows of finished tasks (kiwi_catalog/services/verification_queue_ledger.py).
use kiwi_catalog.Prelude.{
  String, ◌≡◌, refl, sym, ◌∙◌, subst, ◌≤◌, Bool, true, false, inl, inr, List, arith, ap, Bool-cases,
}
use kiwi_catalog.Prelude.Table.{update, insert, delete, count}
use kiwi_catalog.Prelude.Table.Laws.{
  find?-update, find?-update_kept, find?-insert_found, find?-insert_absent, find?-delete_kept,
  find?-delete_absent, count-update_eq, count-delete_le, count-insert,
}
use kiwi_catalog.Action.{db_session}
use kiwi_catalog.QueueLedger.{
  Task, has_id, is_terminal, new_task, delete_task, pending_row, delete_pending_task, started,
  mark_task_running, finished, may_finish, is_stale, cleanup_terminal_tasks, unresolved, open_row,
  mark_task_unknown,
}
use kiwi_catalog.QueueLedger.Calls.{
  enqueue, drop_task, drop_pending, run, finish, clean, give_up, Call, serve, begins, Final,
  may_finish-terminal, open_row-terminal, finish_task-state, insert_pending_task-state, other_id,
  find?-delete_only,
}

-- An update that leaves the ids alone and does not cover a row keeps it, or its absence.
pub update-Final :
    (id : String) (t : Task) (q : Task → Bool) (f : Task → Task) (rows : List Task)
    → ((x : Task) → q x ≡ true → has_id id (f x) ≡ has_id id x)
    → q t ≡ false
    → Final id t rows
    → Final id t (update q f rows)
update-Final id t q f rows keep apart (inl found) =
    inl (find?-update_kept (has_id id) q f rows t keep found apart)
update-Final id t q f rows keep apart (inr gone) =
    inr (find?-update (has_id id) q f rows keep ∙ (rw gone refl))

pub enqueued-Final :
    (id : String) (t new : Task) (rows : List Task)
    → has_id id new ≡ false
    → Final id t rows
    → Final id t (insert new rows)
enqueued-Final id t new rows apart (inl found) =
    inl (find?-insert_found (has_id id) new rows t found)
enqueued-Final id t new rows apart (inr gone) =
    inr (find?-insert_absent (has_id id) new rows gone ∙ (rw apart refl))

pub cleaned-Final :
    (id : String) (t : Task) (q : Task → Bool) (rows : List Task)
    → count (has_id id) rows ≤ 1
    → Final id t rows
    → Final id t (delete q rows)
cleaned-Final id t q rows one (inr gone) = inr (find?-delete_absent (has_id id) q rows gone)
cleaned-Final id t q rows one (inl found) = elim (Bool-cases (q t)) [
  | inl e ↦ inr (find?-delete_only (has_id id) q rows t found one e)
  | inr e ↦ inl (find?-delete_kept (has_id id) q rows t found e)
]

pub serve-Final :
    (c : Call) (id : String) (t : Task) (rows : List Task)
    → has_id id t ≡ true
    → is_terminal t ≡ true
    → begins id c ≡ false
    → count (has_id id) rows ≤ 1
    → Final id t rows
    → Final id t (serve c rows)
unfolding serve db_session delete_task delete_pending_task mark_task_running cleanup_terminal_tasks
    mark_task_unknown
serve-Final (enqueue id' agent_id kind actor at made now) id t rows own over apart one h =
    elim (insert_pending_task-state id' agent_id kind actor at made now rows) [
      | inl same ↦ subst (Final id t) (sym same) h
      | inr written ↦
          subst (Final id t) (sym written)
            (enqueued-Final id t (new_task id' agent_id kind actor at made now) rows apart h)
    ]
serve-Final (drop_task id') id t rows own over apart one h =
    cleaned-Final id t (has_id id') rows one h
serve-Final (drop_pending id') id t rows own over apart one h =
    cleaned-Final id t (pending_row id') rows one h
serve-Final (run id' at now) id t rows own over apart one h =
    update-Final id t (has_id id') (started at now) rows (λ x _. refl) (other_id id id' t apart own)
      h
serve-Final (finish id' e) id t rows own over apart one h = elim (finish_task-state id' e rows) [
  | inl same ↦ subst (Final id t) (sym same) h
  | inr written ↦ subst (Final id t) (sym written) (
      update-Final id t (may_finish id') (finished e) rows (λ x _. refl)
        (may_finish-terminal id' t over) h)
]
serve-Final (clean cutoff) id t rows own over apart one h =
    cleaned-Final id t (is_stale cutoff) rows one h
serve-Final (give_up id' error at now) id t rows own over apart one h =
    update-Final id t (open_row id') (unresolved error at now) rows (λ x _. refl)
      (open_row-terminal id' t over) h

pub serve-count :
    (c : Call) (id : String) (rows : List Task)
    → begins id c ≡ false
    → count (has_id id) rows ≤ 1
    → count (has_id id) (serve c rows) ≤ 1
unfolding serve db_session delete_task delete_pending_task mark_task_running cleanup_terminal_tasks
    mark_task_unknown
serve-count (enqueue id' agent_id kind actor at made now) id rows apart one =
    elim (insert_pending_task-state id' agent_id kind actor at made now rows) [
      | inl same ↦ rw same one
      | inr written ↦ ground (
        arith,
        ap (count (has_id id)) written,
        count-insert (has_id id) (new_task id' agent_id kind actor at made now) rows,
        apart,
      )
    ]
serve-count (drop_task id') id rows apart one =
    omega (arith, count-delete_le (has_id id) (has_id id') rows)
serve-count (drop_pending id') id rows apart one =
    omega (arith, count-delete_le (has_id id) (pending_row id') rows)
serve-count (run id' at now) id rows apart one =
    omega (arith, count-update_eq (has_id id) (has_id id') (started at now) rows (λ x _. refl))
serve-count (finish id' e) id rows apart one = elim (finish_task-state id' e rows) [
  | inl same ↦ rw same one
  | inr written ↦
      rw written (
        omega (arith, count-update_eq (has_id id) (may_finish id') (finished e) rows (λ x _. refl)))
]
serve-count (clean cutoff) id rows apart one =
    omega (arith, count-delete_le (has_id id) (is_stale cutoff) rows)
serve-count (give_up id' error at now) id rows apart one =
    omega (
      arith,
      count-update_eq (has_id id) (open_row id') (unresolved error at now) rows (λ x _. refl),
    )
