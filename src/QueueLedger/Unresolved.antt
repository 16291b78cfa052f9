-- ===== src/QueueLedger/Unresolved.antt =====
-- The rows that are marked as unknown (kiwi_catalog/services/verification_queue_ledger.py).
use kiwi_catalog.Prelude.{
  ℕ, String, ◌≡◌, refl, sym, ◌=ₛ◌, ◌∙◌, subst, Bool, true, false, inl, inr, some, List, [], ◌∷◌,
  one_of, arith, eq_iff, Bool-cases,
}
use kiwi_catalog.Prelude.Table.{find?, update}
use kiwi_catalog.Prelude.Table.Laws.{
  find?-true, find?-update, find?-update_kept, find?-insert_found, find?-delete_kept,
}
use kiwi_catalog.Action.{db_session}
use kiwi_catalog.QueueLedger.{
  Task, has_id, is_terminal, new_task, delete_task, pending_row, delete_pending_task, started,
  mark_task_running, finished, may_finish, is_stale, cleanup_terminal_tasks, unresolved, open_row,
  mark_task_unknown,
}
use kiwi_catalog.QueueLedger.Calls.{
  enqueue, drop_task, drop_pending, run, finish, clean, give_up, Call, serve, begins, is_unknown,
  Unknown, finish_task-state, insert_pending_task-state, other_id,
}

pub unknown-not_terminal : (t : Task) → is_unknown t ≡ true → is_terminal t ≡ false
unknown-not_terminal t h =
    let running : t.status ≡ "running" = (eq_iff t.status "running").0 (ground (arith, h)) in
    subst (λ s. one_of ("completed" ∷ "failed" ∷ "timeout" ∷ []) s ≡ false) (sym running) refl

running_apart : (t : Task) → is_unknown t ≡ true → (t.status =ₛ "pending") ≡ false
running_apart t h =
    let running : t.status ≡ "running" = (eq_iff t.status "running").0 (ground (arith, h)) in
    subst (λ s. (s =ₛ "pending") ≡ false) (sym running) refl

-- A row that a statement spares stays found.
pub spared-Unknown :
    (id : String) (t : Task) (q : Task → Bool) (f : Task → Task) (rows : List Task)
    → ((x : Task) → q x ≡ true → has_id id (f x) ≡ has_id id x)
    → find? (has_id id) rows ≡ some t
    → is_unknown t ≡ true
    → q t ≡ false
    → Unknown id (update q f rows)
spared-Unknown id t q f rows keep found marked apart =
    (t, find?-update_kept (has_id id) q f rows t keep found apart, marked)

pub marked-Unknown :
    (id : String) (t : Task) (q : Task → Bool) (error : String) (at now : ℕ) (rows : List Task)
    → find? (has_id id) rows ≡ some t
    → is_unknown t ≡ true
    → Unknown id (update q (unresolved error at now) rows)
marked-Unknown id t q error at now rows found marked =
    let search = find?-update (has_id id) q (unresolved error at now) rows (λ x _. refl) in
    elim (Bool-cases (q t)) [
      | inl e ↦ (unresolved error at now t, search ∙ (rw (found, e) refl), refl)
      | inr e ↦ (t, search ∙ (rw (found, e) refl), marked)
    ]

pub serve-Unknown :
    (c : Call) (id : String) (rows : List Task)
    → begins id c ≡ false
    → Unknown id rows
    → Unknown id (serve c rows)
unfolding serve db_session delete_task delete_pending_task mark_task_running cleanup_terminal_tasks
    mark_task_unknown
serve-Unknown (enqueue id' agent_id kind actor at made now) id rows apart (t, found, marked) =
    elim (insert_pending_task-state id' agent_id kind actor at made now rows) [
      | inl same ↦ subst (Unknown id) (sym same) (t, found, marked)
      | inr written ↦
          let new = new_task id' agent_id kind actor at made now in
          subst (Unknown id) (sym written)
            (t, find?-insert_found (has_id id) new rows t found, marked)
    ]
serve-Unknown (drop_task id') id rows apart (t, found, marked) =
    let own = find?-true (has_id id) rows t found in
    (
      t,
      find?-delete_kept (has_id id) (has_id id') rows t found (other_id id id' t apart own),
      marked,
    )
serve-Unknown (drop_pending id') id rows apart (t, found, marked) = (
  t,
  find?-delete_kept (has_id id) (pending_row id') rows t found
      (ground (arith, running_apart t marked)),
  marked,
)
serve-Unknown (run id' at now) id rows apart (t, found, marked) =
    spared-Unknown id t (has_id id') (started at now) rows (λ x _. refl) found marked
      (other_id id id' t apart (find?-true (has_id id) rows t found))
serve-Unknown (finish id' e) id rows apart (t, found, marked) =
    elim (finish_task-state id' e rows) [
      | inl same ↦ subst (Unknown id) (sym same) (t, found, marked)
      | inr written ↦ subst (Unknown id) (sym written) (
          spared-Unknown id t (may_finish id') (finished e) rows (λ x _. refl) found marked
            (ground (arith, marked)))
    ]
serve-Unknown (clean cutoff) id rows apart (t, found, marked) =
    let kept : is_stale cutoff t ≡ false = rw (unknown-not_terminal t marked) refl in
    (t, find?-delete_kept (has_id id) (is_stale cutoff) rows t found kept, marked)
serve-Unknown (give_up id' error at now) id rows apart (t, found, marked) =
    marked-Unknown id t (open_row id') error at now rows found marked
