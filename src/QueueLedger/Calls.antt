-- ===== src/QueueLedger/Calls.antt =====
-- Statements on the ledger in any order (kiwi_catalog/services/verification_queue_ledger.py), and what a
-- row is that late statements must leave alone.
use kiwi_catalog.Prelude.{
  ℕ, String, ◌≡◌, refl, sym, subst, ◌≤◌, Bool, true, false, not, ◌&&◌, ◌⊎◌, inl, inr, none, some,
  List, [], ◌∷◌, ◌=ₛ◌, ltb, one_of, arith, eq_iff, Bool-cases, is_some,
}
use kiwi_catalog.Prelude.Table.{find?, update, insert, delete, count}
use kiwi_catalog.Prelude.Table.Laws.{find?-delete_absent, find?-of_count_zero}
use kiwi_catalog.Action.{db_session}
use kiwi_catalog.QueueLedger.{
  Task, Ending, has_id, pending_row, delete_pending_task, is_terminal, is_open, new_task,
  insert_pending_task, delete_task, mark_task_running, finished, may_finish, finish_task,
  cleanup_terminal_tasks, open_row, mark_task_unknown, unknown_outcome_marker,
}

pub data Call : Type 0 where
  enqueue : String → String → String → String → ℕ → ℕ → ℕ → Call
  drop_task drop_pending : String → Call
  run : String → ℕ → ℕ → Call
  finish : String → Ending → Call
  clean : ℕ → Call
  give_up : String → String → ℕ → ℕ → Call

unfoldable pub serve : Call → List Task → List Task
serve (enqueue id agent_id kind actor at made now) =
    db_session (insert_pending_task id agent_id kind actor at made now)
serve (drop_task id) = db_session (delete_task id)
serve (drop_pending id) = db_session (delete_pending_task id)
serve (run id at now) = db_session (mark_task_running id at now)
serve (finish id e) = db_session (finish_task id e)
serve (clean cutoff) = db_session (cleanup_terminal_tasks cutoff)
serve (give_up id error at now) = db_session (mark_task_unknown id error at now)

unfoldable pub serve_all : List Call → List Task → List Task
serve_all [] rows = rows
serve_all (c ∷ cs) rows = serve_all cs (serve c rows)

-- The calls that may open a task again: those of its beginning.
abbrev pub begins : String → Call → Bool
begins id (enqueue id' agent_id kind actor at made now) = id' =ₛ id
begins id (drop_task id') = id' =ₛ id
begins id (run id' at now) = id' =ₛ id
begins id _ = false

abbrev pub is_unknown : Task → Bool
is_unknown t = t.status =ₛ "running" && t.verification_status =ₛ unknown_outcome_marker

-- The row of a finished task is as it was, or cleaned up.
abbrev pub Final : String → Task → List Task → Type 0
Final id t rows = (find? (has_id id) rows ≡ some t) ⊎ (find? (has_id id) rows ≡ none)

-- The row of a task is there, and marked as unknown.
abbrev pub Unknown : String → List Task → Type 0
Unknown id rows = (t : Task) × (find? (has_id id) rows ≡ some t) × (is_unknown t ≡ true)

abbrev pub Fenced : String → Task → List Task → Type 0
Fenced id t rows = elim (is_unknown t) as (λ b. Type 0) [
  | true ↦ Unknown id rows
  | false ↦ Final id t rows
]

-- A test that refuses the three terminal statuses refuses a terminal row's.
pub terminal_refused :
    (test : String → Bool) (t : Task)
    → test "completed" ≡ false
    → test "failed" ≡ false
    → test "timeout" ≡ false
    → is_terminal t ≡ true
    → test t.status ≡ false
terminal_refused test t c f o h = elim (Bool-cases ("completed" =ₛ t.status)) [
  | inl e ↦ subst (λ s. test s ≡ false) ((eq_iff "completed" t.status).0 e) c
  | inr e ↦ elim (Bool-cases ("failed" =ₛ t.status)) [
    | inl e' ↦ subst (λ s. test s ≡ false) ((eq_iff "failed" t.status).0 e') f
    | inr e' ↦
        let last : ("timeout" =ₛ t.status) ≡ true = ground (arith, h, e, e') in
        subst (λ s. test s ≡ false) ((eq_iff "timeout" t.status).0 last) o
  ]
]

pub may_finish-terminal : (id : String) (t : Task) → is_terminal t ≡ true → may_finish id t ≡ false
may_finish-terminal id t h =
    let stopped : (t.status =ₛ "running") ≡ false =
      terminal_refused (λ s. s =ₛ "running") t refl refl refl h in
    rw stopped (ground arith)

pub open_row-terminal : (id : String) (t : Task) → is_terminal t ≡ true → open_row id t ≡ false
open_row-terminal id t h =
    let closed : is_open t ≡ false =
      terminal_refused (λ s. one_of ("pending" ∷ "running" ∷ []) s) t refl refl refl h in
    ground (arith, closed)

pub pending_row-terminal :
    (id : String) (t : Task) → is_terminal t ≡ true → pending_row id t ≡ false
pending_row-terminal id t h =
    let closed : (t.status =ₛ "pending") ≡ false =
      terminal_refused (λ s. s =ₛ "pending") t refl refl refl h in
    rw closed (ground arith)

-- Finishing and enqueueing either write or are refused and leave everything.
pub finish_task-state :
    (id : String) (e : Ending) (rows : List Task)
    → (db_session (finish_task id e) rows ≡ rows)
      ⊎ (db_session (finish_task id e) rows ≡ update (may_finish id) (finished e) rows)
unfolding finish_task db_session
finish_task-state id e rows =
    elim (Bool-cases (
      ltb 0 (count (may_finish id) rows)
      && not (one_of ("pending" ∷ "running" ∷ "completed" ∷ "failed" ∷ "timeout" ∷ []) e.status))) [
        | inl refused ↦ inl (rw refused refl)
        | inr taken ↦ inr (rw taken refl)
      ]

pub insert_pending_task-state :
    (id agent_id kind actor : String) (at made now : ℕ) (rows : List Task)
    → (db_session (insert_pending_task id agent_id kind actor at made now) rows ≡ rows)
      ⊎ (db_session (insert_pending_task id agent_id kind actor at made now) rows
          ≡ insert (new_task id agent_id kind actor at made now) rows)
unfolding insert_pending_task db_session
insert_pending_task-state id agent_id kind actor at made now rows =
    elim (Bool-cases (is_some (find? (has_id id) rows))) [
      | inl refused ↦ inl (rw refused refl)
      | inr taken ↦ inr (rw taken refl)
    ]

pub other_id :
    (id id' : String) (t : Task) → (id' =ₛ id) ≡ false → has_id id t ≡ true → has_id id' t ≡ false
other_id id id' t apart h = ground (arith, eq_iff t.task_id id', eq_iff t.task_id id, eq_iff id' id)

-- A deletion that covers the only row of an id leaves none of it.
pub find?-delete_only :
    (p q : Task → Bool) (rows : List Task) (t : Task)
    → find? p rows ≡ some t
    → count p rows ≤ 1
    → q t ≡ true
    → find? p (delete q rows) ≡ none
unfolding find? count delete
find?-delete_only p q [] t h one e = cc
find?-delete_only p q (x ∷ xs) t h one e = elim (Bool-cases (p x)) [
  | inl px ↦
      let same : x ≡ t = ground (arith, h, px) in
      let gone : q x ≡ true = subst (λ v. q v ≡ true) (sym same) e in
      let none_else : count p xs ≡ 0 = ground (arith, one, px) in
      rw gone (find?-delete_absent p q xs (find?-of_count_zero p xs none_else))
  | inr px ↦
      ground
        (arith, px, find?-delete_only p q xs t (ground (arith, h, px)) (ground (arith, one, px)) e)
]
