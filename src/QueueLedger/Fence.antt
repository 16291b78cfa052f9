-- ===== src/QueueLedger/Fence.antt =====
-- The fence of kiwi_catalog/services/verification_queue_ledger.py.
use kiwi_catalog.Prelude.{
  String, ◌≡◌, ◌≤◌, true, false, ◌||◌, inl, inr, some, List, [], ◌∷◌, arith, All, Bool-cases,
}
use kiwi_catalog.Prelude.Table.{find?, count}
use kiwi_catalog.Prelude.Table.Laws.{find?-true}
use kiwi_catalog.QueueLedger.{Task, has_id, is_terminal}
use kiwi_catalog.QueueLedger.Calls.{
  Call, serve, serve_all, begins, is_unknown, Final, Unknown, Fenced,
}
use kiwi_catalog.QueueLedger.Finished.{serve-Final, serve-count}
use kiwi_catalog.QueueLedger.Unresolved.{serve-Unknown}

serve_all-Unknown :
    (calls : List Call) (id : String) (rows : List Task)
    → All (λ c. begins id c ≡ false) calls
    → Unknown id rows
    → Unknown id (serve_all calls rows)
unfolding serve_all
serve_all-Unknown [] id rows apart h = h
serve_all-Unknown (c ∷ cs) id rows apart h =
    serve_all-Unknown cs id (serve c rows) apart.1 (serve-Unknown c id rows apart.0 h)

serve_all-Final :
    (calls : List Call) (id : String) (t : Task) (rows : List Task)
    → has_id id t ≡ true
    → is_terminal t ≡ true
    → All (λ c. begins id c ≡ false) calls
    → count (has_id id) rows ≤ 1
    → Final id t rows
    → Final id t (serve_all calls rows)
unfolding serve_all
serve_all-Final [] id t rows own over apart one h = h
serve_all-Final (c ∷ cs) id t rows own over apart one h =
    serve_all-Final cs id t (serve c rows) own over apart.1 (serve-count c id rows apart.0 one)
      (serve-Final c id t rows own over apart.0 one h)

-- The fence of the ledger. Let a task be finished (completed, failed or timed out) or marked as
-- unknown, in a table where its id is unique, and let any statements follow but those that begin a
-- task of its id (enqueueing it, taking that back, marking it as running). A finished row is then
-- exactly as it was, unless the cleaning has removed it; a row that is marked as unknown is still
-- there and still marked.
pub serve_all-Fenced :
    (calls : List Call) (id : String) (t : Task) (rows : List Task)
    → find? (has_id id) rows ≡ some t
    → count (has_id id) rows ≤ 1
    → (is_terminal t || is_unknown t) ≡ true
    → All (λ c. begins id c ≡ false) calls
    → Fenced id t (serve_all calls rows)
serve_all-Fenced calls id t rows found one closed apart = elim (Bool-cases (is_unknown t)) [
  | inl e ↦ rw (e, Fenced) (serve_all-Unknown calls id rows apart (t, found, e))
  | inr e ↦
      let own = find?-true (has_id id) rows t found in
      rw (e, Fenced)
        (serve_all-Final calls id t rows own (ground (arith, closed, e)) apart one (inl found))
]
