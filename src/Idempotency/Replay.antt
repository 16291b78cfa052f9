-- ===== src/Idempotency/Replay.antt =====
-- Repeating a write request (kiwi_catalog/api/idempotency.py and the write handlers of
-- kiwi_catalog/api/handlers/listings.py).
use kiwi_catalog.Prelude.{
  String, ◌≡◌, ◌≢◌, refl, ◌∙◌, inl, inr, true, none, some, List, ◌==◌, ◌%◌, truthy, arith, eq_iff,
}
use kiwi_catalog.Result.{Error}
use kiwi_catalog.Action.{Action, done, raised, Outcome-cases}
use kiwi_catalog.RateLimit.{Window, enforce_agent_catalog_rate_limit}
use kiwi_catalog.Idempotency.{
  Site, Call, Moment, Response, claim_of, completed, marked, catalog_write_idempotency_row,
  replay_catalog_write_idempotency, complete_catalog_write_idempotency,
  clear_catalog_write_idempotency_claim, work_and_complete, idempotent_write,
}
use kiwi_catalog.Idempotency.Ledger.{
  find?-completed, find?-cleared, claimed, complete-store, idempotent_write-unclaimed,
  idempotent_write-over_budget,
}

module _ {ℓ} {R S : Type ℓ} (m : Moment) (c : Call) (keyed : truthy c.idempotency_key ≡ true) where
  -- the site after the work, the completion and what is recorded afterwards
  abbrev pub finished : Response R → S → S → List Window → Site R S → Site R S
  finished r s s' ws db =
      record (complete_catalog_write_idempotency m.now m.completions c r
        (record (claimed m c keyed ws db) { store = s })) { store = s' }

  row-finished :
      (r : Response R) (s s' : S) (ws : List Window) (db : Site R S)
      → catalog_write_idempotency_row c db ≡ none
      → catalog_write_idempotency_row c (finished r s s' ws db)
        ≡ some (completed m.now r (claim_of m.now c))
  unfolding complete_catalog_write_idempotency catalog_write_idempotency_row
  row-finished r s s' ws db free =
      ground (arith, keyed, find?-completed m.now c (m.completions % 128 == 0) r db.claims free)

  -- A request within its budget whose work succeeds answers, and its work is done.
  pub idempotent_write-done :
      (work : Action S (Response R)) (after : Action S Unit) (db : Site R S) (ws : List Window)
      (r : Response R) (s s' : S)
      → catalog_write_idempotency_row c db ≡ none
      → enforce_agent_catalog_rate_limit m.now c.actor_key m.budget none db.windows ≡ done tt ws
      → work db.store ≡ done r s
      → after s ≡ done tt s'
      → idempotent_write m c work after db ≡ done r (finished r s s' ws db)
  unfolding work_and_complete
  idempotent_write-done work after db ws r s s' free room worked recorded =
      let stored = complete-store m c keyed r (record (claimed m c keyed ws db) { store = s }) in
      let did : work_and_complete m c work after (claimed m c keyed ws db)
          ≡ done r (finished r s s' ws db) =
        ground (arith, worked, recorded, stored) in
      idempotent_write-unclaimed m c keyed work after db ws free room ∙ rw did refl

  -- A request that found no claim and answered has left its answer in the ledger.
  row-answered :
      (work : Action S (Response R)) (after : Action S Unit) (db db' : Site R S) (r : Response R)
      → catalog_write_idempotency_row c db ≡ none
      → idempotent_write m c work after db ≡ done r db'
      → catalog_write_idempotency_row c db' ≡ some (completed m.now r (claim_of m.now c))
  unfolding work_and_complete
  row-answered work after db db' r free answered =
      elim (Outcome-cases
        (enforce_agent_catalog_rate_limit m.now c.actor_key m.budget none db.windows)) [
          | inr (e, ws, full) ↦
              let refused = idempotent_write-over_budget m c keyed work after db e ws free full in
              absurd (cc (refused, answered))
          | inl (u, ws, room) ↦
              let run = idempotent_write-unclaimed m c keyed work after db ws free room in
              elim (Outcome-cases (work db.store)) [
                | inr (e, s, failed) ↦ absurd (ground arith)
                | inl (r', s, worked) ↦
                    let stored =
                      complete-store m c keyed r'
                        (record (claimed m c keyed ws db) { store = s }) in
                    elim (Outcome-cases (after s)) [
                      | inr (e, s', failed) ↦ absurd (ground (arith, stored))
                      | inl (v, s', recorded) ↦
                          let did : work_and_complete m c work after (claimed m c keyed ws db)
                              ≡ done r' (finished r' s s' ws db) =
                            ground (
                              arith,
                              worked,
                              recorded,
                              complete-store m c keyed r'
                                  (record (claimed m c keyed ws db) { store = s }),
                            ) in
                          let all : idempotent_write m c work after db
                              ≡ done r' (finished r' s s' ws db) =
                            rw run (rw did refl) in
                          let same_r : r' ≡ r = cc (all, answered) in
                          let same_db : finished r' s s' ws db ≡ db' = cc (all, answered) in
                          rw (← same_r, ← same_db) (row-finished r' s s' ws db free)
                    ]
              ]
        ]

  -- In the state that an answered request left, a request with its key is answered from the ledger
  -- alone: one with the same content is given the first answer again, marked `idempotent`, and one
  -- with other content gets IdempotencyConflict. Neither does its work, spends any of its budget or
  -- writes anything, whatever it asks for and however much later. The key is not empty, and the first
  -- request found no claim.
  pub idempotent_write-once :
      (work : Action S (Response R)) (after : Action S Unit) (db db' : Site R S) (r : Response R)
      → catalog_write_idempotency_row c db ≡ none
      → idempotent_write m c work after db ≡ done r db'
      → (later : Moment) (work' : Action S (Response R)) (after' : Action S Unit) (hash : String)
      → hash ≢ c.request_hash
      → (idempotent_write later c work' after' db' ≡ done (marked r) db')
        × (idempotent_write later (record c { request_hash = hash }) work' after' db'
            ≡ raised Error.idempotency_conflict db')
  unfolding idempotent_write replay_catalog_write_idempotency catalog_write_idempotency_row
  idempotent_write-once work after db db' r free answered later work' after' hash other =
      let row = row-answered work after db db' r free answered in
      (
        ground (arith, keyed, row, eq_iff c.request_hash c.request_hash),
        ground (arith, keyed, row, eq_iff c.request_hash hash),
      )

  -- A request whose work fails raises what its work raised, and leaves no claim behind, even for a
  -- caller that goes on in the same session: the key can be used again. The request found no claim,
  -- it was within its budget, and its key is not empty.
  pub idempotent_write-failed :
      (work : Action S (Response R)) (after : Action S Unit) (db : Site R S) (ws : List Window)
      (e : Error) (s : S)
      → catalog_write_idempotency_row c db ≡ none
      → enforce_agent_catalog_rate_limit m.now c.actor_key m.budget none db.windows ≡ done tt ws
      → work db.store ≡ raised e s
      → (db' : Site R S) × (idempotent_write m c work after db ≡ raised e db')
        × (catalog_write_idempotency_row c db' ≡ none)
        × (db'.windows ≡ ws)
        × (db'.store ≡ s)
  unfolding work_and_complete clear_catalog_write_idempotency_claim catalog_write_idempotency_row
  idempotent_write-failed work after db ws e s free room failed =
      let run = idempotent_write-unclaimed m c keyed work after db ws free room in
      (
        clear_catalog_write_idempotency_claim c (record (claimed m c keyed ws db) { store = s }),
        run ∙ ground (arith, failed),
        ground (arith, keyed, find?-cleared m.now c db.claims free),
        ground (arith, keyed),
        ground (arith, keyed),
      )
