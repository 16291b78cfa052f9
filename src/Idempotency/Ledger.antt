-- ===== src/Idempotency/Ledger.antt =====
-- What a request that found no claim leaves in the ledger (kiwi_catalog/api/idempotency.py).
use kiwi_catalog.Prelude.{
  ℕ, ◌≡◌, refl, ◌∙◌, Bool, true, false, ◌&&◌, none, some, List, ◌=ₛ◌, truthy, if◌then◌else◌, arith,
  eq_iff,
}
use kiwi_catalog.Prelude.Table.{find?, update, insert, delete}
use kiwi_catalog.Prelude.Table.Laws.{
  find?-update, find?-insert_absent, find?-delete_absent, delete-insert_kept, delete-insert_gone,
}
use kiwi_catalog.Result.{Error}
use kiwi_catalog.Action.{Action, done, raised}
use kiwi_catalog.RateLimit.{Window, enforce_agent_catalog_rate_limit}
use kiwi_catalog.Idempotency.{
  Claim, Site, Call, Moment, Response, is_claim, is_request, claim_of, completed, outlived,
  cleared_after, catalog_write_idempotency_row, replay_catalog_write_idempotency,
  claim_catalog_write_idempotency, complete_catalog_write_idempotency, work_and_complete,
  idempotent_write,
}

module _ {ℓ} {R : Type ℓ} (now : ℕ) (c : Call) where
  -- a claim is found as soon as it is inserted where none was
  find?-claimed :
      (cs : List (Claim R))
      → find? (is_claim c) cs ≡ none
      → find? (is_claim c) (insert (claim_of now c) cs) ≡ some (claim_of now c)
  find?-claimed cs free = ground (
    arith,
    find?-insert_absent (is_claim c) (claim_of now c) cs free,
    eq_iff c.endpoint c.endpoint,
    eq_iff c.actor_key c.actor_key,
    eq_iff c.idempotency_key c.idempotency_key,
  )

  -- pruning spares it, since it is still being processed
  find?-pruned :
      (due : Bool) (cs : List (Claim R))
      → find? (is_claim c) cs ≡ none
      → find? (is_claim c) (
          if due
          then delete (outlived now) (insert (claim_of now c) cs)
          else insert (claim_of now c) cs)
        ≡ some (claim_of now c)
  find?-pruned true cs free = rw (delete-insert_kept (outlived now) (claim_of now c) cs refl) (
      find?-claimed (delete (outlived now) cs)
        (find?-delete_absent (is_claim c) (outlived now) cs free))
  find?-pruned false cs free = find?-claimed cs free

  pub find?-completed :
      (due : Bool) (response : Response R) (cs : List (Claim R))
      → find? (is_claim c) cs ≡ none
      → find? (is_claim c) (
          update (is_request c) (completed now response) (
            if due
            then delete (outlived now) (insert (claim_of now c) cs)
            else insert (claim_of now c) cs))
        ≡ some (completed now response (claim_of now c))
  find?-completed due response cs free =
      let kept : List (Claim R) =
        if due
        then delete (outlived now) (insert (claim_of now c) cs)
        else insert (claim_of now c) cs in
      find?-update (is_claim c) (is_request c) (completed now response) kept (λ x h. refl)
      ∙ rw (find?-pruned due cs free) (
          ground (
            arith,
            eq_iff c.endpoint c.endpoint,
            eq_iff c.actor_key c.actor_key,
            eq_iff c.idempotency_key c.idempotency_key,
            eq_iff c.request_hash c.request_hash,
          ))

  pub find?-cleared :
      (cs : List (Claim R))
      → find? (is_claim c) cs ≡ none
      → find?
          (is_claim c)
          (delete (λ r. is_request c r && r.status =ₛ "processing") (insert (claim_of now c) cs))
        ≡ none
  find?-cleared cs free =
      let own : (is_request {R = R} c (claim_of now c) && true) ≡ true = ground (
        arith,
        eq_iff c.endpoint c.endpoint,
        eq_iff c.actor_key c.actor_key,
        eq_iff c.idempotency_key c.idempotency_key,
        eq_iff c.request_hash c.request_hash,
      ) in
      rw
        (delete-insert_gone (λ r. is_request c r && r.status =ₛ "processing") (claim_of now c) cs
          own)
        (find?-delete_absent (is_claim c) (λ r. is_request c r && r.status =ₛ "processing") cs free)

module _ {ℓ} {R S : Type ℓ} (m : Moment) (c : Call) (keyed : truthy c.idempotency_key ≡ true) where
  -- a request without a claim, after its own claim is inserted
  abbrev pub claimed : List Window → Site R S → Site R S
  claimed ws db = record db { claims = insert (claim_of m.now c) db.claims; windows = ws }

  -- Where no claim was found, the work is done between a claim and its completion, or its clearing.
  pub idempotent_write-unclaimed :
      (work : Action S (Response R)) (after : Action S Unit) (db : Site R S) (ws : List Window)
      → catalog_write_idempotency_row c db ≡ none
      → enforce_agent_catalog_rate_limit m.now c.actor_key m.budget none db.windows ≡ done tt ws
      → idempotent_write m c work after db
        ≡ cleared_after c (work_and_complete m c work after (claimed ws db))
  unfolding idempotent_write replay_catalog_write_idempotency claim_catalog_write_idempotency
      catalog_write_idempotency_row
  idempotent_write-unclaimed work after db ws free room = ground (arith, free, room)

  pub idempotent_write-over_budget :
      (work : Action S (Response R)) (after : Action S Unit) (db : Site R S) (e : Error)
      (ws : List Window)
      → catalog_write_idempotency_row c db ≡ none
      → enforce_agent_catalog_rate_limit m.now c.actor_key m.budget none db.windows ≡ raised e ws
      → idempotent_write m c work after db ≡ raised e (record db { windows = ws })
  unfolding idempotent_write replay_catalog_write_idempotency catalog_write_idempotency_row
  idempotent_write-over_budget work after db e ws free full = ground (arith, free, full)

  -- completing touches the ledger only
  pub complete-store :
      (r : Response R) (db : Site R S)
      → (complete_catalog_write_idempotency m.now m.completions c r db).store ≡ db.store
  unfolding complete_catalog_write_idempotency
  complete-store r db = ground (arith, keyed)
