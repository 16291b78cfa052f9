-- ===== src/AgentCatalog/Heartbeat.antt =====
-- A heartbeat (kiwi_catalog/agent_catalog/sqlite_repository.py) and the freshness that is read after
-- it (kiwi_catalog/agent_catalog/freshness.py).
use kiwi_catalog.Prelude.{
  ℕ, ◌+◌, String, Bool, ◌≡◌, refl, sym, ap, ◌∙◌, subst, true, false, not, ◌&&◌, inl, inr, some,
  List, ltb, ◌=ₛ◌, arith, eq_iff, Bool-cases, if◌then◌else◌,
}
use kiwi_catalog.Prelude.Table.{find?, update}
use kiwi_catalog.Prelude.Table.Laws.{find?-true, find?-update}
use kiwi_catalog.Action.{done, ◌>>◌, then_do-eq-done}
use kiwi_catalog.AgentCatalog.{
  is_agent, no_change, seen, with_domains, require_catalog_agent, set_state_domains,
  touch_catalog_agent,
}
use kiwi_catalog.AgentCatalog.Reading.{effective_freshness_state}
use kiwi_catalog.AgentCatalog.Store.{Agent, StateChange}
use kiwi_catalog.AgentCatalog.Writes.{require_catalog_agent-done, set_state_domains-done}

abbrev freshen : StateChange
freshen = record no_change { freshness_state = some "fresh" }

-- The row that a heartbeat returns: seen, and made fresh where it was not and is not barred.
abbrev Beaten : ℕ → ℕ → Agent → Agent → Type 0
Beaten now stamp old g = g ≡ (
    if old.administrative_state =ₛ "active" && not (old.freshness_state =ₛ "fresh")
    then with_domains now old.verification_level "fresh" old.administrative_state freshen
        (seen stamp old)
    else seen stamp old)

seen-found :
    (a : String) (stamp : ℕ) (rows : List Agent) (g : Agent)
    → find? (is_agent a) rows ≡ some g
    → find? (is_agent a) (update (is_agent a) (seen stamp) rows) ≡ some (seen stamp g)
seen-found a stamp rows g found =
    let own : is_agent a g ≡ true = find?-true (is_agent a) rows g found in
    find?-update (is_agent a) (is_agent a) (seen stamp) rows (λ x _. refl)
    ∙ (rw found (rw own refl))

beat_steps :
    (b : Bool) (now : ℕ) (a : String) (s t : List Agent) (row g : Agent)
    → find? (is_agent a) s ≡ some row
    → (if b
          then set_state_domains now a freshen >> require_catalog_agent a
          else require_catalog_agent a)
        s
      ≡ done g t
    → g ≡ (
        if b
        then with_domains now row.verification_level "fresh" row.administrative_state freshen row
        else row)
beat_steps true now a s t row g found h =
    let (set, s1, written, again) = then_do-eq-done (set_state_domains now a freshen s) _ h in
    let (old, there, here, same) = set_state_domains-done now a freshen s s1 set written in
    let (_, read) = require_catalog_agent-done a s1 t g again in
    let first : old ≡ row = ground (arith, found, there) in
    let got : g ≡ set = ground (arith, here, read) in
    got
    ∙ same
    ∙ ap (λ x. with_domains now x.verification_level "fresh" x.administrative_state freshen x) first
beat_steps false now a s t row g found h =
    let (_, read) = require_catalog_agent-done a s t g h in ground (arith, found, read)

touch-Beaten :
    (now stamp : ℕ) (a : String) (rows rows' : List Agent) (g : Agent)
    → touch_catalog_agent now stamp a rows ≡ done g rows'
    → (old : Agent) × (find? (is_agent a) rows ≡ some old) × Beaten now stamp old g
unfolding touch_catalog_agent
touch-Beaten now stamp a rows rows' g h =
    let (old, kept, required, rest) = then_do-eq-done (require_catalog_agent a rows) _ h in
    let (same, found) = require_catalog_agent-done a rows kept old required in
    let there =
      subst (λ t. find? (is_agent a) (update (is_agent a) (seen stamp) t) ≡ some (seen stamp old))
        (sym same) (seen-found a stamp rows old found) in
    (
      old,
      found,
      beat_steps (old.administrative_state =ₛ "active" && not (old.freshness_state =ₛ "fresh")) now
          a (update (is_agent a) (seen stamp) kept) rows' (seen stamp old) g there rest,
    )

-- The freshness that is read off such a row.
Beaten-freshness :
    (now stamp later ttl : ℕ) (old g : Agent)
    → Beaten now stamp old g
    → effective_freshness_state later ttl g ≡ (
        if old.administrative_state =ₛ "active"
        then (if ltb (stamp + ttl) later then "stale" else "fresh")
        else effective_freshness_state later ttl (seen stamp old))
unfolding effective_freshness_state with_domains
Beaten-freshness now stamp later ttl old g beaten =
    let shown : g.freshness_state
        ≡ (if old.administrative_state =ₛ "active" then "fresh" else old.freshness_state) =
      ground (arith, beaten, eq_iff old.freshness_state "fresh") in
    let seen_at : g.last_seen_at ≡ some stamp = ground (arith, beaten) in
    elim (Bool-cases (old.administrative_state =ₛ "active")) [
      | inl active ↦
          let fresh : g.freshness_state ≡ "fresh" = ground (arith, shown, active) in
          rw (fresh, seen_at, active) (ground arith)
      | inr barred ↦
          let same : g.freshness_state ≡ old.freshness_state = ground (arith, shown, barred) in
          rw (same, seen_at, barred) (ground arith)
    ]

Beaten-kept :
    (now stamp : ℕ) (old g : Agent)
    → Beaten now stamp old g
    → (g.administrative_state ≡ old.administrative_state)
      × (g.verification_level ≡ old.verification_level)
unfolding with_domains
Beaten-kept now stamp old g beaten = ground (arith, beaten)

-- After a heartbeat an agent that is not barred is shown as fresh until the time to live after the
-- stamp has passed, and as stale from then on, however stale or unreachable it was stored before. An
-- agent that is suspended or rejected is shown as it would be with only its time replaced. The
-- administrative verdict and the level stay as they were.
pub touch_catalog_agent-fresh :
    (now stamp : ℕ) (a : String) (rows rows' : List Agent) (g : Agent)
    → touch_catalog_agent now stamp a rows ≡ done g rows'
    → (later ttl : ℕ)
    → (old : Agent) × (find? (is_agent a) rows ≡ some old)
      × (effective_freshness_state later ttl g ≡ (
          if old.administrative_state =ₛ "active"
          then (if ltb (stamp + ttl) later then "stale" else "fresh")
          else effective_freshness_state later ttl (seen stamp old)))
      × (g.administrative_state ≡ old.administrative_state)
      × (g.verification_level ≡ old.verification_level)
touch_catalog_agent-fresh now stamp a rows rows' g h later ttl =
    let (old, found, beaten) = touch-Beaten now stamp a rows rows' g h in
    let (admin, level) = Beaten-kept now stamp old g beaten in
    (old, found, Beaten-freshness now stamp later ttl old g beaten, admin, level)
