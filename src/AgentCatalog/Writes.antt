-- ===== src/AgentCatalog/Writes.antt =====
-- What `set_state_domains` (kiwi_catalog/agent_catalog/sqlite_repository.py) and
-- `insert_verification` (kiwi_catalog/agent_catalog/verification_evidence.py) leave to be read.
use mathlib.Core.Option
use kiwi_catalog.Prelude.{
  ℕ, ◌≤◌, ◌<◌, String, Bool, ◌≡◌, refl, sym, ◌∙◌, subst, not, true, false, Option, some, List, [],
  ◌∷◌, arith, eq_iff, All, All-map, All-both, if◌then◌else◌, one_of,
}
use kiwi_catalog.Prelude.Table.{find?, update, insert}
use kiwi_catalog.Prelude.Table.Laws.{find?-true, find?-update}
use kiwi_catalog.Action.{Action, done, then_do-eq-done, raise_if, ◌>>◌}
use kiwi_catalog.Result.{Error}
use kiwi_catalog.Degradation.{Expiry, Evidence}
use kiwi_catalog.StateDomains.{verification_levels, freshness_states, administrative_states}
use kiwi_catalog.AgentCatalog.{
  is_agent, given, with_domains, require_catalog_agent, set_state_domains, insert_verification,
  latest_verification, is_evidence, precedes, next_id, valid_types,
}
use kiwi_catalog.AgentCatalog.Store.{Agent, Verification, StateChange}

-- What the recomputation of a level reads: the latest evidence of a kind that passed.
unfoldable pub latest_passed : String → List Verification → String → Option Evidence
latest_passed a rows kind =
    Option.map (λ (v : Verification). record { expires_at = v.expires_at })
      (latest_verification a kind (some "passed") rows)

pub require_catalog_agent-done :
    (a : String) (rows rows' : List Agent) (g : Agent)
    → require_catalog_agent a rows ≡ done g rows'
    → (rows' ≡ rows) × (find? (is_agent a) rows ≡ some g)
unfolding require_catalog_agent
require_catalog_agent-done a rows rows' g h = ground arith

domains_of : ℕ → StateChange → Agent → Agent → Agent
domains_of now c g =
    with_domains now (given g.verification_level c.verification_level)
      (given g.freshness_state c.freshness_state)
      (given g.administrative_state c.administrative_state) c

four_checks :
    (b1 b2 b3 b4 : Bool) (k : Action (List Agent) Agent) (s t : List Agent) (g : Agent)
    → (raise_if (not b1) Error.validation
          >> (raise_if (not b2) Error.validation
              >> (raise_if (not b3) Error.validation >> (raise_if (not b4) Error.validation >> k))))
        s
      ≡ done g t
    → k s ≡ done g t
four_checks true true true true k s t g h = h
four_checks true true true false k s t g h = cc
four_checks true true false b4 k s t g h = cc
four_checks true false b3 b4 k s t g h = cc
four_checks false b2 b3 b4 k s t g h = cc

-- The checks let the update through, and its row is read again.
set_state_domains-steps :
    (now : ℕ) (a : String) (c : StateChange) (rows rows' : List Agent) (g' : Agent)
    → set_state_domains now a c rows ≡ done g' rows'
    → (g : Agent) × (find? (is_agent a) rows ≡ some g)
      × (require_catalog_agent a (update (is_agent a) (domains_of now c g) rows) ≡ done g' rows')
unfolding set_state_domains domains_of
set_state_domains-steps now a c rows rows' g' h =
    let (g, kept, required, checked) = then_do-eq-done (require_catalog_agent a rows) _ h in
    let (same, found) = require_catalog_agent-done a rows kept g required in
    let last =
      four_checks (one_of verification_levels (given g.verification_level c.verification_level))
        (one_of freshness_states (given g.freshness_state c.freshness_state))
        (one_of administrative_states (given g.administrative_state c.administrative_state))
        (valid_types c.handoff_destination_types)
        (λ rows. require_catalog_agent a (update (is_agent a) (domains_of now c g) rows)) kept rows'
        g' checked in
    (
      g,
      found,
      subst
          (λ t.
            require_catalog_agent a (update (is_agent a) (domains_of now c g) t) ≡ done g' rows')
          same last,
    )

pub set_state_domains-done :
    (now : ℕ) (a : String) (c : StateChange) (rows rows' : List Agent) (g' : Agent)
    → set_state_domains now a c rows ≡ done g' rows'
    → (g : Agent) × (find? (is_agent a) rows ≡ some g)
      × (find? (is_agent a) rows' ≡ some g')
      × (g'
          ≡ with_domains now
              (given g.verification_level c.verification_level)
              (given g.freshness_state c.freshness_state)
              (given g.administrative_state c.administrative_state)
              c
              g)
unfolding domains_of
set_state_domains-done now a c rows rows' g' h =
    let (g, found, again) = set_state_domains-steps now a c rows rows' g' h in
    let f = domains_of now c g in
    let (same, there) = require_catalog_agent-done a (update (is_agent a) f rows) rows' g' again in
    let own : is_agent a g ≡ true = find?-true (is_agent a) rows g found in
    let moved : find? (is_agent a) (update (is_agent a) f rows)
        ≡ Option.map (λ x. if is_agent a x then f x else x) (find? (is_agent a) rows) =
      find?-update (is_agent a) (is_agent a) f rows (λ x _. unfold with_domains in refl) in
    let new : find? (is_agent a) (update (is_agent a) f rows) ≡ some (f g) =
      moved ∙ (rw found (rw own refl)) in
    (
      g,
      found,
      subst (λ t. find? (is_agent a) t ≡ some g') (sym same) there,
      ground (arith, there, new),
    )

next_id-above : (rows : List Verification) → All (λ r. r.verification_id < next_id rows) rows
next_id-above [] = tt
next_id-above (r ∷ rows) =
    (omega arith, All-map (λ x below. omega (arith, below)) rows (next_id-above rows))

-- A row that is later than all others is the latest.
latest-insert :
    (a kind : String) (result : Option String) (x : Verification) (rows : List Verification)
    → is_evidence a kind result x ≡ true
    → All (λ r. precedes x r ≡ true) rows
    → latest_verification a kind result (insert x rows) ≡ some x
unfolding latest_verification insert
latest-insert a kind result x [] own later = ground (arith, own)
latest-insert a kind result x (r ∷ rows) own later =
    ground (arith, later.0, latest-insert a kind result x rows own later.1)

-- Evidence that was checked no earlier than all other is the latest of its kind.
pub latest_verification-insert :
    (a kind result : String) (items : List (String × String)) (checked : ℕ) (expires : Expiry)
    (rows : List Verification)
    → All (λ r. r.checked_at ≤ checked) rows
    → (v : Verification) × (latest_verification a kind
          (some result)
          (insert_verification a kind result items checked expires rows)
        ≡ some v)
      × (v.expires_at ≡ expires)
unfolding insert_verification
latest_verification-insert a kind result items checked expires rows past =
    let row : Verification = record {
      verification_id = next_id rows;
      catalog_agent_id = a;
      verification_type = kind;
      result = result;
      evidence = items;
      checked_at = checked;
      expires_at = expires;
    } in
    (
      row,
      latest-insert a kind (some result) row rows
          (ground (arith, eq_iff a a, eq_iff kind kind, eq_iff result result))
          (All-map (λ x both. ground (arith, both.0, both.1)) rows
            (All-both _ _ rows past (next_id-above rows))),
      refl,
    )
