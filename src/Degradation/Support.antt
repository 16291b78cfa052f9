-- ===== src/Degradation/Support.antt =====
-- The level of an agent that lost evidence (kiwi_catalog/services/verification_degradation.py with
-- the state machine of kiwi_catalog/agent_catalog/state_domains.py).
use kiwi_catalog.Prelude.{
  ℕ, ◌≤◌, String, ◌≡◌, ◌⊎◌, Bool, true, false, not, ◌&&◌, Option, ◌=ₛ◌, if◌then◌else◌,
}
use kiwi_catalog.Result.{ok, err}
use kiwi_catalog.StateDomains.{level_index}
use kiwi_catalog.StateDomains.Level.{can_degrade, degrade}
use kiwi_catalog.Degradation.{Evidence, evidence_kind_to_level, highest_supported_level}

-- `VerificationLevelStateMachine.can_degrade`, where it does not raise
abbrev pub allows : String → String → Bool
allows current level = elim (can_degrade current level) [ ok b ↦ b | err e ↦ false ]

abbrev pub supported_level : String → ℕ → (String → Option Evidence) → String
supported_level current now latest =
    highest_supported_level current now allows latest evidence_kind_to_level

-- Which kinds of evidence are valid: of commerce, of the agent, of the domain.
level_with : (commerce agent domain : Bool) → String → String
level_with commerce agent domain current =
    let lowest =
      if not ("domain_verified" =ₛ current) && not (allows current "domain_verified")
      then "discovered"
      else if domain
      then "domain_verified"
      else "discovered" in
    let middle =
      if not ("agent_verified" =ₛ current) && not (allows current "agent_verified")
      then lowest
      else if agent
      then "agent_verified"
      else lowest in
    if not ("commerce_verified" =ₛ current) && not (allows current "commerce_verified")
    then middle
    else if commerce
    then "commerce_verified"
    else middle

abbrev IsHighest : Bool → Bool → Bool → String → String → Type 0
IsHighest commerce agent domain current result =
    ((result ≡ current) ⊎ (degrade current result ≡ ok result))
    × ((result ≡ "discovered")
        ⊎ ((result ≡ "commerce_verified") × (commerce ≡ true))
        ⊎ ((result ≡ "agent_verified") × (agent ≡ true))
        ⊎ ((result ≡ "domain_verified") × (domain ≡ true)))
    × (commerce ≡ true
        → level_index "commerce_verified" ≤ level_index current
        → level_index "commerce_verified" ≤ level_index result)
    × (agent ≡ true
        → level_index "agent_verified" ≤ level_index current
        → level_index "agent_verified" ≤ level_index result)
    × (domain ≡ true
        → level_index "domain_verified" ≤ level_index current
        → level_index "domain_verified" ≤ level_index result)

-- a level of the ladder, with the kind of evidence that stands for it
abbrev pub StandsFor : String → String → Type 0
StandsFor kind level =
    ((kind ≡ "commerce_capability") × (level ≡ "commerce_verified"))
    ⊎ ((kind ≡ "agent_identity") × (level ≡ "agent_verified"))
    ⊎ ((kind ≡ "domain_control") × (level ≡ "domain_verified"))
