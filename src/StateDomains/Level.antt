-- ===== src/StateDomains/Level.antt =====
-- `VerificationLevelStateMachine` of kiwi_catalog/agent_catalog/state_domains.py: promotion by at
-- most one rung, and the separate channel downwards.
use kiwi_catalog.Prelude.{
  ◌+◌, ◌≤◌, String, ◌≡◌, Bool, ◌||◌, List, [], ◌∷◌, ◌==◌, ltb, arith, length,
}
use kiwi_catalog.Result.{Error, Result, ok, ◌>>=◌, ◌>>◌, ensure, passed_step}
use kiwi_catalog.StateDomains.{member, verification_levels, level_index}

unfoldable pub can_transition : String → String → Result Bool
can_transition current target = do
  member verification_levels current
  member verification_levels target
  ok (level_index target == level_index current || level_index target == level_index current + 1)

unfoldable pub transition : String → String → Result String
transition current target = do
  legal ← can_transition current target
  ensure legal Error.invalid_state_transition
  ok target

unfoldable pub can_degrade : String → String → Result Bool
can_degrade current target = do
  member verification_levels current
  member verification_levels target
  ok (ltb (level_index target) (level_index current))

unfoldable pub degrade : String → String → Result String
degrade current target = do
  legal ← can_degrade current target
  ensure legal Error.invalid_state_transition
  ok target

-- The levels that a service asks for one after the other.
unfoldable pub climb : String → List String → Result String
climb current [] = ok current
climb current (target ∷ rest) = do reached ← transition current target; climb reached rest

transition_step :
    (current target reached : String)
    → transition current target ≡ ok reached
    → (level_index current ≤ level_index reached) × (level_index reached ≤ level_index current + 1)
unfolding transition can_transition
transition_step current target reached h = ground arith

-- However promotions are strung together, a rung is never skipped and never lost: after a climb
-- that raised nothing the level lies between the first and as many rungs above it as there were
-- promotions.
pub climb_bounds :
    (current : String) (targets : List String) (reached : String)
    → climb current targets ≡ ok reached
    → (level_index current ≤ level_index reached)
      × (level_index reached ≤ level_index current + length targets)
unfolding climb
climb_bounds current [] reached h = ground arith
climb_bounds current (target ∷ rest) reached h =
    let (mid, stepped, climbed) = passed_step (transition current target) (λ r. climb r rest) h in
    omega (arith, transition_step current target mid stepped, climb_bounds mid rest reached climbed)
