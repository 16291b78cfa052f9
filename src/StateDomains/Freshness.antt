-- ===== src/StateDomains/Freshness.antt =====
-- `FreshnessStateMachine` of kiwi_catalog/agent_catalog/state_domains.py.
use kiwi_catalog.Prelude.{String, Bool, false, [], ◌∷◌, ◌=ₛ◌, one_of, if◌then◌else◌}
use kiwi_catalog.Result.{Error, Result, ok, ◌>>=◌, ◌>>◌, ensure}
use kiwi_catalog.StateDomains.{member, freshness_states}

-- `target in _TRANSITIONS[current]`, asked of members only
unfoldable pub in_transitions : String → String → Bool
in_transitions current target =
    if current =ₛ "fresh"
    then one_of ("fresh" ∷ "stale" ∷ "unreachable" ∷ []) target
    else if current =ₛ "stale"
    then one_of ("fresh" ∷ "unreachable" ∷ []) target
    else if current =ₛ "unreachable"
    then one_of ("fresh" ∷ "stale" ∷ []) target
    else false

unfoldable pub can_transition : String → String → Result Bool
can_transition current target = do
  member freshness_states current
  member freshness_states target
  ok (in_transitions current target)

unfoldable pub transition : String → String → Result String
transition current target = do
  legal ← can_transition current target
  ensure legal Error.invalid_state_transition
  ok target
