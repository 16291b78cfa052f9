-- ===== src/Tests/States.antt =====
-- The state domains on concrete inputs (kiwi_catalog/agent_catalog/state_domains.py).
use kiwi_catalog.Prelude.{◌+◌, ◌≤◌, refl, [], ◌∷◌}
use kiwi_catalog.StateDomains.{member, level_index}
use kiwi_catalog.StateDomains.Level

climb_bounds_example :
    (level_index "discovered" ≤ level_index "domain_verified")
    × (level_index "domain_verified" ≤ level_index "discovered" + 3)
unfolding Level.climb Level.transition Level.can_transition member level_index
climb_bounds_example =
    Level.climb_bounds "discovered" ("profile_valid" ∷ "profile_valid" ∷ "domain_verified" ∷ [])
      "domain_verified" refl
