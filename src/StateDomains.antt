-- ===== src/StateDomains.antt =====
-- kiwi_catalog/agent_catalog/state_domains.py: the three orthogonal state domains of a catalog
-- agent, their transition tables, and the folding into the one legacy status. A state is the text
-- that the program stores; `transition` raises on a text that is no member.
pub mod Level
pub mod Freshness
pub mod Administrative
use kiwi_catalog.Prelude.{
  ℕ, suc, String, ◌≡◌, ◌⊎◌, List, [], ◌∷◌, ◌=ₛ◌, arith, eq_iff, one_of, if◌then◌else◌,
}
use kiwi_catalog.Result.{Error, Result, ok, ensure}

abbrev pub verification_levels : List String
verification_levels =
    "discovered" ∷ "profile_valid" ∷ "domain_verified" ∷ "agent_verified" ∷ "commerce_verified" ∷ []

abbrev pub freshness_states : List String
freshness_states = "fresh" ∷ "stale" ∷ "unreachable" ∷ []

abbrev pub administrative_states : List String
administrative_states = "active" ∷ "suspended" ∷ "rejected" ∷ []

-- `_member`
unfoldable pub member : List String → String → Result (Unit {0})
member values name = ensure (one_of values name) Error.invalid_state_transition

-- `{level: i for i, level in enumerate(VERIFICATION_LEVELS)}`, read for members only
abbrev position : List String → String → ℕ
position [] x = 0
position (v ∷ vs) x = if v =ₛ x then 0 else suc (position vs x)

unfoldable pub level_index : String → ℕ
level_index level = position verification_levels level

unfoldable pub fold_verification_status : String → String → String → String
fold_verification_status verification_level freshness_state administrative_state =
    if administrative_state =ₛ "rejected"
    then "rejected"
    else if administrative_state =ₛ "suspended"
    then "suspended"
    else if freshness_state =ₛ "unreachable"
    then "unreachable"
    else if freshness_state =ₛ "stale"
    then "stale"
    else verification_level

-- A text that `member` lets through is one of the five levels.
pub level-cases :
    (s : String)
    → member verification_levels s ≡ ok tt
    → (s ≡ "discovered")
      ⊎ (s ≡ "profile_valid")
      ⊎ (s ≡ "domain_verified")
      ⊎ (s ≡ "agent_verified")
      ⊎ (s ≡ "commerce_verified")
unfolding member
level-cases s h = ground (
  arith,
  eq_iff "discovered" s,
  eq_iff "profile_valid" s,
  eq_iff "domain_verified" s,
  eq_iff "agent_verified" s,
  eq_iff "commerce_verified" s,
)
