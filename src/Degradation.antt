-- ===== src/Degradation.antt =====
-- kiwi_catalog/services/verification_degradation.py: the level that the remaining evidence still
-- supports, and what the failure of a profile does to an agent.
pub mod Support
use kiwi_catalog.Prelude.{
  ℕ, String, Bool, true, false, not, ◌&&◌, Option, none, some, List, [], ◌∷◌, ◌=ₛ◌, ltb, one_of,
  if◌then◌else◌,
}

-- What `parse_iso_ts` makes of the column `expires_at` where it is not empty, and the empty column.
pub data Expiry : Type 0 where
  unset unreadable : Expiry
  at : ℕ → Expiry

-- the evidence that `latest_passed` gives for a kind
pub record Evidence : Type 0 where
  pub expires_at : Expiry

abbrev pub unexpired : ℕ → Expiry → Bool
unexpired now Expiry.unset = true
unexpired now Expiry.unreadable = false
unexpired now (Expiry.at t) = not (ltb t now)

abbrev pub supports : ℕ → Option Evidence → Bool
supports now none = false
supports now (some e) = unexpired now e.expires_at

abbrev pub evidence_kind_to_level : List (String × String)
evidence_kind_to_level =
    ("commerce_capability", "commerce_verified")
    ∷ ("agent_identity", "agent_verified")
    ∷ ("domain_control", "domain_verified")
    ∷ []

unfoldable pub highest_supported_level :
    String
    → ℕ
    → (String → String → Bool)
    → (String → Option Evidence)
    → List (String × String)
    → String
highest_supported_level current now can_degrade latest_passed [] = "discovered"
highest_supported_level current now can_degrade latest_passed ((kind, level) ∷ ladder) =
    let below = highest_supported_level current now can_degrade latest_passed ladder in
    if not (level =ₛ current) && not (can_degrade current level)
    then below
    else if supports now (latest_passed kind)
    then level
    else below

pub record ProfileFailurePlan : Type 0 where
  pub failure_kind : String
  pub freshness_state : String
  pub stage_outcome : String
  pub recompute_level : Bool

abbrev pub outcome_for : String → String
outcome_for target_status =
    if target_status =ₛ "rejected"
    then "rejected"
    else if target_status =ₛ "unreachable"
    then "unreachable"
    else if target_status =ₛ "stale"
    then "stale"
    else "failed"

-- `FRESHNESS_ONLY_FAILURE_STATUSES`
abbrev pub freshness_only : List String
freshness_only = "stale" ∷ "unreachable" ∷ []

unfoldable pub profile_failure_plan : String → ProfileFailurePlan
profile_failure_plan target_status =
    if one_of freshness_only target_status
    then record {
      failure_kind = target_status;
      freshness_state = target_status;
      stage_outcome = outcome_for target_status;
      recompute_level = false;
    }
    else record {
      failure_kind = "rejected";
      freshness_state = "stale";
      stage_outcome = "rejected";
      recompute_level = true;
    }
