-- ===== src/Tests/Evidence.antt =====
-- An agent that keeps the proof of its domain only
-- (kiwi_catalog/services/verification_degradation.py).
use kiwi_catalog.Prelude.{String, ◌≡◌, refl, Option, some, none, ◌=ₛ◌, if◌then◌else◌}
use kiwi_catalog.StateDomains.{member, level_index}
use kiwi_catalog.StateDomains.Level.{can_degrade}
use kiwi_catalog.Degradation.{Evidence, Expiry, highest_supported_level}
use kiwi_catalog.Degradation.Support.{supported_level}

abbrev domain_only : String → Option Evidence
domain_only kind =
    if kind =ₛ "domain_control" then some (record { expires_at = Expiry.at 2000 }) else none

falls_to_domain : supported_level "agent_verified" 1000 domain_only ≡ "domain_verified"
unfolding highest_supported_level can_degrade member level_index
falls_to_domain = refl
