-- ===== src/Tests/Catalog.antt =====
-- The heartbeat of an agent (kiwi_catalog/agent_catalog/sqlite_repository.py).
use kiwi_catalog.Prelude.{◌+◌, ◌≡◌, refl, some, none, [], ◌∷◌, ◌=ₛ◌, ltb, if◌then◌else◌}
use kiwi_catalog.Prelude.Table.{find?, update}
use kiwi_catalog.Action.{done}
use kiwi_catalog.StateDomains.{fold_verification_status}
use kiwi_catalog.AgentCatalog.{
  is_agent, seen, require_catalog_agent, set_state_domains, with_domains, touch_catalog_agent,
}
use kiwi_catalog.AgentCatalog.Heartbeat.{touch_catalog_agent-fresh}
use kiwi_catalog.AgentCatalog.Reading.{effective_freshness_state}
use kiwi_catalog.AgentCatalog.Store.{Agent}

abbrev agent : Agent
agent = record {
  catalog_agent_id = "cagt_lamp";
  merchant_id = "mkt_1";
  canonical_domain = "";
  verification_status = "unreachable";
  verification_level = "agent_verified";
  freshness_state = "unreachable";
  administrative_state = "active";
  display_name = "Lamps";
  handoff_destination_types = [];
  last_refresh_attempt_at = none;
  last_refresh_result = "";
  last_seen_at = none;
  last_verified_at = none;
  updated_at = 0;
}

abbrev beaten : Agent
beaten = record agent {
  verification_status = "agent_verified";
  freshness_state = "fresh";
  last_seen_at = some 1000;
  updated_at = 1001;
}

touched : touch_catalog_agent 1001 1000 "cagt_lamp" (agent ∷ []) ≡ done beaten (beaten ∷ [])
unfolding touch_catalog_agent require_catalog_agent set_state_domains with_domains
    fold_verification_status find? update
touched = refl

touch_catalog_agent-fresh_example :
    (old : Agent) × (find? (is_agent "cagt_lamp") (agent ∷ []) ≡ some old)
    × (effective_freshness_state 2000 900 beaten ≡ (
        if old.administrative_state =ₛ "active"
        then (if ltb (1000 + 900) 2000 then "stale" else "fresh")
        else effective_freshness_state 2000 900 (seen 1000 old)))
    × (beaten.administrative_state ≡ old.administrative_state)
    × (beaten.verification_level ≡ old.verification_level)
touch_catalog_agent-fresh_example =
    touch_catalog_agent-fresh 1001 1000 "cagt_lamp" (agent ∷ []) (beaten ∷ []) beaten touched 2000
      900
