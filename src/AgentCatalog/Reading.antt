-- ===== src/AgentCatalog/Reading.antt =====
-- kiwi_catalog/agent_catalog/freshness.py: the freshness that a reader is shown.
use kiwi_catalog.Prelude.{
  ℕ, ◌+◌, ◌*◌, String, Option, none, some, ◌=ₛ◌, ltb, if◌then◌else◌, not, max, min, or_else,
}
use kiwi_catalog.AgentCatalog.Store.{Agent}

-- `int(raw)` where it is a number, a negative one as 0
unfoldable pub agent_fresh_ttl_seconds : Option ℕ → ℕ
agent_fresh_ttl_seconds none = 900
agent_fresh_ttl_seconds (some value) = max 60 (min (24 * 60 * 60) value)

abbrev by_age : ℕ → ℕ → Option ℕ → String
by_age now ttl none = "fresh"
by_age now ttl (some seen) = if ltb (seen + ttl) now then "stale" else "fresh"

unfoldable pub effective_freshness_state : ℕ → ℕ → Agent → String
effective_freshness_state now ttl g =
    let stored = or_else g.freshness_state "fresh" in
    if not (stored =ₛ "fresh") then stored else by_age now ttl g.last_seen_at
