-- ===== src/AgentCatalog.antt =====
-- kiwi_catalog/agent_catalog/sqlite_repository.py, verification_evidence.py and freshness.py: the
-- state columns of an agent, the evidence for its level, and the freshness that is read.
pub mod Pages
pub mod Order
pub mod Paging
pub mod Store
pub mod Reading
pub mod Writes
pub mod Heartbeat
use mathlib.Core.Option
use kiwi_catalog.Prelude.{
  ℕ, ◌+◌, String, Bool, true, not, ◌&&◌, ◌||◌, Option, none, some, List, [], ◌∷◌, ◌==◌, ◌=ₛ◌, ltb,
  one_of, is_some, truthy, if◌then◌else◌, max,
}
use kiwi_catalog.Prelude.Table.{find?, update, insert}
use kiwi_catalog.Result.{Error}
use kiwi_catalog.Action.{Action, Outcome, ◌>>=◌, ◌>>◌, modify, raise_if}
use kiwi_catalog.StateDomains.{
  verification_levels, freshness_states, administrative_states, fold_verification_status,
}
use kiwi_catalog.Degradation.{Expiry}
use Store.{Agent, Verification, StateChange}

abbrev pub is_agent : String → Agent → Bool
is_agent a g = g.catalog_agent_id =ₛ a

unfoldable pub require_catalog_agent : String → Action (List Agent) Agent
require_catalog_agent a rows = elim (find? (is_agent a) rows) [
  | none ↦ Outcome.raised Error.not_found rows
  | some g ↦ Outcome.done g rows
]

abbrev pub given {ℓ} : {A : Type ℓ} → A → Option A → A
given old none = old
given old (some new) = new

abbrev pub all_truthy : List String → Bool
all_truthy [] = true
all_truthy (v ∷ vs) = truthy v && all_truthy vs

abbrev pub valid_types : Option (List String) → Bool
valid_types none = true
valid_types (some values) = all_truthy values

-- The time that `_update_catalog_agent` fills in where the folded status is the top level and the
-- caller gives none.
abbrev pub verified_at : ℕ → String → Option ℕ → Option ℕ → Option ℕ
verified_at now folded old given_at =
    if folded =ₛ "commerce_verified" && not (is_some given_at)
    then some now
    else given old (Option.map some given_at)

-- `_update_catalog_agent` on the columns that `set_state_domains` hands to it.
unfoldable pub with_domains : ℕ → String → String → String → StateChange → Agent → Agent
with_domains now level fresh admin c g =
    let folded = fold_verification_status level fresh admin in
    record g {
      verification_level = level;
      freshness_state = fresh;
      administrative_state = admin;
      verification_status = folded;
      handoff_destination_types = given g.handoff_destination_types c.handoff_destination_types;
      last_verified_at = verified_at now folded g.last_verified_at c.last_verified_at;
      last_refresh_attempt_at =
          given g.last_refresh_attempt_at (Option.map some c.last_refresh_attempt_at);
      last_refresh_result = given g.last_refresh_result c.last_refresh_result;
      updated_at = now;
    }

unfoldable pub set_state_domains : ℕ → String → StateChange → Action (List Agent) Agent
set_state_domains now a c = do
  current ← require_catalog_agent a
  let level = given current.verification_level c.verification_level
  let fresh = given current.freshness_state c.freshness_state
  let admin = given current.administrative_state c.administrative_state
  raise_if (not (one_of verification_levels level)) Error.validation
  raise_if (not (one_of freshness_states fresh)) Error.validation
  raise_if (not (one_of administrative_states admin)) Error.validation
  raise_if (not (valid_types c.handoff_destination_types)) Error.validation
  modify (update (is_agent a) (with_domains now level fresh admin c))
  require_catalog_agent a

abbrev pub no_change : StateChange
no_change = record {
  verification_level = none;
  freshness_state = none;
  administrative_state = none;
  handoff_destination_types = none;
  last_verified_at = none;
  last_refresh_attempt_at = none;
  last_refresh_result = none;
}

abbrev pub seen : ℕ → Agent → Agent
seen stamp g = record g { last_seen_at = some stamp; updated_at = stamp }

-- A heartbeat: `now` is the clock, `stamp` the time that is written, which a caller may give.
unfoldable pub touch_catalog_agent : ℕ → ℕ → String → Action (List Agent) Agent
touch_catalog_agent now stamp a = do
  current ← require_catalog_agent a
  modify (update (is_agent a) (seen stamp))
  if current.administrative_state =ₛ "active" && not (current.freshness_state =ₛ "fresh")
      then (do
        set_state_domains now a (record no_change { freshness_state = some "fresh" })
        require_catalog_agent a)
      else require_catalog_agent a

-- The next number of an autoincrement column, where the last row was not deleted.
abbrev pub next_id : List Verification → ℕ
next_id [] = 1
next_id (r ∷ rows) = max (r.verification_id + 1) (next_id rows)

unfoldable pub insert_verification :
    String
    → String
    → String
    → List (String × String)
    → ℕ
    → Expiry
    → List Verification
    → List Verification
insert_verification a kind result evidence checked_at expires_at rows =
    insert
      (record {
        verification_id = next_id rows;
        catalog_agent_id = a;
        verification_type = kind;
        result = result;
        evidence = evidence;
        checked_at = checked_at;
        expires_at = expires_at;
      })
      rows

abbrev pub is_evidence : String → String → Option String → Verification → Bool
is_evidence a kind result r =
    r.catalog_agent_id =ₛ a
    && r.verification_type =ₛ kind
    && (if is_some result then given "" result =ₛ r.result else true)

-- `order by checked_at desc, verification_id desc limit 1`: `best` is the first so far.
abbrev pub precedes : Verification → Verification → Bool
precedes r s =
    ltb s.checked_at r.checked_at
    || (r.checked_at == s.checked_at && ltb s.verification_id r.verification_id)

abbrev pub better : Verification → Option Verification → Verification
better r none = r
better r (some s) = if precedes s r then s else r

unfoldable pub latest_verification :
    String → String → Option String → List Verification → Option Verification
latest_verification a kind result [] = none
latest_verification a kind result (r ∷ rows) =
    let rest = latest_verification a kind result rows in
    if is_evidence a kind result r then some (better r rest) else rest
