-- ===== src/BindingRequests/Requests.antt =====
-- The requests of kiwi_catalog/services/binding_requests.py: how they are made, listed and loaded, and
-- how they expire.
use Prim.Native.String.{◌++◌}
use kiwi_catalog.Prelude.{
  ℕ, ◌+◌, ◌*◌, String, Bool, not, ◌&&◌, Option, none, some, List, [], ◌∷◌, ◌=ₛ◌, ltb, leb, is_some,
  truthy, if◌then◌else◌, max, strip,
}
use kiwi_catalog.Prelude.Table.{find?, select, update, insert, count}
use kiwi_catalog.Result.{Error}
use kiwi_catalog.Action.{
  Action, Outcome, ◌>>=◌, ◌>>◌, pure, gets, modify, raise_if, from_option, zoom,
}
use kiwi_catalog.RequestNonces.{Signed, consume_request_nonce}
use kiwi_catalog.AgentCatalog.{is_agent}
use kiwi_catalog.AgentCatalog.Store.{Agent}
use kiwi_catalog.BindingRequests.Store.{Request, Db, Env, Proposal}

-- `max(1, int(raw))` of a setting, or its default
abbrev pub at_least_one : ℕ → Option ℕ → ℕ
at_least_one default none = default
at_least_one default (some n) = max 1 n

unfoldable pub ttl_hours : Env → ℕ
ttl_hours e = at_least_one 72 e.ttl

unfoldable pub max_pending : Env → ℕ
max_pending e = at_least_one 3 e.max

abbrev pub pending_of : String → Request → Bool
pending_of a r = r.catalog_agent_id =ₛ a && r.status =ₛ "pending"

abbrev pub is_request : String → Request → Bool
is_request id r = r.binding_request_id =ₛ id

abbrev pub decided : String → ℕ → Request → Request
decided status now r = record r { status = status; decided_at = some now }

abbrev pub noted : String → ℕ → String → Request → Request
noted status now note r = record r { status = status; decided_at = some now; decided_note = note }

abbrev pub set_requests : (Request → Bool) → (Request → Request) → Db → Db
set_requests p f db = record db { requests = update p f db.requests }

unfoldable pub expire_stale : String → ℕ → Db → Db
expire_stale a now =
    set_requests (λ r. pending_of a r && leb r.expires_at now) (decided "expired" now)

abbrev pub audited : String → String → String → ℕ → Db → Db
audited a actor event now db = record db {
  audits =
      insert (record { catalog_agent_id = a; actor = actor; event = event; created_at = now })
        db.audits;
}

-- `services/account_agents.py`; the merchant is that of the session's account.
unfoldable pub require_owned_agent : String → String → Action Db Agent
require_owned_agent merchant_id a db = elim (find? (is_agent (strip a)) db.agents) [
  | none ↦ Outcome.raised Error.not_found db
  | some g ↦
      if strip g.merchant_id =ₛ strip merchant_id
      then Outcome.done g db
      else Outcome.raised Error.not_found db
]

abbrev pub new_request : Env → Proposal → String → Request
new_request e p nonce = record {
  binding_request_id = e.request_id;
  catalog_agent_id = p.agent.catalog_agent_id;
  merchant_id = p.agent.merchant_id;
  runtime_origin = p.runtime_origin;
  a2a_endpoint = p.a2a_endpoint;
  key_id = p.key_id;
  key_thumbprint = p.thumbprint;
  key_jwk_json = p.key_jwk_json;
  generation = p.generation;
  service_epoch = p.service_epoch;
  nonce = nonce;
  status = "pending";
  requested_at = e.now;
  expires_at = e.now + ttl_hours e * 3600;
  decided_at = none;
  decided_note = "";
  access_config_version = p.access_config_version;
}

-- The primary key refuses an id that is taken.
abbrev pub insert_request : Request → Action Db Unit
insert_request r db =
    if is_some (find? (is_request r.binding_request_id) db.requests)
    then Outcome.raised Error.integrity db
    else Outcome.done tt (record db { requests = insert r db.requests })

abbrev pub signed : Proposal → String → Signed
signed p nonce = record { key_id = p.key_id; nonce = nonce; issued_at = p.issued_at }

abbrev pub consume_nonce : Env → Proposal → String → Action Db Unit
consume_nonce e p nonce =
    zoom (λ (db : Db). db.nonces) (λ db rows. record db { nonces = rows })
      (consume_request_nonce e.now e.calls (signed p nonce))

-- The answer's fields are columns of the row that is returned here.
unfoldable pub create_request : Env → Proposal → Action Db Request
create_request e p = do
  modify (expire_stale p.agent.catalog_agent_id e.now)
  pending ← gets (λ (db : Db). count (pending_of p.agent.catalog_agent_id) db.requests)
  raise_if (leb (max_pending e) pending) Error.conflict
  nonce ← from_option Error.validation p.nonce
  raise_if (not (truthy nonce)) Error.validation
  consume_nonce e p nonce
  insert_request (new_request e p nonce)
  modify (
      audited p.agent.catalog_agent_id ("possession:" ++ p.key_id) "runtime_binding_requested"
        e.now)
  pure (new_request e p nonce)

-- `order by requested_at desc`
unfoldable pub placed : Request → List Request → List Request
placed r [] = r ∷ []
placed r (s ∷ rows) =
    let later = placed r rows in
    if ltb r.requested_at s.requested_at then s ∷ later else r ∷ s ∷ rows

unfoldable pub newest_first : List Request → List Request
newest_first [] = []
newest_first (r ∷ rows) = placed r (newest_first rows)

unfoldable pub pending_request_items : ℕ → String → Action Db (List Request)
pending_request_items now a = do
  modify (expire_stale a now)
  gets (λ (db : Db). newest_first (select (pending_of a) db.requests))

unfoldable pub list_pending_requests : Env → String → String → Action Db (List Request)
list_pending_requests e merchant_id a = do
  row ← require_owned_agent merchant_id a
  pending_request_items e.now row.catalog_agent_id

unfoldable pub load_pending_request : String → String → ℕ → Action Db Request
load_pending_request a id now = do
  modify (expire_stale a now)
  found ←
      gets
        (λ (db : Db). find? (λ r. is_request (strip id) r && r.catalog_agent_id =ₛ a) db.requests)
  req ← from_option Error.not_found found
  raise_if (req.status =ₛ "expired") Error.not_found
  raise_if (not (req.status =ₛ "pending")) Error.conflict
  pure req
