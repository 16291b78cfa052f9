-- ===== src/BindingRequests/Endpoints.antt =====
-- kiwi_catalog/services/agent_endpoints.py: the endpoints by which buyers find an agent of the
-- hosted runtimes, derived from its active binding and its published card.
use kiwi_catalog.Prelude.{
  ℕ, ◌+◌, String, Bool, true, false, not, ◌&&◌, Option, none, some, List, ◌=ₛ◌, ◌==◌, is_some,
  if◌then◌else◌,
}
use Prim.Native.String.{◌++◌}
use kiwi_catalog.Prelude.Table.{find?, update, insert, delete, max_of}
use kiwi_catalog.BindingRequests.Store.{Binding, Endpoint, Publication, Db}

abbrev pub active_of : String → Binding → Bool
active_of a b = b.catalog_agent_id =ₛ a && b.status =ₛ "active"

abbrev pub is_binding : String → ℕ → Binding → Bool
is_binding a v b = b.catalog_agent_id =ₛ a && b.binding_version == v

-- `order by binding_version desc limit 1` among the active ones
unfoldable pub active_binding : String → List Binding → Option Binding
active_binding a rows =
    let newest = max_of (active_of a) (λ b. b.binding_version) rows in
    find? (λ b. active_of a b && b.binding_version == newest) rows

abbrev pub of_kind : String → String → Endpoint → Bool
of_kind a kind e = e.catalog_agent_id =ₛ a && e.kind =ₛ kind

abbrev next_id : List Endpoint → ℕ
next_id rows = max_of (λ e. true) (λ e. e.endpoint_id) rows + 1

abbrev new_endpoint : List Endpoint → String → String → String → ℕ → Endpoint
new_endpoint rows a kind url now = record {
  endpoint_id = next_id rows;
  catalog_agent_id = a;
  kind = kind;
  url = url;
  protocol = "a2a";
  protocol_version = "";
  preference = 1;
  status = "active";
  last_checked_at = now;
}

abbrev pub moved : String → ℕ → Endpoint → Endpoint
moved url now e = record e { url = url; last_checked_at = now }

unfoldable pub upsert_a2a_endpoint : String → String → ℕ → List Endpoint → List Endpoint
upsert_a2a_endpoint a url now rows = elim (find? (of_kind a "a2a") rows) [
  | none ↦ insert (new_endpoint rows a "a2a" url now) rows
  | some row ↦ update (λ e. e.endpoint_id == row.endpoint_id) (moved url now) rows
]

abbrev pub described : String → ℕ → Endpoint → Endpoint
described url now e = record e {
  url = url;
  protocol = "a2a";
  protocol_version = "";
  preference = 1;
  last_checked_at = now;
}

-- `upsert_profile_endpoints` for the one endpoint of kind agent_card that is passed to it here.
unfoldable pub upsert_card_endpoint : String → String → ℕ → List Endpoint → List Endpoint
upsert_card_endpoint a url now rows = elim (find? (of_kind a "agent_card") rows) [
  | none ↦ insert (new_endpoint rows a "agent_card" url now) rows
  | some row ↦ update (λ e. e.endpoint_id == row.endpoint_id) (described url now) rows
]

unfoldable pub cloud_card_url : String → String → String
cloud_card_url base_url a = base_url ++ "/v1/agents/" ++ a ++ "/agent-card.json"

abbrev publication_of : String → List Publication → Option Publication
publication_of a rows = find? (λ p. p.catalog_agent_id =ₛ a) rows

abbrev pub is_withdrawn : Option Publication → Bool
is_withdrawn none = false
is_withdrawn (some p) = p.publication_state =ₛ "WITHDRAWN"

abbrev sync_a2a : String → ℕ → Bool → Option Binding → List Endpoint → List Endpoint
sync_a2a a now withdrawn none rows = delete (of_kind a "a2a") rows
sync_a2a a now withdrawn (some b) rows =
    if not withdrawn
    then upsert_a2a_endpoint a b.a2a_endpoint now rows
    else delete (of_kind a "a2a") rows

unfoldable pub sync_endpoints :
    String → String → ℕ → List Binding → List Publication → List Endpoint → List Endpoint
sync_endpoints card_url a now bindings publications rows =
    let publication = publication_of a publications in
    let withdrawn = is_withdrawn publication in
    let binding = active_binding a bindings in
    let has_card = is_some publication && not withdrawn in
    let synced = sync_a2a a now withdrawn binding rows in
    if is_some binding && has_card
    then upsert_card_endpoint a card_url now synced
    else delete (λ e. of_kind a "agent_card" e && e.url =ₛ card_url) synced

unfoldable pub sync_cloud_endpoints : String → String → ℕ → Db → Db
sync_cloud_endpoints base_url a now db = record db {
  endpoints =
      sync_endpoints (cloud_card_url base_url a) a now db.bindings db.publications db.endpoints;
}
