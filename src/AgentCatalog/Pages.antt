-- ===== src/AgentCatalog/Pages.antt =====
-- The pages of a list of agents: kiwi_catalog/agent_catalog/pagination.py and catalog_query.py, and the
-- two lists of kiwi_catalog/agent_catalog/sqlite_repository.py.
use kiwi_catalog.Prelude.{
  ℕ, suc, String, Bool, true, ◌&&◌, ◌||◌, Option, none, some, List, ◌==◌, ◌=ₛ◌, ltb, if◌then◌else◌,
  take, length,
}
use kiwi_catalog.Prelude.TextOrder.{comes_before}
use kiwi_catalog.Prelude.Sorting.{ordered, last_row}
use kiwi_catalog.Prelude.Table.{select}
use kiwi_catalog.AgentCatalog.Store.{Agent}
use mathlib.Core.Option

unfoldable pub agent_status_rank : String → ℕ
agent_status_rank s =
    if s =ₛ "commerce_verified"
    then 0
    else if s =ₛ "agent_verified"
    then 1
    else if s =ₛ "domain_verified"
    then 2
    else if s =ₛ "profile_valid"
    then 3
    else if s =ₛ "discovered"
    then 4
    else if s =ₛ "stale"
    then 5
    else if s =ₛ "unreachable"
    then 6
    else if s =ₛ "suspended"
    then 7
    else if s =ₛ "rejected"
    then 8
    else 9

-- The column `last_verified_at`, which is not null: the empty text is below every time.
abbrev pub stamp : Option ℕ → ℕ
stamp none = 0
stamp (some t) = suc t

-- What the text of a cursor (JSON in base64) holds.
pub record Cursor : Type 0 where
  pub rank : ℕ
  pub last_verified_at : Option ℕ
  pub display_name : String
  pub catalog_agent_id : String

abbrev pub cursor_of : Agent → Cursor
cursor_of g = record {
  rank = agent_status_rank g.verification_status;
  last_verified_at = g.last_verified_at;
  display_name = g.display_name;
  catalog_agent_id = g.catalog_agent_id;
}

abbrev pub names_before : String → String → String → String → Bool
names_before n i m j = comes_before n m || (n =ₛ m && comes_before i j)

-- `AGENT_ORDER_BY`: by rank, the last verified first, by name, by id.
unfoldable pub agent_order_by : Agent → Agent → Bool
agent_order_by x y =
    let r = agent_status_rank x.verification_status in
    let q = agent_status_rank y.verification_status in
    ltb r q
    || (r == q
        && (ltb (stamp y.last_verified_at) (stamp x.last_verified_at)
            || (stamp x.last_verified_at == stamp y.last_verified_at
                && names_before x.display_name x.catalog_agent_id y.display_name
                    y.catalog_agent_id)))

-- The four clauses of the predicate of a cursor.
unfoldable pub agent_cursor_predicate : Cursor → Agent → Bool
agent_cursor_predicate c g =
    let r = agent_status_rank g.verification_status in
    let l = stamp g.last_verified_at in
    let k = stamp c.last_verified_at in
    ltb c.rank r
    || (r == c.rank && ltb l k)
    || (r == c.rank && l == k && comes_before c.display_name g.display_name)
    || (r == c.rank
        && l == k
        && c.display_name =ₛ g.display_name
        && comes_before c.catalog_agent_id g.catalog_agent_id)

-- One row more than the page.
unfoldable pub agent_page_query : (Agent → Bool) → ℕ → List Agent → List Agent
agent_page_query p limit rows = take (suc limit) (ordered agent_order_by (select p rows))

unfoldable pub paginate_agent_rows : List Agent → ℕ → List Agent × Option Cursor
paginate_agent_rows rows limit = (
  take limit rows,
  if ltb limit (length rows) then Option.map cursor_of (last_row (take limit rows)) else none,
)

abbrev pub beyond : Option Cursor → Agent → Bool
beyond none g = true
beyond (some c) g = agent_cursor_predicate c g

-- A page of the rows that meet the other clauses of a query.
unfoldable pub agent_page :
    (Agent → Bool) → ℕ → Option Cursor → List Agent → List Agent × Option Cursor
agent_page p limit cursor rows =
    paginate_agent_rows (agent_page_query (λ g. p g && beyond cursor g) limit rows) limit

unfoldable pub list_catalog_agents : ℕ → Option Cursor → List Agent → List Agent × Option Cursor
list_catalog_agents = agent_page (λ g. true)

unfoldable pub list_catalog_agents_by_merchant :
    String → ℕ → Option Cursor → List Agent → List Agent × Option Cursor
list_catalog_agents_by_merchant m = agent_page (λ g. g.merchant_id =ₛ m)
