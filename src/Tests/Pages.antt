-- ===== src/Tests/Pages.antt =====
-- Three agents of a merchant on two pages (kiwi_catalog/agent_catalog/pagination.py).
use kiwi_catalog.Prelude.{◌≡◌, refl, Bool, ◌&&◌, some, none, List, [], ◌∷◌, ◌=ₛ◌, arith}
use kiwi_catalog.Prelude.TextOrder.{comes_before}
use kiwi_catalog.Prelude.Sorting.{Sorted, ordered, placed}
use kiwi_catalog.Prelude.Table.{count, select}
use kiwi_catalog.Prelude.Table.Keyed.{Distinct}
use kiwi_catalog.AgentCatalog.Pages.{
  list_catalog_agents_by_merchant, agent_page, agent_page_query, paginate_agent_rows,
  agent_order_by, agent_cursor_predicate, agent_status_rank, cursor_of,
}
use kiwi_catalog.AgentCatalog.Paging.{read_pages, read_pages-Sorted}
use kiwi_catalog.AgentCatalog.Store.{Agent}

abbrev lamps : Agent
lamps = record {
  catalog_agent_id = "cagt_1";
  merchant_id = "mkt_1";
  display_name = "Lamps";
  canonical_domain = "";
  verification_status = "discovered";
  verification_level = "discovered";
  freshness_state = "fresh";
  administrative_state = "active";
  handoff_destination_types = [];
  last_refresh_attempt_at = none;
  last_refresh_result = "";
  last_seen_at = none;
  last_verified_at = none;
  updated_at = 0;
}

abbrev chairs : Agent
chairs = record lamps { catalog_agent_id = "cagt_2"; display_name = "Chairs" }

abbrev tables : Agent
tables = record lamps {
  catalog_agent_id = "cagt_3";
  display_name = "Tables";
  verification_status = "commerce_verified";
  last_verified_at = some 900;
}

abbrev foreign : Agent
foreign = record lamps { catalog_agent_id = "cagt_4"; merchant_id = "mkt_2" }

abbrev rows : List Agent
rows = lamps ∷ foreign ∷ chairs ∷ tables ∷ []

first_page :
    list_catalog_agents_by_merchant "mkt_1" 2 none rows
    ≡ (tables ∷ chairs ∷ [], some (cursor_of chairs))
unfolding list_catalog_agents_by_merchant agent_page agent_page_query paginate_agent_rows
    agent_order_by agent_cursor_predicate agent_status_rank comes_before ordered placed select
first_page = refl

second_page :
    list_catalog_agents_by_merchant "mkt_1" 2 (some (cursor_of chairs)) rows ≡ (lamps ∷ [], none)
unfolding list_catalog_agents_by_merchant agent_page agent_page_query paginate_agent_rows
    agent_order_by agent_cursor_predicate agent_status_rank comes_before ordered placed select
second_page = refl

abbrev mine : Agent → Bool
mine g = g.merchant_id =ₛ "mkt_1"

abbrev lamps_only : Agent → Bool
lamps_only g = g.display_name =ₛ "Lamps"

alone : Distinct (λ (g : Agent). g.catalog_agent_id) rows
unfolding count
alone = (refl, (refl, (refl, (refl, tt))))

read_pages-Sorted_example :
    Sorted agent_order_by (read_pages 5 mine 2 none rows)
    × (count lamps_only (read_pages 5 mine 2 none rows) ≡ count (λ g. mine g && lamps_only g) rows)
read_pages-Sorted_example =
    read_pages-Sorted 5 mine lamps_only 2 rows alone (omega arith) (omega arith)
