-- ===== src/BindingHandlers/Placement.antt =====
-- The rows of `runtime_bindings` under `_insert_active_binding` and the revocation
-- (kiwi_catalog/api/handlers/cloud_binding.py).
use kiwi_catalog.Prelude.{ℕ, String, ◌≡◌, refl, true, Option, none, some, List, arith, eq_iff}
use kiwi_catalog.Prelude.Table.{find?, update, insert}
use kiwi_catalog.Prelude.Table.Laws.{count-update_le, count-update_eq}
use kiwi_catalog.Prelude.Table.Keyed.{Distinct-update}
use kiwi_catalog.Action.{done}
use kiwi_catalog.AgentCatalog.Store.{Agent}
use kiwi_catalog.BindingRequests.{has_id, revoked, revoke}
use kiwi_catalog.BindingRequests.Endpoints.{
  active_binding, active_of, is_binding, sync_cloud_endpoints,
}
use kiwi_catalog.BindingRequests.Requests.{audited}
use kiwi_catalog.BindingRequests.Single.{
  IsSound, revoke-one_active, revoke-active, revoke-ids, revoke-versions, active_binding-only,
}
use kiwi_catalog.BindingRequests.Store.{Binding, Db as Core, Env as CoreEnv}
use kiwi_catalog.BindingHandlers.{successor, placed_row, place_binding, insert_active_binding}
use kiwi_catalog.BindingHandlers.Store.{Offer}

abbrev pub row_of : Agent → Offer → Option Binding → ℕ → Binding
row_of g o existing now = placed_row g o (successor existing) now

pub place_binding-done :
    (g : Agent) (o : Offer) (existing : Option Binding) (now : ℕ) (rows rows' : List Binding)
    (b : Binding)
    → place_binding g o existing now rows ≡ done b rows'
    → (b ≡ row_of g o existing now)
      × (find? (has_id (row_of g o existing now).binding_id) rows ≡ none)
      × (find? (is_binding g.catalog_agent_id (successor existing)) rows ≡ none)
      × (rows' ≡ revoke now existing (insert (row_of g o existing now) rows))
unfolding place_binding
place_binding-done g o existing now rows rows' b h = ground arith

module _ (g : Agent) (o : Offer) (existing : Option Binding) (now : ℕ) (rows rows' : List Binding)
    (b : Binding) (sound : IsSound rows)
    (current : active_binding g.catalog_agent_id rows ≡ existing)
    (h : place_binding g o existing now rows ≡ done b rows') where
  rows_after :
      rows'
      ≡ revoke now
          (find? (active_of g.catalog_agent_id) rows)
          (insert (row_of g o existing now) rows)
  rows_after =
      let (_, _, _, after) = place_binding-done g o existing now rows rows' b h in
      let a = g.catalog_agent_id in
      rw (← active_binding-only a rows (sound.one_active a), current) after

  -- The active binding that is replaced makes room for the new one.
  pub place_binding-IsSound : IsSound rows'
  place_binding-IsSound =
      let (_, fresh, unused, _) = place_binding-done g o existing now rows rows' b h in
      let row = row_of g o existing now in
      let a = g.catalog_agent_id in
      rw rows_after (record {
        one_active = λ c. revoke-one_active a now row rows refl c (sound.one_active c);
        ids = revoke-ids a now row rows fresh sound.ids;
        versions = λ c v. revoke-versions a now row rows unused c v (sound.versions c v);
      })

  pub place_binding-active : active_binding g.catalog_agent_id rows' ≡ some b
  place_binding-active =
      let (same, fresh, _, _) = place_binding-done g o existing now rows rows' b h in
      let row = row_of g o existing now in
      let a = g.catalog_agent_id in
      let new : active_of a row ≡ true = ground (arith, eq_iff a a) in
      let found : find? (active_of a) rows' ≡ some row =
        rw rows_after (revoke-active a now row rows new (sound.one_active a) fresh) in
      rw (active_binding-only a rows' (place_binding-IsSound.one_active a), same) found

-- A revocation makes no row active.
pub revoked-IsSound :
    (id : String) (now : ℕ) (rows : List Binding)
    → IsSound rows
    → IsSound (update (has_id id) (revoked now) rows)
revoked-IsSound id now rows sound = record {
  one_active = λ a. ground (
    arith,
    sound.one_active a,
    count-update_le (active_of a) (has_id id) (revoked now) rows
        (λ (x : Binding) _ e. ground arith),
  );
  ids = Distinct-update (λ b. b.binding_id) (has_id id) (revoked now) rows (λ x. refl) sound.ids;
  versions = λ a v.
      rw (count-update_eq (is_binding a v) (has_id id) (revoked now) rows (λ x _. refl))
        (sound.versions a v);
}

-- The state after `_insert_active_binding`: the rows that the placement left, and what hangs on them.
pub insert_active_binding-done :
    (e : CoreEnv) (g : Agent) (o : Offer) (existing : Option Binding) (actor : String) (s t : Core)
    (b : Binding)
    → insert_active_binding e g o existing actor s ≡ done b t
    → (rows : List Binding) × (place_binding g o existing e.now s.bindings ≡ done b rows)
      × (t
          ≡ audited g.catalog_agent_id actor "runtime_binding_created" e.now (
              sync_cloud_endpoints e.base_url g.catalog_agent_id e.now
                (record s { bindings = rows })))
unfolding insert_active_binding
insert_active_binding-done e g o existing actor s t b h = ground arith
