-- ===== src/BindingHandlers/Revocation.antt =====
-- `revoke_runtime_binding` of kiwi_catalog/api/handlers/cloud_binding.py: what a revocation that is
-- served has done.
use kiwi_catalog.Prelude.{
  ℕ, String, List, true, ◌&&◌, ◌≡◌, refl, ◌⊎◌, inl, inr, false, none, some, ◌=ₛ◌, arith, eq_iff,
  Bool-cases, Option-cases, strip, subst,
}
use kiwi_catalog.Prelude.Table.{find?, update, delete}
use kiwi_catalog.Prelude.Table.Laws.{
  find?-delete-none, find?-delete_absent, find?-true, find?-update, count-update_lt,
  find?-of_count_zero,
}
use kiwi_catalog.Prelude.Table.Found.{find?-one}
use kiwi_catalog.Action.{done, modify, then_do, then_do-eq-done}
use kiwi_catalog.BindingRequests.{has_id, revoked}
use kiwi_catalog.BindingRequests.Endpoints.{
  active_binding, active_of, of_kind, sync_endpoints, sync_cloud_endpoints, cloud_card_url,
}
use kiwi_catalog.BindingRequests.Single.{IsSound, active_binding-only}
use kiwi_catalog.BindingRequests.Store.{Endpoint, Publication, Binding, Db as Core, Env as CoreEnv}
use kiwi_catalog.BindingHandlers.{
  signed_by_runtime, owned, write_revocation, revoke_runtime_binding,
}
use kiwi_catalog.BindingHandlers.Store.{Auth}
use kiwi_catalog.BindingHandlers.Changes.{Change, Change-IsSound}

-- The check of a signature leaves everything but the nonces.
signed_by_runtime-kept :
    (e : CoreEnv) (auth : Auth) (f : Core → Core) (s t : Core)
    → then_do (signed_by_runtime e auth s) (λ _. modify f) ≡ done tt t
    → (checked : Core) × (t ≡ f checked) × (checked ≡ record s { nonces = checked.nonces })
signed_by_runtime-kept e auth f s t h =
    let (u, checked, signs, rest) = then_do-eq-done (signed_by_runtime e auth s) _ h in
    (checked, ground arith, ground (arith, signs))

-- What a revocation that is served has done: nothing, where the binding was revoked before; or its
-- writes, after the signature was checked and its nonce used up.
pub record Revokes (e : CoreEnv) (a id : String) (s t : Core) : Type 0 where
  pub row : Binding
  pub found : find? (owned a id) s.bindings ≡ some row
  pub writes :
      ((row.status ≡ "revoked") × (t ≡ s))
      ⊎ ((checked : Core) × (actor : String) × ((row.status =ₛ "revoked") ≡ false)
          × (checked ≡ record s { nonces = checked.nonces })
          × (t ≡ write_revocation e a id actor checked))

pub revoke_runtime_binding-done :
    (e : CoreEnv) (a id : String) (auth : Auth) (s t : Core)
    → revoke_runtime_binding e a id auth s ≡ done tt t
    → Revokes e (strip a) (strip id) s t
unfolding revoke_runtime_binding
revoke_runtime_binding-done e a id auth s t h =
    elim (Option-cases (find? (owned (strip a) (strip id)) s.bindings)) [
      | inl missing ↦ absurd (ground (arith, missing))
      | inr (row, found) ↦ record {
        row = row;
        found = found;
        writes = elim (Bool-cases (row.status =ₛ "revoked")) [
          | inl before ↦ inl (ground (arith, eq_iff row.status "revoked"), ground (arith, found))
          | inr other ↦ elim (Bool-cases auth.is_admin) [
            | inl admin ↦ inr (s, "admin", other, refl, ground (arith, found))
            | inr guest ↦
                let (checked, signs, kept) =
                  signed_by_runtime-kept e auth (write_revocation e (strip a) (strip id) "runtime")
                    s t (ground (arith, found, other, guest)) in
                inr (checked, "runtime", other, kept, signs)
          ]
        ];
      }
    ]

-- Without an active binding, an agent has no a2a endpoint once its endpoints are derived again.
sync_endpoints-no_a2a :
    (url a : String) (now : ℕ) (bindings : List Binding) (publications : List Publication)
    (rows : List Endpoint)
    → active_binding a bindings ≡ none
    → find? (of_kind a "a2a") (sync_endpoints url a now bindings publications rows) ≡ none
unfolding sync_endpoints
sync_endpoints-no_a2a url a now bindings publications rows free =
    let p = of_kind a "a2a" in
    let gone = find?-delete-none p p rows (λ x e. e) in
    ground (
      arith,
      free,
      find?-delete-none p p rows (λ x e. e),
      find?-delete_absent p (λ e. of_kind a "agent_card" e && e.url =ₛ url) (delete p rows) gone,
    )

-- The revocation of the row that is found, and that was active, leaves no active one.
closed-no_active :
    (a id : String) (now : ℕ) (rows : List Binding) (row : Binding)
    → IsSound rows
    → find? (owned a id) rows ≡ some row
    → row.status ≡ "active"
    → IsSound (update (has_id id) (revoked now) rows)
    → active_binding a (update (has_id id) (revoked now) rows) ≡ none
closed-no_active a id now rows row sound found active after =
    let mine = find?-true (owned a id) rows row found in
    let current : active_of a row ≡ true =
      ground (arith, mine, active, eq_iff row.status "active") in
    let one = find?-one (active_of a) (owned a id) rows row found current (sound.one_active a) in
    let less =
      count-update_lt (active_of a) (has_id id) (revoked now) rows row
        (λ (x : Binding) _ e. ground arith) one (ground (arith, mine)) (ground arith) in
    let none_left =
      find?-of_count_zero (active_of a) (update (has_id id) (revoked now) rows)
        (omega (arith, less, sound.one_active a)) in
    rw (active_binding-only a (update (has_id id) (revoked now) rows) (after.one_active a))
      none_left

closed-revoked :
    (a id : String) (now : ℕ) (rows : List Binding) (row : Binding)
    → find? (owned a id) rows ≡ some row
    → find? (owned a id) (update (has_id id) (revoked now) rows) ≡ some (revoked now row)
closed-revoked a id now rows row found = ground (
  arith,
  found,
  find?-true (owned a id) rows row found,
  find?-update (owned a id) (has_id id) (revoked now) rows (λ x _. refl),
)

-- The state after the writes of a revocation.
written-bindings :
    (e : CoreEnv) (a id actor : String) (s checked t : Core)
    → checked ≡ record s { nonces = checked.nonces }
    → t ≡ write_revocation e a id actor checked
    → (t.bindings ≡ update (has_id id) (revoked e.now) s.bindings)
      × (t.endpoints
          ≡ sync_endpoints
              (cloud_card_url e.base_url a)
              a
              e.now
              t.bindings
              s.publications
              s.endpoints)
unfolding write_revocation sync_cloud_endpoints
written-bindings e a id actor s checked t kept after =
    (ground (arith, kept, after), ground (arith, kept, after))

pub revoke_runtime_binding-Change :
    (e : CoreEnv) (a id : String) (auth : Auth) (s t : Core)
    → revoke_runtime_binding e a id auth s ≡ done tt t
    → Change s.bindings t.bindings
revoke_runtime_binding-Change e a id auth s t h =
    let r = revoke_runtime_binding-done e a id auth s t h in
    elim r.writes [
      | inl (_, kept) ↦ rw kept Change.same
      | inr (checked, actor, _, kept, after) ↦
          let (rows, _) = written-bindings e (strip a) (strip id) actor s checked t kept after in
          rw rows (Change.closed (strip id) e.now)
    ]

-- A revocation that is served leaves the binding revoked. In a sound table, where the binding was the
-- active one of the agent, no binding of the agent is active then, and no a2a endpoint of the agent
-- is left.
pub revoke_runtime_binding-revokes :
    (e : CoreEnv) (a id : String) (auth : Auth) (s t : Core)
    → IsSound s.bindings
    → revoke_runtime_binding e a id auth s ≡ done tt t
    → (row : Binding) × (find? (owned (strip a) (strip id)) s.bindings ≡ some row)
      × ((r : Binding) × (find? (owned (strip a) (strip id)) t.bindings ≡ some r)
          × (r.status ≡ "revoked"))
      × (row.status ≡ "active"
          → (active_binding (strip a) t.bindings ≡ none)
            × (find? (of_kind (strip a) "a2a") t.endpoints ≡ none))
revoke_runtime_binding-revokes e a id auth s t sound h =
    let r = revoke_runtime_binding-done e a id auth s t h in
    let sound' = Change-IsSound (revoke_runtime_binding-Change e a id auth s t h) sound in
    elim r.writes [
      | inl (before, kept) ↦ (r.row, r.found, (r.row, rw kept r.found, before), λ active. absurd cc)
      | inr (checked, actor, _, kept, after) ↦
          let (rows, ends) = written-bindings e (strip a) (strip id) actor s checked t kept after in
          (
            r.row,
            r.found,
            (
              revoked e.now r.row,
              rw rows (closed-revoked (strip a) (strip id) e.now s.bindings r.row r.found),
              refl,
            ),
            λ active.
                let free : active_binding (strip a) t.bindings ≡ none = rw rows (
                  closed-no_active (strip a) (strip id) e.now s.bindings r.row sound r.found active
                    (subst IsSound rows sound')) in
                (
                  free,
                  rw ends (
                      sync_endpoints-no_a2a (cloud_card_url e.base_url (strip a)) (strip a) e.now
                        t.bindings s.publications s.endpoints free),
                ),
          )
    ]
