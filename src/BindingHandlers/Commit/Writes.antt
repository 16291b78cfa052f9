-- ===== src/BindingHandlers/Commit/Writes.antt =====
-- What `_create_enrollment_binding` (kiwi_catalog/api/handlers/cloud_binding.py) has written once its
-- second transaction has placed the binding.
use kiwi_catalog.Prelude.{ℕ, String, ◌≡◌, refl, inl, inr, Option, none, some, not, ◌==◌, arith}
use kiwi_catalog.Prelude.Table.{update, count}
use kiwi_catalog.Result.{Error}
use Prim.Native.String.{◌++◌}
use kiwi_catalog.Action.{Outcome, Outcome-cases, done, raise_if-done, then_do-eq-done}
use kiwi_catalog.RuntimeAccess.Parse.{Json}
use kiwi_catalog.AgentCatalog.Store.{Agent}
use kiwi_catalog.BindingRequests.{canonical_domain_of, activate_linked_access_config}
use kiwi_catalog.BindingRequests.Endpoints.{active_binding}
use kiwi_catalog.BindingRequests.Evidence.{record_active_binding_evidence}
use kiwi_catalog.BindingRequests.Frames.{evidence-Keeps, activate_linked-Keeps}
use kiwi_catalog.BindingRequests.Store.{Binding, Db as Core, Env as CoreEnv}
use kiwi_catalog.Enrollments.Store.{Enrollment}
use kiwi_catalog.BindingHandlers.{insert_active_binding}
use kiwi_catalog.BindingHandlers.Grants.{
  on_core, stage_or_skip, bound, authorized_row, grant_taken, domain_set, finish_binding,
  place_grant, bind_enrollment,
}
use kiwi_catalog.BindingHandlers.Store.{Db, Env, Bid}

pub stage_or_skip-bindings :
    (e : CoreEnv) (a : String) (access : Option Json) (s t : Core) (n : ℕ)
    → stage_or_skip e a access s ≡ done n t
    → t.bindings ≡ s.bindings
unfolding stage_or_skip
stage_or_skip-bindings e a none s t n h = ground arith
stage_or_skip-bindings e a (some json) s t n h = ground arith

pub on_core-done :
    {A : Type 0} (m : Core → Outcome Core A) (s t : Db) (x : A)
    → on_core m s ≡ done x t
    → (c : Core) × (m s.core ≡ done x c) × (t ≡ record s { core = c })
on_core-done m s t x h = elim (Outcome-cases (m s.core)) [
  | inl (y, c, e) ↦ (c, ground (arith, e), ground (arith, e))
  | inr (error, c, e) ↦ absurd (ground (arith, e))
]

-- `t` has the bindings and the enrollments of `s`.
pub record Keeps (s t : Db) : Type 0 where
  pub bindings : t.core.bindings ≡ s.core.bindings
  pub enrollments : t.enrollments ≡ s.enrollments

pub on_core-Keeps :
    {A : Type 0} (m : Core → Outcome Core A) (s t : Db) (x : A)
    → ((c d : Core) → m c ≡ done x d → d.bindings ≡ c.bindings)
    → on_core m s ≡ done x t
    → Keeps s t
on_core-Keeps m s t x kept h =
    let (c, ran, after) = on_core-done m s t x h in
    record {
      bindings = ground (arith, after, kept s.core c ran);
      enrollments = ground (arith, after);
    }

pub canonical-bindings :
    (e : CoreEnv) (url : String) (c d : Core) (x : String)
    → canonical_domain_of e url c ≡ done x d
    → d.bindings ≡ c.bindings
unfolding canonical_domain_of
canonical-bindings e url c d x h = ground arith

-- What follows once the binding is placed and the enrollment bound.
pub finish-Keeps :
    (e : Env) (bid : Bid) (thumb : String) (version : ℕ) (row : Enrollment) (b b' : Binding)
    (s t : Db)
    → finish_binding e bid thumb version row b s ≡ done b' t
    → (b' ≡ b) × Keeps s t
unfolding finish_binding
finish-Keeps e bid thumb version row b b' s t h =
    let (canonical, s1, named, h1) =
      then_do-eq-done (on_core (canonical_domain_of e.core row.runtime_origin) s) _ h in
    let k1 =
      on_core-Keeps _ s s1 canonical
        (λ c d. canonical-bindings e.core row.runtime_origin c d canonical) named in
    let (expires, s2, proved, h2) =
      then_do-eq-done
        (on_core
          (record_active_binding_evidence e.core bid.agent_id b.binding_id thumb row.runtime_origin
            row.a2a_endpoint)
          (domain_set e bid canonical s1))
        _ h1 in
    let k2 =
      on_core-Keeps _ (domain_set e bid canonical s1) s2 expires
        (λ c d p.
          (evidence-Keeps e.core bid.agent_id b.binding_id thumb row.runtime_origin row.a2a_endpoint
            c d expires p).bindings)
        proved in
    let (u, s3, activated, h3) =
      then_do-eq-done (on_core (activate_linked_access_config e.core bid.agent_id version) s2) _
        h2 in
    let k3 =
      on_core-Keeps _ s2 s3 u
        (λ c d p. (activate_linked-Keeps e.core bid.agent_id version c d p).bindings) activated in
    (
      ground arith,
      record {
        bindings = ground (arith, k1.bindings, k2.bindings, k3.bindings);
        enrollments = ground (arith, k1.enrollments, k2.enrollments, k3.enrollments);
      },
    )

-- The binding is placed, and the enrollment bound.
pub record Places (e : Env) (bid : Bid) (g : Agent) (b : Binding) (s t : Db) : Type 0 where
  pub before : Core
  pub rows : before.bindings ≡ s.core.bindings
  pub after : Core
  pub placed :
      insert_active_binding e.core g bid.offer
        (active_binding bid.agent_id before.bindings)
        ("enrollment:" ++ bid.enrollment_id)
        before
      ≡ done b after
  pub bindings : t.core.bindings ≡ after.bindings
  pub one : count (authorized_row bid.enrollment_id) s.enrollments ≡ 1
  pub enrollments :
      t.enrollments
      ≡ update (authorized_row bid.enrollment_id) (bound b.binding_id e.core.now) s.enrollments

pub place_grant-Places :
    (e : Env) (bid : Bid) (g : Agent) (s t : Db) (b : Binding)
    → place_grant e bid g s ≡ done b t
    → Places e bid g b s t
unfolding place_grant
place_grant-Places e bid g s t b h =
    let (_, h1) = raise_if-done (not bid.offer.management_valid) Error.validation s _ h in
    let act =
      insert_active_binding e.core g bid.offer (active_binding bid.agent_id s.core.bindings)
        ("enrollment:" ++ bid.enrollment_id) in
    let (b1, s1, inserts, h2) = then_do-eq-done (on_core act s) _ h1 in
    let (c, placed, kept) = on_core-done act s s1 b1 inserts in
    let (one, h3) =
      raise_if-done (not (count (authorized_row bid.enrollment_id) s1.enrollments == 1))
        Error.conflict (grant_taken e bid b1 s1) _ h2 in
    let same : b1 ≡ b = ground (arith, h3) in
    let ends : grant_taken e bid b1 s1 ≡ t = ground (arith, h3) in
    record {
      before = s.core;
      rows = refl;
      after = c;
      placed = ground (arith, placed, same);
      bindings = ground (arith, kept, ends);
      one = ground (arith, kept, one);
      enrollments = ground (arith, kept, ends, same);
    }

-- Steps that keep the bindings and the enrollments, before and after.
pub Places-between :
    (e : Env) (bid : Bid) (g : Agent) (b b' : Binding) (s s1 t1 t : Db)
    → Keeps s s1
    → Places e bid g b s1 t1
    → Keeps t1 t
    → b' ≡ b
    → Places e bid g b' s t
Places-between e bid g b b' s s1 t1 t k p l same = record {
  before = p.before;
  rows = ground (arith, p.rows, k.bindings);
  after = p.after;
  placed = rw same p.placed;
  bindings = ground (arith, l.bindings, p.bindings);
  one = ground (arith, p.one, k.enrollments);
  enrollments = ground (arith, l.enrollments, p.enrollments, same, k.enrollments);
}

pub bind_enrollment-Places :
    (e : Env) (bid : Bid) (thumb : String) (row : Enrollment) (g : Agent) (s t : Db) (b : Binding)
    → bind_enrollment e bid thumb row g s ≡ done b t
    → Places e bid g b s t
unfolding bind_enrollment
bind_enrollment-Places e bid thumb row g s t b h =
    let (version, s1, stages, h1) =
      then_do-eq-done (on_core (stage_or_skip e.core bid.agent_id bid.access) s) _ h in
    let before =
      on_core-Keeps (stage_or_skip e.core bid.agent_id bid.access) s s1 version
        (λ c d. stage_or_skip-bindings e.core bid.agent_id bid.access c d version) stages in
    let (b1, s2, places, h2) = then_do-eq-done (place_grant e bid g s1) _ h1 in
    let p = place_grant-Places e bid g s1 s2 b1 places in
    let (same, k) = finish-Keeps e bid thumb version row b1 b s2 t h2 in
    Places-between e bid g b1 b s s1 s2 t before p k same
