-- ===== src/BindingHandlers/Commit/Checks.antt =====
-- What the second transaction of `_create_enrollment_binding`
-- (kiwi_catalog/api/handlers/cloud_binding.py) checks before it writes.
use kiwi_catalog.Prelude.{
  ◌<◌, Bool, ◌≡◌, true, false, some, not, ◌||◌, ◌==◌, ◌=ₛ◌, leb, arith, eq_iff, subst,
}
use kiwi_catalog.Prelude.Table.{find?}
use kiwi_catalog.Result.{Error}
use kiwi_catalog.Action.{done, raise_if-done, from_option-done, from_option, then_do-eq-done}
use kiwi_catalog.AgentCatalog.{is_agent}
use kiwi_catalog.AgentCatalog.Store.{Agent}
use kiwi_catalog.Enrollments.{grant_over, is_authorized}
use kiwi_catalog.Enrollments.Store.{Enrollment}
use kiwi_catalog.BindingHandlers.Grants.{active_agent, may_bind, check_unchanged}
use kiwi_catalog.BindingHandlers.Store.{Db, Env, Bid, Answer}

-- The grant as the second transaction accepts it.
pub record IsOpen (e : Env) (bid : Bid) (answer : Answer) (row : Enrollment) (g : Agent)
    : Type 0 where
  pub challenge : e.core.now < answer.expires_at
  pub authorized : is_authorized row ≡ true
  pub running : grant_over e.core.now row ≡ false
  pub merchant : row.merchant_id ≡ g.merchant_id
  pub administrative : active_agent g ≡ true
  pub grant : e.hash bid.grant ≡ row.grant_hash
  pub generation : bid.offer.generation ≡ row.generation
  pub service_epoch : bid.offer.service_epoch ≡ row.service_epoch
  pub scope : may_bind row ≡ true

pub nots-false :
    (a b c d : Bool)
    → (not a || not b || not c || not d) ≡ false
    → (a ≡ true) × (b ≡ true) × (c ≡ true) × (d ≡ true)
nots-false a b c d h = ground arith

pub check_unchanged-tests :
    (e : Env) (bid : Bid) (answer : Answer) (row : Enrollment) (s t : Db) (g : Agent)
    → check_unchanged e bid answer row s ≡ done g t
    → (t ≡ s)
      × (find? (is_agent bid.agent_id) s.core.agents ≡ some g)
      × (leb answer.expires_at e.core.now ≡ false)
      × ((not (is_authorized row) || grant_over e.core.now row) ≡ false)
      × ((not (row.merchant_id =ₛ g.merchant_id) || not (active_agent g)) ≡ false)
      × ((not (e.hash bid.grant =ₛ row.grant_hash)
            || not (bid.offer.generation == row.generation)
            || not (bid.offer.service_epoch == row.service_epoch)
            || not (may_bind row))
          ≡ false)
unfolding check_unchanged
check_unchanged-tests e bid answer row s t g h =
    let agents = find? (is_agent bid.agent_id) s.core.agents in
    let (early, h1) =
      raise_if-done (leb answer.expires_at e.core.now) Error.permission_denied s _ h in
    let (authorized, h2) =
      raise_if-done (not (is_authorized row) || grant_over e.core.now row) Error.permission_denied s
        _ h1 in
    let (g', s1, finds, h3) = then_do-eq-done (from_option Error.type_error agents s) _ h2 in
    let (found, first) = from_option-done Error.type_error agents s g' s1 finds in
    let (owned, h4) =
      raise_if-done (not (row.merchant_id =ₛ g'.merchant_id) || not (active_agent g'))
        Error.permission_denied s1 _ h3 in
    let (fits, h5) =
      raise_if-done
        (not (e.hash bid.grant =ₛ row.grant_hash)
          || not (bid.offer.generation == row.generation)
          || not (bid.offer.service_epoch == row.service_epoch)
          || not (may_bind row))
        Error.permission_denied s1 _ h4 in
    let same : g' ≡ g = ground (arith, h5) in
    let kept : t ≡ s = ground (arith, h5, first) in
    let owns : (not (row.merchant_id =ₛ g.merchant_id) || not (active_agent g)) ≡ false =
      subst
        (λ (x : Agent). (not (row.merchant_id =ₛ x.merchant_id) || not (active_agent x)) ≡ false)
        same owned in
    (kept, ground (arith, found, same), early, authorized, owns, fits)

pub check_unchanged-done :
    (e : Env) (bid : Bid) (answer : Answer) (row : Enrollment) (s t : Db) (g : Agent)
    → check_unchanged e bid answer row s ≡ done g t
    → (t ≡ s) × (find? (is_agent bid.agent_id) s.core.agents ≡ some g) × IsOpen e bid answer row g
check_unchanged-done e bid answer row s t g h =
    let (kept, found, late, live, owns, fits) = check_unchanged-tests e bid answer row s t g h in
    let (hashes, generations, epochs, scope) = nots-false _ _ _ _ fits in
    (
      kept,
      found,
      record {
        challenge = ground (arith, late);
        authorized = ground (arith, live);
        running = ground (arith, live);
        merchant = ground (arith, owns, eq_iff row.merchant_id g.merchant_id);
        administrative = ground (arith, owns);
        grant = ground (arith, hashes, eq_iff (e.hash bid.grant) row.grant_hash);
        generation = ground (arith, generations);
        service_epoch = ground (arith, epochs);
        scope = scope;
      },
    )
