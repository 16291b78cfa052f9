-- ===== src/BindingHandlers/Opening.antt =====
-- The first transaction of `_create_enrollment_binding` (kiwi_catalog/api/handlers/cloud_binding.py)
-- uses up a nonce and writes nothing else.
use kiwi_catalog.Prelude.{
  String, Option, none, some, ◌≡◌, not, ◌||◌, ◌&&◌, ◌=ₛ◌, ◌==◌, arith, subst, sym, ℕ,
}
use kiwi_catalog.Prelude.Table.{find?}
use kiwi_catalog.Result.{Error}
use kiwi_catalog.Action.{
  done, then_do-eq-done, raise_if-done, from_option, from_option-done, from_result,
  from_result-kept,
}
use kiwi_catalog.RuntimeAccess.Parse.{Json}
use kiwi_catalog.AgentCatalog.{is_agent}
use kiwi_catalog.AgentCatalog.Store.{Agent}
use kiwi_catalog.Enrollments.{grant_over, is_authorized}
use kiwi_catalog.Enrollments.Devices.{validate_public_jwk, check_exp, has_id as is_enrollment}
use kiwi_catalog.Enrollments.Store.{Enrollment, Proof, Jwk}
use kiwi_catalog.BindingHandlers.{checked_access}
use kiwi_catalog.BindingHandlers.Commit.{consume_nonce-Keeps}
use kiwi_catalog.BindingHandlers.Commit.Writes.{Keeps}
use kiwi_catalog.BindingHandlers.Grants.{
  check_grant, consume_nonce, open_again, open_challenge, is_bound, may_bind, Opened,
}
use kiwi_catalog.BindingHandlers.Store.{Db, Env, Bid}

checked_access-kept :
    (access : Option Json) (s t : Db) → checked_access access s ≡ done tt t → t ≡ s
checked_access-kept none s t h = ground arith
checked_access-kept (some json) s t h = ground arith

open_again-kept :
    (row : Enrollment) (g : Agent) (thumb : String) (s t : Db) (o : Opened)
    → open_again row g thumb s ≡ done o t
    → t ≡ s
unfolding open_again
open_again-kept row g thumb s t o h = ground arith

validate_public_jwk-kept :
    (jwk : Jwk) (s t : Db) (thumb : String) → validate_public_jwk jwk s ≡ done thumb t → t ≡ s
unfolding validate_public_jwk
validate_public_jwk-kept jwk s t thumb h = ground arith

check_exp-kept : (now : ℕ) (p : Proof) (s t : Db) → check_exp now p s ≡ done tt t → t ≡ s
unfolding check_exp
check_exp-kept now p s t h = ground arith

check_grant-kept :
    (e : Env) (bid : Bid) (row : Enrollment) (g : Agent) (s t : Db) (thumb : String)
    → check_grant e bid row g s ≡ done thumb t
    → t ≡ s
unfolding check_grant
check_grant-kept e bid row g s t thumb h =
    let no = Error.permission_denied in
    let (_, h1) =
      raise_if-done
        (not (is_authorized row || is_bound row)
          || (is_authorized row && grant_over e.core.now row))
        no s _ h in
    let (_, h2) = raise_if-done (not (e.hash bid.grant =ₛ row.grant_hash)) no s _ h1 in
    let (_, h3) =
      raise_if-done
        (not (row.merchant_id =ₛ g.merchant_id)
          || not (bid.offer.runtime_origin =ₛ row.runtime_origin)
          || not (bid.offer.a2a_endpoint =ₛ row.a2a_endpoint))
        no s _ h2 in
    let (key, s1, valid, h4) = then_do-eq-done (validate_public_jwk bid.jwk s) _ h3 in
    let kept : s1 ≡ s = validate_public_jwk-kept bid.jwk s s1 key valid in
    let (_, h5) =
      raise_if-done (not (key =ₛ row.key_thumbprint) || not (bid.offer.key_id =ₛ row.key_id)) no s1
        _ h4 in
    let (_, h6) =
      raise_if-done
        (not (bid.offer.generation == row.generation)
          || not (bid.offer.service_epoch == row.service_epoch))
        no s1 _ h5 in
    let (_, h7) = raise_if-done (not (may_bind row)) no s1 _ h6 in ground (arith, h7, kept)

Keeps-around : (s s1 t1 t : Db) → s1 ≡ s → Keeps s1 t1 → t ≡ t1 → Keeps s t
Keeps-around s s1 t1 t before k after =
    subst (λ x. Keeps x t) before (subst (λ x. Keeps s1 x) (sym after) k)

pub open_challenge-Keeps :
    (e : Env) (bid : Bid) (s t : Db) (o : Opened) → open_challenge e bid s ≡ done o t → Keeps s t
unfolding open_challenge
open_challenge-Keeps e bid s t o h =
    let (_, s1, parses, h1) = then_do-eq-done (checked_access bid.access s) _ h in
    let k1 = checked_access-kept bid.access s s1 parses in
    let (row, s2, found, h2) =
      then_do-eq-done
        (from_option Error.not_found (find? (is_enrollment bid.enrollment_id) s1.enrollments) s1) _
        h1 in
    let (_, k2) = from_option-done Error.not_found _ s1 row s2 found in
    let (g, s3, registered, h3) =
      then_do-eq-done
        (from_option Error.not_found (find? (is_agent bid.agent_id) s2.core.agents) s2) _ h2 in
    let (_, k3) = from_option-done Error.not_found _ s2 g s3 registered in
    let (_, h4) =
      raise_if-done (not (row.catalog_agent_id =ₛ bid.agent_id)) Error.not_found s3 _ h3 in
    let (thumb, s4, granted, h5) = then_do-eq-done (check_grant e bid row g s3) _ h4 in
    let k4 = check_grant-kept e bid row g s3 s4 thumb granted in
    let (signed, s5, proved, h6) = then_do-eq-done (from_result bid.possession s4) _ h5 in
    let k5 = from_result-kept bid.possession s4 signed s5 proved in
    let (_, s6, timely, h7) = then_do-eq-done (check_exp e.core.now signed s5) _ h6 in
    let k6 = check_exp-kept e.core.now signed s5 s6 timely in
    let (_, s7, used, h8) = then_do-eq-done (consume_nonce e row.key_id signed s6) _ h7 in
    let k7 = consume_nonce-Keeps e row.key_id signed s6 s7 used in
    let k8 = open_again-kept row g thumb s7 t o h8 in
    Keeps-around s s6 s7 t (ground (arith, k1, k2, k3, k4, k5, k6)) k7 k8
