-- ===== src/BindingHandlers/Commit.antt =====
-- What the second transaction of `_create_enrollment_binding`
-- (kiwi_catalog/api/handlers/cloud_binding.py) has checked and written when it returns.
pub mod Checks
pub mod Writes
use kiwi_catalog.BindingHandlers.Commit.Checks.{IsOpen, check_unchanged-done}
use kiwi_catalog.BindingHandlers.Commit.Writes.{
  Keeps, Places, Places-between, bind_enrollment-Places,
}
use kiwi_catalog.Prelude.{String, ◌≡◌, refl, false, some, not, ◌==◌, arith, subst}
use kiwi_catalog.Prelude.Table.{find?}
use kiwi_catalog.Result.{Error}
use kiwi_catalog.Action.{
  done, raise_if-done, from_option-done, from_result-kept, from_option, from_result,
  then_do-eq-done,
}
use kiwi_catalog.AgentCatalog.{is_agent}
use kiwi_catalog.AgentCatalog.Store.{Agent}
use kiwi_catalog.BindingRequests.Store.{Binding}
use kiwi_catalog.Enrollments.Devices.{has_id as is_enrollment}
use kiwi_catalog.Enrollments.Store.{Enrollment, Proof}
use kiwi_catalog.BindingHandlers.Grants.{
  consume_nonce, next_version, check_unchanged, bind_enrollment, commit_binding,
}
use kiwi_catalog.BindingHandlers.Store.{Db, Env, Bid, Answer}

-- What has been checked, and what has been written, when a grant was exchanged for a binding.
pub record Commits (e : Env) (bid : Bid) (answer : Answer) (s t : Db) (b : Binding) : Type 0 where
  pub row : Enrollment
  pub found : find? (is_enrollment bid.enrollment_id) s.enrollments ≡ some row
  pub agent : Agent
  pub registered : find? (is_agent bid.agent_id) s.core.agents ≡ some agent
  pub accepted : IsOpen e bid answer row agent
  pub expected : next_version bid.agent_id s.core ≡ row.expected_binding_version
  pub places : Places e bid agent b s t

pub consume_nonce-Keeps :
    (e : Env) (key_id : String) (p : Proof) (s t : Db)
    → consume_nonce e key_id p s ≡ done tt t
    → Keeps s t
consume_nonce-Keeps e key_id p s t h = record {
  bindings = ground arith;
  enrollments = ground arith;
}

Commits-of :
    (e : Env) (bid : Bid) (thumb : String) (answer : Answer) (s s1 s2 s3 s4 t : Db) (b : Binding)
    (row : Enrollment) (g : Agent) (proof : Proof)
    → find? (is_enrollment bid.enrollment_id) s.enrollments ≡ some row
    → s1 ≡ s
    → check_unchanged e bid answer row s1 ≡ done g s2
    → s3 ≡ s2
    → consume_nonce e row.key_id proof s3 ≡ done tt s4
    → not (next_version bid.agent_id s4.core == row.expected_binding_version) ≡ false
    → bind_enrollment e bid thumb row g s4 ≡ done b t
    → Commits e bid answer s t b
Commits-of e bid thumb answer s s1 s2 s3 s4 t b row g proof found first checks second uses expected
      h =
    let (kept, registered, accepted) = check_unchanged-done e bid answer row s1 s2 g checks in
    let k = consume_nonce-Keeps e row.key_id proof s3 s4 uses in
    let p = bind_enrollment-Places e bid thumb row g s4 t b h in
    let same : s3 ≡ s = ground (arith, kept, first, second) in
    let before : Keeps s s4 = subst (λ x. Keeps x s4) same k in
    let rows : s4.core.bindings ≡ s.core.bindings = before.bindings in
    record {
      row = row;
      found = found;
      agent = g;
      registered = ground (arith, registered, first);
      accepted = accepted;
      expected = ground (arith, expected, rows);
      places =
          Places-between e bid g b b s s4 t t before p
            (record { bindings = refl; enrollments = refl }) refl;
    }

pub commit_binding-Commits :
    (e : Env) (bid : Bid) (thumb : String) (answer : Answer) (s t : Db) (b : Binding)
    → commit_binding e bid thumb answer s ≡ done b t
    → Commits e bid answer s t b
unfolding commit_binding
commit_binding-Commits e bid thumb answer s t b h =
    let (row, s1, finds, h1) =
      then_do-eq-done
        (from_option Error.permission_denied (find? (is_enrollment bid.enrollment_id) s.enrollments)
          s)
        _ h in
    let (found, first) =
      from_option-done Error.permission_denied
        (find? (is_enrollment bid.enrollment_id) s.enrollments) s row s1 finds in
    let (g, s2, checks, h2) = then_do-eq-done (check_unchanged e bid answer row s1) _ h1 in
    let (proof, s3, proves, h3) = then_do-eq-done (from_result answer.proof s2) _ h2 in
    let (u, s4, uses, h4) = then_do-eq-done (consume_nonce e row.key_id proof s3) _ h3 in
    let (expected, h5) =
      raise_if-done (not (next_version bid.agent_id s4.core == row.expected_binding_version))
        Error.conflict s4 _ h4 in
    Commits-of e bid thumb answer s s1 s2 s3 s4 t b row g proof found first checks
      (from_result-kept answer.proof s2 proof s3 proves) uses expected h5
