-- ===== src/Enrollments/Steps.antt =====
-- What the calls of kiwi_catalog/services/enrollments.py leave of the table of enrollments.
use kiwi_catalog.Prelude.{
  ℕ, ◌+◌, String, Bool, ◌≡◌, ◌⊎◌, true, false, not, ◌&&◌, ◌||◌, inl, inr, none, some, ◌=ₛ◌, strip,
  ascii_upper, equal_upper, arith, Bool-cases, Option-cases, if◌then◌else◌,
}
use kiwi_catalog.Prelude.Table.{find?, update, insert, max_of}
use kiwi_catalog.Result.{Result}
use kiwi_catalog.Action.{◌>>◌, done, then_do-eq-done}
use kiwi_catalog.BindingRequests.{of_agent}
use kiwi_catalog.Enrollments.{
  public_enrollment, check_pairing, authorize, authorize_enrollment, refuse_binding_takeover,
  authorize_paired, grant_over, authorized, poll, Polled, ready_row, is_authorized, is_expired,
  expire, of_device,
}
use kiwi_catalog.Enrollments.Devices.{
  create_device, pairing_required, has_id, check_exp, validate_public_jwk,
}
use kiwi_catalog.Enrollments.Store.{Enrollment, Db, Env, Proof, DeviceBody}

pub create_device-done :
    (e : Env) (body : DeviceBody) (s t : Db) (r : Enrollment)
    → create_device e body s ≡ done r t
    → (t.enrollments ≡ insert r s.enrollments)
      × (find? (λ x. x.enrollment_id =ₛ r.enrollment_id || x.user_code =ₛ r.user_code) s.enrollments
          ≡ none)
unfolding create_device validate_public_jwk check_exp
create_device-done e body s t r h = (ground arith, ground arith)

pub public_enrollment-done :
    (e : Env) (id shown : String) (s t : Db)
    → public_enrollment e id s ≡ done shown t
    → (t ≡ s) ⊎ (t ≡ expire id s)
unfolding public_enrollment
public_enrollment-done e id shown s t h = elim (Option-cases (find? (has_id id) s.enrollments)) [
  | inl missing ↦ absurd (ground (arith, missing))
  | inr (row, found) ↦ elim (Bool-cases (is_expired e.now row)) [
    | inl over ↦ inr (ground (arith, found, over))
    | inr still ↦ inl (ground (arith, found, still))
  ]
]

-- A poll that returned has written no enrollment; a grant is that of an authorized row.
pub poll-done :
    (e : Env) (code : String) (possession : Result Proof) (p : Polled) (s t : Db)
    → poll e code possession s ≡ done p t
    → t.enrollments ≡ s.enrollments
unfolding poll check_exp
poll-done e code possession p s t h = ground arith

pub poll-granted :
    (e : Env) (code grant : String) (row : Enrollment) (possession : Result Proof) (s t : Db)
    → poll e code possession s ≡ done (Polled.granted grant row) t
    → (find? (of_device (e.hash code)) s.enrollments ≡ some row)
      × (is_authorized row ≡ true)
      × (is_expired e.now row ≡ false)
unfolding poll check_exp
poll-granted e code grant row possession s t h = (ground arith, ground arith, ground arith)

-- The pairing code that is presented fits, or none is presented and none is required.
unfoldable pub paired : Env → String → String → Bool
unfolding pairing_required
paired e expected presented =
    if presented =ₛ "" then not (pairing_required e) else equal_upper presented expected

check_pairing-done :
    (e : Env) (expected presented : String) (s t : Db)
    → check_pairing e expected presented s ≡ done tt t
    → (t ≡ s) × (paired e expected presented ≡ true)
unfolding check_pairing paired
check_pairing-done e expected presented s t h = ground arith

-- What an authorization that returned has done.
pub record Authorizes (e : Env) (id m code a : String) (s t : Db) : Type 0 where
  pub row : Enrollment
  pub found : find? (has_id id) s.enrollments ≡ some row
  pub fits : paired e row.user_code (ascii_upper (strip code)) ≡ true
  pub version : ℕ
  pub written :
      (t.enrollments ≡ s.enrollments)
      ⊎ (t.enrollments
          ≡ update (ready_row row.enrollment_id) (authorized e m a version) s.enrollments)

abbrev pub next_version : String → Db → ℕ
next_version a s = max_of (of_agent a) (λ b. b.binding_version) s.bindings + 1

authorize_paired-written :
    (e : Env) (row : Enrollment) (m a : String) (s s0 t : Db)
    → s0 ≡ s
    → authorize_paired e row m a s0 ≡ done tt t
    → (t.enrollments ≡ s.enrollments)
      ⊎ (t.enrollments
          ≡ update
              (ready_row row.enrollment_id)
              (authorized e m a (next_version a s))
              s.enrollments)
unfolding authorize_paired
authorize_paired-written e row m a s s0 t same h =
    elim (Bool-cases (is_authorized row && not (grant_over e.now row) && row.merchant_id =ₛ m)) [
      | inl again ↦ inl (ground (arith, again, same))
      | inr first ↦ inr (ground (arith, first, same))
    ]

pub authorize_enrollment-done :
    (e : Env) (id m code a : String) (s t : Db)
    → authorize_enrollment e id m code a s ≡ done tt t
    → Authorizes e id m code a s t
unfolding authorize_enrollment authorize refuse_binding_takeover
authorize_enrollment-done e id m code a s t h =
    elim (Option-cases (find? (has_id id) s.enrollments)) [
      | inl missing ↦ absurd (ground (arith, missing))
      | inr (row, found) ↦
          let inner : (check_pairing e row.user_code (ascii_upper (strip code))
                  >> authorize_paired e row m a)
                s
              ≡ done tt t =
            ground (arith, found) in
          let (u, s0, checked, rest) =
            then_do-eq-done (check_pairing e row.user_code (ascii_upper (strip code)) s) _ inner in
          let (same, fits) =
            check_pairing-done e row.user_code (ascii_upper (strip code)) s s0 checked in
          let written = authorize_paired-written e row m a s s0 t same rest in
          record {
            row = row;
            found = found;
            fits = fits;
            version = next_version a s;
            written = written;
          }
    ]
