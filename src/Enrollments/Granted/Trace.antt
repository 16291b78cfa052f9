-- ===== src/Enrollments/Granted/Trace.antt =====
-- The calls of kiwi_catalog/services/enrollments.py in any order, and who may stand behind the
-- authorization of an enrollment.
use kiwi_catalog.Prelude.{
  String, Bool, ◌≡◌, ◌⊎◌, refl, ◌∙◌, true, false, inl, inr, some, List, [], ◌∷◌, strip, ascii_upper,
  Bool-cases, if◌then◌else◌,
}
use kiwi_catalog.Prelude.Table.{find?, update}
use kiwi_catalog.Prelude.Table.Laws.{find?-update}
use kiwi_catalog.Prelude.Table.Keyed.{Distinct, Distinct-update}
use kiwi_catalog.Result.{Result}
use kiwi_catalog.Action.{db_session}
use kiwi_catalog.Enrollments.{
  public_enrollment, authorize_enrollment, poll, cancel_enrollments, is_authorized,
}
use kiwi_catalog.Enrollments.Devices.{create_device, has_id}
use kiwi_catalog.Enrollments.Steps.{paired}
use kiwi_catalog.Enrollments.Store.{Enrollment, Db, Env, Proof, DeviceBody}

-- A call: a device's creation and poll, the portal's view and authorization, and the cancellation
-- that comes with the suspension of an agent.
pub data Call : Type 0 where
  create : Env → DeviceBody → Call
  view : Env → String → Call
  authorize : Env → String → String → String → String → Call
  poll_for : Env → String → Result Proof → Call
  cancel : String → Call

unfoldable pub serve : Call → Db → Db
serve (create e body) = db_session (create_device e body)
serve (view e id) = db_session (public_enrollment e id)
serve (authorize e id m code a) = db_session (authorize_enrollment e id m code a)
serve (poll_for e code possession) = db_session (poll e code possession)
serve (cancel a) = cancel_enrollments a

unfoldable pub serve_all : List Call → Db → Db
serve_all [] db = db
serve_all (c ∷ cs) db = serve_all cs (serve c db)

-- The call authorizes the enrollment `id`, whose pairing code is `code`, for the merchant and agent.
abbrev pub Approves : String → String → Call → String → String → Type 0
Approves id code (authorize e id' m' presented a') m a =
    (id' ≡ id) × (m ≡ m') × (a ≡ a') × (paired e code (ascii_upper (strip presented)) ≡ true)
Approves id code _ m a = ⊥

-- One of the calls does.
abbrev pub Approved : String → String → List Call → String → String → Type 0
Approved id code [] m a = ⊥
Approved id code (c ∷ cs) m a = Approves id code c m a ⊎ Approved id code cs m a

-- The row of the enrollment, and who may stand behind its authorization.
pub record Traced (id code : String) (H : String → String → Type 0) (rows : List Enrollment)
    : Type 0 where
  pub row : Enrollment
  pub ids : Distinct (λ r. r.enrollment_id) rows
  pub found : find? (has_id id) rows ≡ some row
  pub paired_with : row.user_code ≡ code
  pub behind : is_authorized row ≡ true → H row.merchant_id row.catalog_agent_id

module _ (id code : String) (H : String → String → Type 0) where
  -- An update that leaves ids and pairing codes alone, and authorizes nothing anew.
  pub Traced-update :
      (q : Enrollment → Bool) (f : Enrollment → Enrollment) (rows : List Enrollment)
      → ((x : Enrollment) → (f x).enrollment_id ≡ x.enrollment_id)
      → ((x : Enrollment) → (f x).user_code ≡ x.user_code)
      → ((x : Enrollment) → is_authorized (f x) ≡ false)
      → Traced id code H rows
      → Traced id code H (update q f rows)
  Traced-update q f rows ids codes closes t =
      let row = t.row in
      let moved = find?-update (has_id id) q f rows (λ x _. rw (ids x)) in
      let there : find? (has_id id) (update q f rows) ≡ some (if q row then f row else row) =
        moved ∙ (rw t.found refl) in
      elim (Bool-cases (q row)) [
        | inl e ↦ record {
          row = f row;
          ids = Distinct-update (λ r. r.enrollment_id) q f rows ids t.ids;
          found = there ∙ (rw e refl);
          paired_with = codes row ∙ t.paired_with;
          behind = λ a. cc (a, closes row);
        }
        | inr e ↦ record {
          row = row;
          ids = Distinct-update (λ r. r.enrollment_id) q f rows ids t.ids;
          found = there ∙ (rw e refl);
          paired_with = t.paired_with;
          behind = t.behind;
        }
      ]

pub Traced-map :
    (id code : String) (H K : String → String → Type 0) (rows : List Enrollment)
    → ((m a : String) → H m a → K m a)
    → Traced id code H rows
    → Traced id code K rows
Traced-map id code H K rows weaken t = record {
  row = t.row;
  ids = t.ids;
  found = t.found;
  paired_with = t.paired_with;
  behind = λ e. weaken t.row.merchant_id t.row.catalog_agent_id (t.behind e);
}
