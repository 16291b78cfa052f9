-- ===== src/Enrollments/Granted.antt =====
-- Who a grant of kiwi_catalog/services/enrollments.py stands for: over any sequence of calls.
pub mod Trace
use kiwi_catalog.Enrollments.Granted.Trace.{
  create, view, authorize, poll_for, cancel, Traced, Traced-update, Call, serve, serve_all,
  Approves, Approved, Traced-map,
}
use kiwi_catalog.Prelude.{
  ◌+◌, String, ◌≡◌, ◌⊎◌, refl, sym, ◌∙◌, subst, true, false, ◌||◌, inl, inr, none, some, List, [],
  ◌∷◌, ◌=ₛ◌, strip, ascii_upper, arith, eq_iff, Bool-cases, if◌then◌else◌,
}
use kiwi_catalog.Prelude.Table.{find?, update}
use kiwi_catalog.Prelude.Table.Laws.{
  find?-true, find?-update, find?-insert_found, find?-none_le, find?-count_zero,
}
use kiwi_catalog.Prelude.Table.Keyed.{Distinct, Distinct-insert, Distinct-update, find?-by_key}
use kiwi_catalog.Result.{Result}
use kiwi_catalog.Action.{done, Outcome-cases, db_session}
use kiwi_catalog.Enrollments.{
  public_enrollment, authorize_enrollment, poll, cancel_enrollments, authorized, Polled, ready_row,
  is_ready, is_authorized, is_expired, of_device,
}
use kiwi_catalog.Enrollments.Devices.{create_device, has_id}
use kiwi_catalog.Enrollments.Steps.{
  paired, Authorizes, create_device-done, public_enrollment-done, poll-done, poll-granted,
  authorize_enrollment-done,
}
use kiwi_catalog.Enrollments.Store.{Enrollment, Db, Env, Proof}

-- An authorization that went through is one of this enrollment, or leaves its row.
Traced-authorize :
    (id code : String) (H : String → String → Type 0) (e : Env) (id' m presented a : String)
    (s t : Db)
    → Authorizes e id' m presented a s t
    → Traced id code H s.enrollments
    → Traced id code
        (λ m' a'. H m' a' ⊎ Approves id code (Call.authorize e id' m presented a) m' a')
        t.enrollments
Traced-authorize id code H e id' m presented a s t was traced =
    let K =
      λ (m' a' : String). H m' a' ⊎ Approves id code (Call.authorize e id' m presented a) m' a' in
    elim was.written [
      | inl same ↦
          subst (Traced id code K) (sym same)
            (Traced-map id code H K s.enrollments (λ m' a' h. inl h) traced)
      | inr new ↦
          let row = traced.row in
          let q = ready_row was.row.enrollment_id in
          let f = authorized e m a was.version in
          let there : find? (has_id id) (update q f s.enrollments)
              ≡ some (if q row then f row else row) =
            find?-update (has_id id) q f s.enrollments (λ x _. refl) ∙ (rw traced.found refl) in
          let own : row.enrollment_id ≡ id =
            (eq_iff row.enrollment_id id).0
              (find?-true (has_id id) s.enrollments row traced.found) in
          let theirs : was.row.enrollment_id ≡ id' =
            (eq_iff was.row.enrollment_id id').0
              (find?-true (has_id id') s.enrollments was.row was.found) in
          subst (Traced id code K) (sym new) (elim (Bool-cases (q row)) [
            | inl e1 ↦
                let met : row.enrollment_id ≡ was.row.enrollment_id =
                  ground (arith, e1, eq_iff row.enrollment_id was.row.enrollment_id) in
                let same_id : id' ≡ id = sym theirs ∙ sym met ∙ own in
                let again : find? (has_id id) s.enrollments ≡ some was.row =
                  subst (λ k. find? (has_id k) s.enrollments ≡ some was.row) same_id was.found in
                let same_row : was.row ≡ row = cc (again, traced.found) in
                let its : was.row.user_code ≡ code = rw same_row traced.paired_with in
                record {
                  row = f row;
                  ids =
                      Distinct-update (λ r. r.enrollment_id) q f s.enrollments (λ x. refl)
                        traced.ids;
                  found = there ∙ (rw e1 refl);
                  paired_with = traced.paired_with;
                  behind = λ _. inr (
                    same_id,
                    refl,
                    refl,
                    subst (λ k. paired e k (ascii_upper (strip presented)) ≡ true) its was.fits,
                  );
                }
            | inr e2 ↦ record {
              row = row;
              ids = Distinct-update (λ r. r.enrollment_id) q f s.enrollments (λ x. refl) traced.ids;
              found = there ∙ (rw e2 refl);
              paired_with = traced.paired_with;
              behind = λ x. inl (traced.behind x);
            }
          ])
    ]

Traced-serve :
    (id code : String) (H : String → String → Type 0) (c : Call) (s : Db)
    → Traced id code H s.enrollments
    → Traced id code (λ m a. H m a ⊎ Approves id code c m a) (serve c s).enrollments
unfolding serve db_session
Traced-serve id code H (create e body) s traced =
    Traced-map id code H _ _ (λ m a h. inl h)
      (elim (Outcome-cases (create_device e body s)) [
        | inr (error, t, h) ↦ rw h traced
        | inl (r, t, h) ↦
            let (inserted, fresh) = create_device-done e body s t r h in
            let free : find? (has_id r.enrollment_id) s.enrollments ≡ none =
              find?-none_le (has_id r.enrollment_id)
                (λ x. x.enrollment_id =ₛ r.enrollment_id || x.user_code =ₛ r.user_code)
                s.enrollments (λ x own. ground (arith, own)) fresh in
            rw (h, inserted)
              (record {
                row = traced.row;
                ids =
                    Distinct-insert (λ x. x.enrollment_id) r s.enrollments
                      (find?-count_zero (has_id r.enrollment_id) s.enrollments free) traced.ids;
                found = find?-insert_found (has_id id) r s.enrollments traced.row traced.found;
                paired_with = traced.paired_with;
                behind = traced.behind;
              })
      ])
Traced-serve id code H (view e id') s traced =
    Traced-map id code H _ _ (λ m a h. inl h)
      (elim (Outcome-cases (public_enrollment e id' s)) [
        | inr (error, t, h) ↦ rw h traced
        | inl (shown, t, h) ↦ elim (public_enrollment-done e id' shown s t h) [
          | inl same ↦ rw (h, same) traced
          | inr expired ↦
              rw (h, expired)
                (Traced-update id code H (has_id id') (λ r. record r { status = "expired" })
                  s.enrollments (λ x. refl) (λ x. refl) (λ x. refl) traced)
        ]
      ])
Traced-serve id code H (poll_for e device possession) s traced =
    Traced-map id code H _ _ (λ m a h. inl h)
      (elim (Outcome-cases (poll e device possession s)) [
        | inr (error, t, h) ↦ rw h traced
        | inl (p, t, h) ↦ rw (h, poll-done e device possession p s t h) traced
      ])
Traced-serve id code H (cancel a) s traced =
    Traced-map id code H _ _ (λ m a h. inl h)
      (unfold cancel_enrollments in
        Traced-update id code H _
          (λ r. record r { status = "canceled"; authorization_epoch = r.authorization_epoch + 1 })
          s.enrollments (λ x. refl) (λ x. refl) (λ x. refl) traced)
Traced-serve id code H (authorize e id' m presented a) s traced =
    elim (Outcome-cases (authorize_enrollment e id' m presented a s)) [
      | inr (error, t, h) ↦ rw h (Traced-map id code H _ _ (λ m' a' h. inl h) traced)
      | inl (u, t, h) ↦ rw h (
          Traced-authorize id code H e id' m presented a s t
            (authorize_enrollment-done e id' m presented a s t h) traced)
    ]

serve_all-Traced :
    (id code : String) (H : String → String → Type 0) (cs : List Call) (s : Db)
    → Traced id code H s.enrollments
    → Traced id code (λ m a. H m a ⊎ Approved id code cs m a) (serve_all cs s).enrollments
unfolding serve_all
serve_all-Traced id code H [] s traced =
    Traced-map id code H _ s.enrollments (λ m a h. inl h) traced
serve_all-Traced id code H (c ∷ cs) s traced =
    Traced-map id code _ _ (serve_all cs (serve c s)).enrollments
      (λ m a h. elim h [
        | inl (inl before) ↦ inl before
        | inl (inr now) ↦ inr (inl now)
        | inr later ↦ inr (inr later)
      ])
      (serve_all-Traced id code (λ m a. H m a ⊎ Approves id code c m a) cs (serve c s)
        (Traced-serve id code H c s traced))

-- A device gets a grant only for what a merchant authorized. Let an enrollment wait for its
-- authorization, in a table of unique ids. Whatever calls follow, if a poll then returns a grant for
-- it, the row is authorized and its grant has not expired, and one of the calls was an authorization
-- of this enrollment by the merchant and for the agent that the grant names, with a pairing code
-- that fits the enrollment's or, where none is required, with none.
pub poll-Approved :
    (id : String) (r : Enrollment) (db : Db)
    → Distinct (λ x. x.enrollment_id) db.enrollments
    → find? (has_id id) db.enrollments ≡ some r
    → is_ready r ≡ true
    → (cs : List Call) (e : Env) (device grant : String) (possession : Result Proof)
    → (row : Enrollment) (t : Db) → row.enrollment_id ≡ id
    → poll e device possession (serve_all cs db) ≡ done (Polled.granted grant row) t
    → (is_authorized row ≡ true)
      × (is_expired e.now row ≡ false)
      × Approved id r.user_code cs row.merchant_id row.catalog_agent_id
poll-Approved id r db ids found ready cs e device grant possession row t own h =
    let waiting : is_authorized r ≡ false =
      subst (λ k. (k =ₛ "authorized") ≡ false)
        (sym ((eq_iff r.status "ready_for_authorization").0 ready)) refl in
    let start : Traced id r.user_code (λ m a. ⊥) db.enrollments = record {
      row = r;
      ids = ids;
      found = found;
      paired_with = refl;
      behind = λ a. absurd (ground (arith, a, waiting));
    } in
    let after = serve_all-Traced id r.user_code (λ m a. ⊥) cs db start in
    let (polled, authorized_now, live) =
      poll-granted e device grant row possession (serve_all cs db) t h in
    let again =
      find?-by_key (λ x. x.enrollment_id) (of_device (e.hash device)) (serve_all cs db).enrollments
        row after.ids polled in
    let here : find? (has_id id) (serve_all cs db).enrollments ≡ some row =
      subst (λ k. find? (has_id k) (serve_all cs db).enrollments ≡ some row) own again in
    let same : after.row ≡ row = cc (here, after.found) in
    let behind =
      subst
        (λ (x : Enrollment).
          is_authorized x ≡ true → ⊥ ⊎ Approved id r.user_code cs x.merchant_id x.catalog_agent_id)
        same after.behind in
    (
      authorized_now,
      live,
      elim (behind authorized_now) [ inl never ↦ absurd never | inr approved ↦ approved ],
    )
