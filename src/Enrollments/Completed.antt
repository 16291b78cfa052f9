-- ===== src/Enrollments/Completed.antt =====
-- The way of a device through kiwi_catalog/services/enrollments.py, from the wait for a merchant to
-- the grant.
use Prim.Native.String
use kiwi_catalog.Prelude.{
  ℕ, ◌+◌, ◌≤◌, ◌<◌, String, ◌≡◌, refl, sym, ◌∙◌, subst, true, false, ◌&&◌, ◌||◌, some, List, ◌=ₛ◌,
  strip, ascii_upper, is_ascii, truthy, leb, ltb, arith, eq_iff,
}
use kiwi_catalog.Prelude.Table.{find?, update, count}
use kiwi_catalog.Prelude.Table.Laws.{find?-true, find?-update, find?-count_pos, find?-and, count-le}
use kiwi_catalog.Prelude.Table.Keyed.{Distinct, Distinct-count_le}
use kiwi_catalog.Result.{ok}
use kiwi_catalog.Action.{done}
use kiwi_catalog.AgentCatalog.{is_agent}
use kiwi_catalog.AgentCatalog.Store.{Agent}
use kiwi_catalog.RequestNonces.{Nonce, consume_request_nonce}
use kiwi_catalog.Enrollments.{
  authorize, authorize_enrollment, authorize_paired, authorized, record_authorization,
  check_pairing, poll, Polled, ready_row, is_ready, is_authorized, is_expired, of_device,
  of_merchant, takes_over, refuse_binding_takeover,
}
use kiwi_catalog.Enrollments.Devices.{check_exp, has_id}
use kiwi_catalog.Enrollments.Steps.{paired, next_version}
use kiwi_catalog.Enrollments.Store.{Enrollment, Db, Env, Proof}

abbrev granted_row : Env → String → String → Db → Enrollment → Enrollment
granted_row e m a s = authorized e m a (next_version a s)

-- The state after the authorization of the row.
abbrev granted_db : Env → String → String → Enrollment → Db → Db
granted_db e m a row s = record_authorization a m e.now (record s {
  enrollments = update (ready_row row.enrollment_id) (granted_row e m a s) s.enrollments;
})

check_pairing-passes :
    (e : Env) (expected presented : String) (s : Db)
    → String.count presented ≤ 64
    → is_ascii presented ≡ true
    → paired e expected presented ≡ true
    → check_pairing e expected presented s ≡ done tt s
unfolding check_pairing paired
check_pairing-passes e expected presented s short plain fits = ground arith

-- A row that waits is authorized for the merchant's own agent.
authorize_paired-passes :
    (e : Env) (row : Enrollment) (m a : String) (g : Agent) (s : Db)
    → count (ready_row row.enrollment_id) s.enrollments ≡ 1
    → is_ready row ≡ true
    → is_authorized row ≡ false
    → e.now < row.expires_at
    → find? (is_agent a) s.agents ≡ some g
    → (g.merchant_id =ₛ m && g.administrative_state =ₛ "active") ≡ true
    → authorize_paired e row m a s ≡ done tt (granted_db e m a row s)
unfolding authorize_paired
authorize_paired-passes e row m a g s one ready fresh young owned active =
    ground (arith, one, ready, fresh, young, owned, active)

poll-grants :
    (e : Env) (device : String) (p : Proof) (row : Enrollment) (t : Db) (nonces : List Nonce)
    → find? (of_device (e.hash device)) t.enrollments ≡ some row
    → is_expired e.now row ≡ false
    → is_ready row ≡ false
    → is_authorized row ≡ true
    → row.grant_hash ≡ e.hash (e.stable_grant row.enrollment_id row.device_code_hash)
    → check_exp e.now p t ≡ done tt t
    → consume_request_nonce e.now e.calls
        (record { key_id = row.key_id; nonce = p.nonce; issued_at = p.issued_at })
        t.nonces
      ≡ done tt nonces
    → poll e device (ok p) t
      ≡ done
          (Polled.granted (e.stable_grant row.enrollment_id row.device_code_hash) row)
          (record t { nonces = nonces })
unfolding poll
poll-grants e device p row t nonces found live unready auth hashed timely fresh = ground (
  arith,
  found,
  live,
  unready,
  auth,
  timely,
  fresh,
  eq_iff (e.hash (e.stable_grant row.enrollment_id row.device_code_hash)) row.grant_hash,
)

-- The row of a ready enrollment is the only one that the authorization writes.
ready_row-one :
    (id : String) (rows : List Enrollment) (row : Enrollment)
    → Distinct (λ r. r.enrollment_id) rows
    → find? (has_id id) rows ≡ some row
    → is_ready row ≡ true
    → count (ready_row id) rows ≡ 1
ready_row-one id rows row ids found ready = omega (
  arith,
  Distinct-count_le (λ r. r.enrollment_id) id rows ids,
  count-le (ready_row id) (has_id id) rows (λ x both. ground (arith, both)),
  find?-count_pos (ready_row id) rows row (find?-and (has_id id) is_ready rows row found ready),
)

authorize_enrollment-passes :
    (e : Env) (id m code a : String) (row : Enrollment) (s t : Db)
    → find? (has_id id) s.enrollments ≡ some row
    → is_ready row ≡ true
    → is_expired e.now row ≡ false
    → truthy row.merchant_id ≡ false
    → takes_over row.key_id (find? (of_merchant m) s.bindings) ≡ false
    → check_pairing e row.user_code (ascii_upper (strip code)) s ≡ done tt s
    → authorize_paired e row m a s ≡ done tt t
    → authorize_enrollment e id m code a s ≡ done tt t
unfolding authorize_enrollment authorize refuse_binding_takeover
authorize_enrollment-passes e id m code a row s t found ready live unowned apart passed written =
    ground (arith, found, ready, live, unowned, apart, passed, written)

-- An enrollment comes to its end. Let one wait for its authorization, not yet expired, in a table of
-- unique ids where its device code's hash is its own. If the merchant of an active agent, who has no
-- active binding with another key, authorizes it with a code that fits, and the device polls within ten minutes after that, under the same
-- secret, with a proof of possession in its time and a nonce that is accepted, then both calls
-- return: the poll gives the grant, for this merchant and agent.
pub enrollment_completes :
    (e1 e2 : Env) (id m code a device : String) (row : Enrollment) (g : Agent) (p : Proof) (exp : ℕ)
    (s : Db) (nonces : List Nonce)
    → Distinct (λ r. r.enrollment_id) s.enrollments
    → find? (has_id id) s.enrollments ≡ some row
    → find? (of_device (e2.hash device)) s.enrollments ≡ some row
    → row.status ≡ "ready_for_authorization"
    → row.merchant_id ≡ ""
    → takes_over row.key_id (find? (of_merchant m) s.bindings) ≡ false
    → e1.now < row.expires_at
    → find? (is_agent a) s.agents ≡ some g
    → (g.merchant_id =ₛ m && g.administrative_state =ₛ "active") ≡ true
    → String.count (ascii_upper (strip code)) ≤ 64
    → is_ascii (ascii_upper (strip code)) ≡ true
    → paired e1 row.user_code (ascii_upper (strip code)) ≡ true
    → e2.now < e1.now + 600
    → e1.hash (e1.stable_grant row.enrollment_id row.device_code_hash)
      ≡ e2.hash (e2.stable_grant row.enrollment_id row.device_code_hash)
    → p.exp ≡ some exp
    → (leb exp e2.now || ltb (e2.now + 120) exp) ≡ false
    → consume_request_nonce e2.now e2.calls
        (record { key_id = row.key_id; nonce = p.nonce; issued_at = p.issued_at })
        s.nonces
      ≡ done tt nonces
    → (t u : Db) × (final : Enrollment) × (authorize_enrollment e1 id m code a s ≡ done tt t)
      × (poll e2 device (ok p) t
          ≡ done (Polled.granted (e2.stable_grant row.enrollment_id row.device_code_hash) final) u)
      × (final.merchant_id ≡ m)
      × (final.catalog_agent_id ≡ a)
      × (final.enrollment_id ≡ id)
unfolding check_exp
enrollment_completes e1 e2 id m code a device row g p exp s nonces ids found polled status unowned
      apart young owned active short plain fits soon secret dated timely accepted =
    let t = granted_db e1 m a row s in
    let final = granted_row e1 m a s row in
    let key : row.enrollment_id ≡ id =
      (eq_iff row.enrollment_id id).0 (find?-true (has_id id) s.enrollments row found) in
    let ready : is_ready row ≡ true = (eq_iff row.status "ready_for_authorization").1 status in
    let fresh : is_authorized row ≡ false =
      subst (λ k. (k =ₛ "authorized") ≡ false) (sym status) refl in
    let one : count (ready_row row.enrollment_id) s.enrollments ≡ 1 =
      subst (λ k. count (ready_row k) s.enrollments ≡ 1) (sym key)
        (ready_row-one id s.enrollments row ids found ready) in
    let passed =
      check_pairing-passes e1 row.user_code (ascii_upper (strip code)) s short plain fits in
    let written = authorize_paired-passes e1 row m a g s one ready fresh young owned active in
    let live : is_expired e1.now row ≡ false = ground (arith, ready, fresh, young) in
    let marked : ready_row row.enrollment_id row ≡ true =
      ground (arith, ready, eq_iff row.enrollment_id row.enrollment_id) in
    let there : find? (of_device (e2.hash device)) t.enrollments ≡ some final =
      find?-update (of_device (e2.hash device)) (ready_row row.enrollment_id) (granted_row e1 m a s)
        s.enrollments (λ x _. refl)
      ∙ (rw polled (rw marked refl)) in
    (
      t,
      record t { nonces = nonces },
      final,
      authorize_enrollment-passes e1 id m code a row s t found ready live (rw unowned refl) apart
          passed written,
      poll-grants e2 device p final t nonces there (ground arith) refl refl secret
          (ground (arith, dated, timely)) accepted,
      refl,
      refl,
      key,
    )
