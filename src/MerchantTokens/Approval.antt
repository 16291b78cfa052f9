-- ===== src/MerchantTokens/Approval.antt =====
-- Approving an application (kiwi_catalog/services/merchant_tokens.py).
use kiwi_catalog.Prelude.{
  ℕ, String, ◌≡◌, refl, sym, subst, inl, inr, ◌∙◌, false, none, some, ◌=ₛ◌, arith, eq_iff,
  Bool-cases, Option-cases,
}
use kiwi_catalog.Prelude.Table.{find?, update, insert, delete, count}
use kiwi_catalog.Prelude.Table.Laws.{
  find?-update, find?-true, find?-insert_absent, find?-delete_absent, find?-of_count_zero,
}
use kiwi_catalog.Result.{Error}
use kiwi_catalog.Action.{done, raised}
use kiwi_catalog.MerchantTokens.{
  Application, Registry, Draw, of_merchant, presents, issued, resolve_merchant_by_token,
  merchant_for, linked_account, display_name, has_number, application_of, approve_application,
  replace_token, fill_account, add_merchant,
}
use kiwi_catalog.MerchantTokens.Accounts.{IsIdFor, merchant_for-IsIdFor, fill_account-accounts}

-- the application after its approval
abbrev pub decided : Draw → String → Application → Application
decided d m a = record a { status = "approved"; merchant_id = m; reviewed_at = some d.now }

module _ (d : Draw) (db : Registry) where
  add_merchant-kept :
      (m name : String)
      → ((add_merchant d m name db).tokens ≡ db.tokens)
        × ((add_merchant d m name db).applications ≡ db.applications)
        × ((add_merchant d m name db).accounts ≡ db.accounts)
  unfolding add_merchant
  add_merchant-kept m name = (ground arith, ground arith, ground arith)

  fill_account-kept :
      (a : Application) (account : ℕ) (m : String)
      → ((fill_account d a account m db).tokens ≡ db.tokens)
        × ((fill_account d a account m db).applications ≡ db.applications)
  unfolding fill_account
  fill_account-kept a account m = (ground arith, ground arith)

approve_application-refused :
    (d : Draw) (n : ℕ) (db : Registry) (a : Application)
    → find? (has_number n) db.applications ≡ some a
    → (a.status =ₛ "pending") ≡ false
    → approve_application d n db ≡ raised Error.conflict db
unfolding approve_application application_of
approve_application-refused d n db a found other = ground (arith, found, other)

module _ (d : Draw) (n : ℕ) (db : Registry) where
  approve_application-shape :
      (m token : String) (db' : Registry)
      → approve_application d n db ≡ done (m, token) db'
      → (a : Application) × (find? (has_number n) db.applications ≡ some a)
        × (a.status ≡ "pending")
        × (m ≡ merchant_for d (linked_account a db) db)
        × (token ≡ d.token)
        × (db'.tokens ≡ insert (issued d m) (delete (of_merchant m) db.tokens))
        × (db'.applications ≡ update (has_number n) (decided d m) db.applications)
        × (db'.accounts ≡ (fill_account d a (linked_account a db) m db).accounts)
  unfolding approve_application application_of replace_token
  approve_application-shape m token db' h =
      elim (Option-cases (find? (has_number n) db.applications)) [
        | inl absent ↦ absurd (ground arith)
        | inr (a, found) ↦ elim (Bool-cases (a.status =ₛ "pending")) [
          | inr other ↦ absurd (ground arith)
          | inl pending ↦
              let its = merchant_for d (linked_account a db) db in
              let name = display_name a (linked_account a db) db in
              let (kept_tokens, kept_applications, kept_accounts) =
                add_merchant-kept d db its name in
              let mid : Registry = add_merchant d its name db in
              let end : Registry = record mid {
                tokens = insert (issued d its) (delete (of_merchant its) mid.tokens);
                applications = update (has_number n) (decided d its) mid.applications;
              } in
              let (last_tokens, last_applications) =
                fill_account-kept d end a (linked_account a db) its in
              (
                a,
                found,
                (eq_iff a.status "pending").0 pending,
                ground arith,
                ground arith,
                ground (arith, kept_tokens, last_tokens),
                ground (arith, kept_applications, last_applications),
                ground (
                  arith,
                  fill_account-accounts d a (linked_account a db) its end db kept_accounts,
                ),
              )
        ]
      ]

  -- An approval of a pending application keeps the id of the merchant. Where the application has an
  -- account with an id, the approval is for that id; without an account, or for one without an id,
  -- it is for the drawn id. The account has the id afterwards, the application is stored as
  -- approved for it, and right after the approval the returned token resolves to it. To approve the
  -- application again there raises ConflictError and writes nothing. The digest of the drawn token
  -- was no active token's before.
  pub approve_application-issued :
      (a : Application) (m token : String) (db' : Registry)
      → find? (has_number n) db.applications ≡ some a
      → approve_application d n db ≡ done (m, token) db'
      → count (presents (d.digest d.token)) db.tokens ≡ 0
      → (later : Draw)
      → IsIdFor d db a m db'
        × (find? (has_number n) db'.applications ≡ some (decided d m a))
        × (resolve_merchant_by_token d.digest token db' ≡ some (issued d m))
        × (approve_application later n db' ≡ raised Error.conflict db')
  unfolding resolve_merchant_by_token
  approve_application-issued a m token db' found h fresh later =
      let (b, found_b, _, for_m, same, tokens, applications, accounts) =
        approve_application-shape m token db' h in
      let same_application : b ≡ a = ground (arith, found, found_b) in
      let none_before : find? (presents (d.digest d.token)) (delete (of_merchant m) db.tokens)
          ≡ none =
        find?-delete_absent (presents (d.digest d.token)) (of_merchant m) db.tokens
          (find?-of_count_zero (presents (d.digest d.token)) db.tokens fresh) in
      let decision : find? (has_number n) db'.applications ≡ some (decided d m a) =
        rw applications (
          find?-update (has_number n) (has_number n) (decided d m) db.applications (λ x k. refl)
          ∙ rw found (ground (arith, find?-true (has_number n) db.applications a found))) in
      let for_a : m ≡ merchant_for d (linked_account a db) db =
        subst (λ x. m ≡ merchant_for d (linked_account x db) db) same_application for_m in
      let filled : db'.accounts
          ≡ (fill_account d a (linked_account a db) (merchant_for d (linked_account a db) db)
              db).accounts =
        subst (λ k. db'.accounts ≡ (fill_account d a (linked_account a db) k db).accounts) for_a
          (subst (λ x. db'.accounts ≡ (fill_account d x (linked_account x db) m db).accounts)
            same_application accounts) in
      (
        subst (λ k. IsIdFor d db a k db') (sym for_a) (merchant_for-IsIdFor d db a db' filled),
        decision,
        rw (tokens, same)
            (find?-insert_absent (presents (d.digest d.token)) (issued d m)
                (delete (of_merchant m) db.tokens) none_before
              ∙ ground (arith, eq_iff (d.digest d.token) (d.digest d.token))),
        approve_application-refused later n db' (decided d m a) decision refl,
      )
