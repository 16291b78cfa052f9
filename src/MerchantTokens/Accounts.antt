-- ===== src/MerchantTokens/Accounts.antt =====
-- The account of an application and the id that an approval gives to it
-- (kiwi_catalog/services/merchant_tokens.py).
use kiwi_catalog.Prelude.{
  true, ℕ, String, ◌≡◌, ◌≢◌, ◌⊎◌, strip, refl, inl, inr, false, none, some, ◌=ₛ◌, arith, eq_iff,
  Bool-cases, Bool, ◌==◌, ◌&&◌, Option-cases,
}
use kiwi_catalog.Prelude.Table.{find?, update}
use kiwi_catalog.Prelude.Table.Laws.{find?-update, find?-true}
use kiwi_catalog.MerchantTokens.{
  Application, Registry, Draw, merchant_for, linked_account, is_account, Account, fill_account,
}

-- What is written to the accounts depends on the accounts only.
pub fill_account-accounts :
    (d : Draw) (a : Application) (account : ℕ) (m : String) (s t : Registry)
    → s.accounts ≡ t.accounts
    → (fill_account d a account m s).accounts ≡ (fill_account d a account m t).accounts
unfolding fill_account
fill_account-accounts d a account m s t h = ground (arith, h)

module _ (d : Draw) (db : Registry) where
  -- An account that is filled in has the merchant's id.
  fill_account-linked :
      (a : Application) (account : ℕ) (m : String) (c : Account)
      → (account == 0) ≡ false
      → find? (is_account account) db.accounts ≡ some c
      → (c' : Account) × (find? (is_account account) (fill_account d a account m db).accounts
          ≡ some c')
        × (c'.merchant_id ≡ m)
  unfolding fill_account
  fill_account-linked a account m c some_account found =
      let given : Account → Account = λ x. record x { merchant_id = m; updated_at = d.now } in
      let named : Account → Account =
        λ x. record x { merchant_name = a.agent_name; phone = a.phone } in
      let unnamed : Account → Bool = λ x. is_account account x && x.merchant_name =ₛ "" in
      let first : find? (is_account account) (update (is_account account) given db.accounts)
          ≡ some (given c) =
        ground (
          arith,
          find?-update (is_account account) (is_account account) given db.accounts (λ x k. refl),
          find?-true (is_account account) db.accounts c found,
          found,
        ) in
      let second =
        find?-update (is_account account) unnamed named
          (update (is_account account) given db.accounts) (λ x k. refl) in
      elim (Bool-cases (unnamed (given c))) [
        | inl e ↦ (named (given c), ground (arith, second, first, e, some_account), refl)
        | inr e ↦ (given c, ground (arith, second, first, e, some_account), refl)
      ]

  -- The id that an approval gives to an application's account: its own where it has one, else the
  -- drawn one.
  abbrev pub IsIdOf : Account → String → Type 0
  IsIdOf c m =
      ((strip c.merchant_id ≢ "") × (m ≡ strip c.merchant_id))
      ⊎ ((strip c.merchant_id ≡ "") × (m ≡ d.merchant_id))

  -- The application has an account, which has the id in the end, or it has none.
  abbrev pub IsIdFor : Application → String → Registry → Type 0
  IsIdFor a m db' =
      ((c : Account) × (linked_account a db ≢ 0)
        × (find? (is_account (linked_account a db)) db.accounts ≡ some c)
        × IsIdOf c m
        × ((c' : Account) × (find? (is_account (linked_account a db)) db'.accounts ≡ some c')
            × (c'.merchant_id ≡ m)))
      ⊎ (((linked_account a db ≡ 0) ⊎ (find? (is_account (linked_account a db)) db.accounts ≡ none))
          × (m ≡ d.merchant_id))

  merchant_for-IsIdOf :
      (account : ℕ) (c : Account)
      → (account == 0) ≡ false
      → find? (is_account account) db.accounts ≡ some c
      → IsIdOf c (merchant_for d account db)
  unfolding merchant_for
  merchant_for-IsIdOf account c some_account found =
      ground (arith, some_account, found, eq_iff (strip c.merchant_id) "")

  drawn_without_account :
      (account : ℕ) → (account == 0) ≡ true → merchant_for d account db ≡ d.merchant_id
  unfolding merchant_for
  drawn_without_account account h = rw h refl

  drawn_for_none :
      (account : ℕ)
      → (account == 0) ≡ false
      → find? (is_account account) db.accounts ≡ none
      → merchant_for d account db ≡ d.merchant_id
  unfolding merchant_for
  drawn_for_none account h absent = rw (h, absent) refl

  pub merchant_for-IsIdFor :
      (a : Application) (db' : Registry)
      → db'.accounts
        ≡ (fill_account d a
            (linked_account a db)
            (merchant_for d (linked_account a db) db)
            db).accounts
      → IsIdFor a (merchant_for d (linked_account a db) db) db'
  merchant_for-IsIdFor a db' filled =
      let k = linked_account a db in
      elim (Bool-cases (k == 0)) [
        | inl e ↦ inr (inl (ground arith), drawn_without_account k e)
        | inr e ↦ elim (Option-cases (find? (is_account k) db.accounts)) [
          | inl absent ↦ inr (inr absent, drawn_for_none k e absent)
          | inr (c, found) ↦
              let (c', after, has) = fill_account-linked a k (merchant_for d k db) c e found in
              inl (
                c,
                ground arith,
                found,
                merchant_for-IsIdOf k c e found,
                (c', rw filled after, has),
              )
        ]
      ]
