-- ===== src/MerchantTokens/Validity.antt =====
-- Which tokens stand for a merchant after one is issued, rotated or revoked
-- (kiwi_catalog/services/merchant_tokens.py).
use kiwi_catalog.Prelude.{
  none, ℕ, String, ◌≡◌, ◌≢◌, refl, inl, inr, ◌⊎◌, ◌∙◌, Bool, true, some, List, ◌=ₛ◌, All, All-map,
  arith, eq_iff, Bool-cases, Option-cases, if_intro, [], ◌∷◌,
}
use kiwi_catalog.Prelude.Table.{find?, update, count}
use kiwi_catalog.Prelude.Table.Laws.{find?-All, find?-true, find?-update_moved}
use kiwi_catalog.Prelude.Table.Keyed.{Distinct, find?-only}
use kiwi_catalog.Action.{done}
use kiwi_catalog.MerchantTokens.{
  Token, Registry, Draw, of_merchant, rotated, rotate_token, revoked, revoke_token, presents,
  resolve_merchant_by_token, require_token_row,
}

abbrev pub merchant_of : Token → String
merchant_of t = t.merchant_id

-- What an update gives to each row that it touches, where it leaves the clause as it was.
All-touched :
    (q : Token → Bool) (f : Token → Token) (P : Token → Type 0) (rows : List Token)
    → ((x : Token) → q (f x) ≡ q x)
    → ((x : Token) → P (f x))
    → All (λ x. q x ≡ true → P x) (update q f rows)
unfolding update
All-touched q f P [] keep give = tt
All-touched q f P (x ∷ rows) keep give = (
  if_intro (λ z. q z ≡ true → P z) (q x) (λ _ _. give x) (λ e k. absurd (cc (e, k))),
  All-touched q f P rows keep give,
)

module _ (m : String) (db : Registry) where
  rotate_token-shape :
      (d : Draw) (answer : String) (db' : Registry)
      → rotate_token d m db ≡ done answer db'
      → (row : Token) × (find? (of_merchant m) db.tokens ≡ some row)
        × (answer ≡ d.token)
        × (db'.tokens ≡ update (of_merchant m) (rotated d) db.tokens)
  unfolding rotate_token require_token_row
  rotate_token-shape d answer db' h = elim (Option-cases (find? (of_merchant m) db.tokens)) [
    | inl absent ↦ absurd (ground arith)
    | inr (row, found) ↦ (row, found, ground arith, ground arith)
  ]

  -- every token that resolves to the merchant after a rotation has the digest of the new one
  rotate_token-only :
      (d : Draw) (answer : String) (db' : Registry)
      → rotate_token d m db ≡ done answer db'
      → (token : String) (r : Token) → resolve_merchant_by_token d.digest token db' ≡ some r
      → r.merchant_id ≡ m
      → d.digest token ≡ d.digest answer
  unfolding resolve_merchant_by_token
  rotate_token-only d answer db' h token r resolved own =
      let (row, found, same, after) = rotate_token-shape d answer db' h in
      let all_new =
        All-touched (of_merchant m) (rotated d) (λ x. x.token_hash ≡ d.digest d.token) db.tokens
          (λ x. refl) (λ x. refl) in
      let here : find? (presents (d.digest token)) (update (of_merchant m) (rotated d) db.tokens)
          ≡ some r =
        rw (← after) resolved in
      let hash : r.token_hash ≡ d.digest d.token =
        find?-All (λ x. of_merchant m x ≡ true → x.token_hash ≡ d.digest d.token)
          (presents (d.digest token)) (update (of_merchant m) (rotated d) db.tokens) r all_new here
          ((eq_iff r.merchant_id m).1 own) in
      let presented =
        find?-true (presents (d.digest token)) (update (of_merchant m) (rotated d) db.tokens) r
          here in
      ground (arith, presented, hash, same, eq_iff r.token_hash (d.digest token))

  -- A rotation replaces the merchant's token: the new one, which the call returns, resolves to the
  -- merchant afterwards, and any token with another digest, such as the old one, resolves to nobody
  -- or to another merchant. The digest of the new token was no active token's before.
  pub rotate_token-valid :
      (d : Draw) (answer : String) (db' : Registry)
      → rotate_token d m db ≡ done answer db'
      → count (presents (d.digest d.token)) db.tokens ≡ 0
      → (old : String) → d.digest old ≢ d.digest answer
      → (r : Token) × (resolve_merchant_by_token d.digest answer db' ≡ some r)
        × (r.merchant_id ≡ m)
        × ((resolve_merchant_by_token d.digest old db' ≡ none)
            ⊎ ((x : Token) × (resolve_merchant_by_token d.digest old db' ≡ some x)
                × (x.merchant_id ≢ m)))
  unfolding resolve_merchant_by_token
  rotate_token-valid d answer db' h fresh old other =
      let (row, found, same, after) = rotate_token-shape d answer db' h in
      let new_found =
        find?-update_moved (presents (d.digest d.token)) (of_merchant m) (rotated d) db.tokens fresh
          (λ x k. ground (arith, eq_iff (d.digest d.token) (d.digest d.token))) in
      (
        rotated d row,
        rw (after, same) (new_found ∙ rw found refl),
        (eq_iff row.merchant_id m).0 (find?-true (of_merchant m) db.tokens row found),
        elim (Option-cases (resolve_merchant_by_token d.digest old db')) [
          | inl nobody ↦ inl nobody
          | inr (x, resolved) ↦
              inr (x, resolved, λ own. other (rotate_token-only d answer db' h old x resolved own))
        ],
      )

  revoke_token-shape :
      (now : ℕ) (answer : String) (db' : Registry)
      → revoke_token now m db ≡ done answer db'
      → ((row : Token) × (find? (of_merchant m) db.tokens ≡ some row)
          × (row.status ≡ "revoked")
          × (db'.tokens ≡ db.tokens))
        ⊎ (db'.tokens ≡ update (of_merchant m) (revoked now) db.tokens)
  unfolding revoke_token require_token_row
  revoke_token-shape now answer db' h = elim (Option-cases (find? (of_merchant m) db.tokens)) [
    | inl absent ↦ absurd (ground arith)
    | inr (row, found) ↦ elim (Bool-cases (row.status =ₛ "revoked")) [
      | inl dead ↦ inl (row, found, (eq_iff row.status "revoked").0 dead, ground arith)
      | inr live ↦ inr (ground arith)
    ]
  ]

  -- no row of a table in which the merchant's rows are revoked resolves to the merchant
  dead_rows :
      (rows : List Token) (hash : String) (r : Token)
      → All (λ x. of_merchant m x ≡ true → x.status ≡ "revoked") rows
      → find? (presents hash) rows ≡ some r
      → r.merchant_id ≢ m
  dead_rows rows hash r dead found own =
      let status : r.status ≡ "revoked" =
        find?-All (λ x. of_merchant m x ≡ true → x.status ≡ "revoked") (presents hash) rows r dead
          found ((eq_iff r.merchant_id m).1 own) in
      let presented = find?-true (presents hash) rows r found in
      ground (arith, status, presented, eq_iff r.status "active", eq_iff "revoked" "active")

  -- After a revocation no token whatever resolves to the merchant, whether the call revoked it or
  -- found it revoked. The merchant has one row in the table.
  pub revoke_token-dead :
      (now : ℕ) (answer : String) (db' : Registry)
      → revoke_token now m db ≡ done answer db'
      → Distinct merchant_of db.tokens
      → (digest : String → String) (token : String) (r : Token)
      → resolve_merchant_by_token digest token db' ≡ some r
      → r.merchant_id ≢ m
  unfolding resolve_merchant_by_token
  revoke_token-dead now answer db' h unique digest token r resolved =
      elim (revoke_token-shape now answer db' h) [
        | inr after ↦
            dead_rows (update (of_merchant m) (revoked now) db.tokens) (digest token) r
              (All-touched (of_merchant m) (revoked now) (λ x. x.status ≡ "revoked") db.tokens
                (λ x. refl) (λ x. refl))
              (rw (← after) resolved)
        | inl (row, found, dead, after) ↦
            let its : row.merchant_id ≡ m =
              (eq_iff row.merchant_id m).0 (find?-true (of_merchant m) db.tokens row found) in
            dead_rows db.tokens (digest token) r
              (All-map (λ x only k. cc (only (rw its k), dead)) db.tokens
                (find?-only merchant_of (of_merchant m) db.tokens row unique found))
              (rw (← after) resolved)
      ]
