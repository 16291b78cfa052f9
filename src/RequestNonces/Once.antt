-- ===== src/RequestNonces/Once.antt =====
-- A signed request is accepted once (kiwi_catalog/a2a/request_signature.py).
use kiwi_catalog.Prelude.{
  ℕ, ◌+◌, ◌≤◌, String, ◌≡◌, inl, inr, false, some, List, [], ◌∷◌, ltb, All, All-map, subst, arith,
  eq_iff, Bool-cases, Option-cases,
}
use kiwi_catalog.Prelude.Table.{find?, insert}
use kiwi_catalog.Prelude.Table.Laws.{find?-insert_found, find?-insert_absent, find?-delete_kept}
use kiwi_catalog.Result.{Error}
use kiwi_catalog.Action.{done, raised, Outcome-cases, db_session}
use kiwi_catalog.RequestNonces.{
  Stamp, utc, Nonce, Signed, window_seconds, is_nonce, outlived, row_of, store_nonce,
  consume_request_nonce, accept_request, outside_window,
}

-- A request as it arrives: when, and at which count of the process.
pub record Arrival : Type 0 where
  pub now : ℕ
  pub calls : ℕ
  pub request : Signed

-- The nonces after requests that are each served in a session of their own.
unfoldable pub serve_all : List Arrival → List Nonce → List Nonce
serve_all [] rows = rows
serve_all (q ∷ qs) rows = serve_all qs (db_session (accept_request q.now q.calls q.request) rows)

-- A row that has not outlived the time stays found after any storing.
store_nonce-kept :
    (now calls : ℕ) (row : Nonce) (key nonce : String) (rows rows' : List Nonce) (r : Nonce)
    → find? (is_nonce key nonce) rows ≡ some r
    → now ≤ r.expires_at.shown
    → store_nonce now calls row rows ≡ done tt rows'
    → find? (is_nonce key nonce) rows' ≡ some r
unfolding store_nonce
store_nonce-kept now calls row key nonce rows rows' r found young h =
    let inserted = find?-insert_found (is_nonce key nonce) row rows r found in
    let pruned =
      find?-delete_kept (is_nonce key nonce) (outlived now) (insert row rows) r inserted
        (ground arith) in
    ground (arith, inserted, pruned)

-- A stored row that is young enough is found.
store_nonce-found :
    (now calls : ℕ) (row : Nonce) (rows rows' : List Nonce)
    → outlived now row ≡ false
    → store_nonce now calls row rows ≡ done tt rows'
    → find? (is_nonce row.key_id row.nonce) rows' ≡ some row
unfolding store_nonce
store_nonce-found now calls row rows rows' young h =
    elim (Option-cases (find? (is_nonce row.key_id row.nonce) rows)) [
      | inr (old, found) ↦ absurd (ground arith)
      | inl free ↦
          let inserted : find? (is_nonce row.key_id row.nonce) (insert row rows) ≡ some row =
            ground (
              arith,
              find?-insert_absent (is_nonce row.key_id row.nonce) row rows free,
              eq_iff row.key_id row.key_id,
              eq_iff row.nonce row.nonce,
            ) in
          let pruned =
            find?-delete_kept (is_nonce row.key_id row.nonce) (outlived now) (insert row rows) row
              inserted young in
          ground (arith, inserted, pruned)
    ]

-- A nonce that is found is refused.
store_nonce-refused :
    (now calls : ℕ) (row : Nonce) (rows : List Nonce) (r : Nonce)
    → find? (is_nonce row.key_id row.nonce) rows ≡ some r
    → store_nonce now calls row rows ≡ raised Error.permission_denied rows
unfolding store_nonce
store_nonce-refused now calls row rows r found = ground (arith, found)

accept_request-stores :
    (now calls : ℕ) (q : Signed) (rows rows' : List Nonce)
    → accept_request now calls q rows ≡ done tt rows'
    → (issued : Stamp) × (q.issued_at ≡ some issued)
      × (outside_window now issued ≡ false)
      × (store_nonce now calls (row_of q issued now) rows ≡ done tt rows')
unfolding accept_request consume_request_nonce
accept_request-stores now calls q rows rows' h = elim (Option-cases q.issued_at) [
  | inl malformed ↦ absurd (ground arith)
  | inr (issued, read) ↦ (issued, read, ground arith, ground arith)
]

serve_all-kept :
    (qs : List Arrival) (key nonce : String) (rows : List Nonce) (r : Nonce)
    → find? (is_nonce key nonce) rows ≡ some r
    → All (λ q. q.now ≤ r.expires_at.shown) qs
    → find? (is_nonce key nonce) (serve_all qs rows) ≡ some r
unfolding serve_all db_session
serve_all-kept [] key nonce rows r found young = found
serve_all-kept (q ∷ qs) key nonce rows r found young =
    let next = db_session (accept_request q.now q.calls q.request) rows in
    elim (Outcome-cases (accept_request q.now q.calls q.request rows)) [
      | inr (e, s, refused) ↦
          let same : next ≡ rows = ground (arith, refused) in
          serve_all-kept qs key nonce next r (rw same found) young.1
      | inl (u, rows', h) ↦
          let moved : next ≡ rows' = ground (arith, h) in
          let (issued, _, _, stored) = accept_request-stores q.now q.calls q.request rows rows' h in
          let kept =
            store_nonce-kept q.now q.calls (row_of q.request issued q.now) key nonce rows rows' r
              found young.0 stored in
          serve_all-kept qs key nonce next r (rw moved kept) young.1
    ]

-- A signed request that was accepted is never accepted again: whatever requests are served in
-- between and however the old nonces are pruned, a replay of it raises PermissionDenied and writes
-- nothing, within its time window because its nonce is still there, and later because it is too old.
-- The request states its time in UTC, and the clock does not go back between the two.
pub accept_request-once :
    (now calls : ℕ) (q : Signed) (issued : ℕ) (rows rows' : List Nonce)
    → q.issued_at ≡ some (utc issued)
    → accept_request now calls q rows ≡ done tt rows'
    → (qs : List Arrival) (again calls' : ℕ) → All (λ other. other.now ≤ again) qs
    → accept_request again calls' q (serve_all qs rows')
      ≡ raised Error.permission_denied (serve_all qs rows')
unfolding accept_request consume_request_nonce
accept_request-once now calls q issued rows rows' stamped h qs again calls' ordered =
    elim (Bool-cases (ltb (issued + window_seconds) again)) [
      | inl late ↦ ground (arith, stamped, late)
      | inr still ↦
          let bound : again ≤ issued + window_seconds = ground arith in
          let (stamp, read, inside, stored) = accept_request-stores now calls q rows rows' h in
          let same : stamp ≡ utc issued = cc (read, stamped) in
          let row = row_of q (utc issued) now in
          let stored_utc : store_nonce now calls row rows ≡ done tt rows' =
            subst (λ t. store_nonce now calls (row_of q t now) rows ≡ done tt rows') same stored in
          let young : outlived now row ≡ false = ground (arith, same, inside) in
          let found = store_nonce-found now calls row rows rows' young stored_utc in
          let kept =
            serve_all-kept qs q.key_id q.nonce rows' row found
              (All-map (λ other early. omega (arith, early, bound)) qs ordered) in
          let refused =
            store_nonce-refused again calls' (row_of q (utc issued) again) (serve_all qs rows') row
              kept in
          ground (arith, stamped, refused, h)
    ]
