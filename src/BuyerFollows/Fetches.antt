-- ===== src/BuyerFollows/Fetches.antt =====
-- `fetch_updates` (kiwi_catalog/services/buyer_follows.py) for one buyer and one merchant, and for
-- the follows of other buyers.
use kiwi_catalog.Prelude.{
  ◌≤◌, String, Bool, ◌≡◌, refl, ap, ◌∙◌, true, false, inl, inr, some, List, [], ◌∷◌, ◌=ₛ◌, arith,
  eq_iff, All, All-map, Bool-cases, Option-cases,
}
use kiwi_catalog.Prelude.Table.{find?, select, count}
use kiwi_catalog.Prelude.Table.Laws.{
  find?-true, find?-All, find?-count_zero, find?-count_pos, count-update_eq,
}
use kiwi_catalog.BuyerFollows.{
  of_follow, active_of, last_of, seen_until, pull, pull_all, list_follows, in_order, fetch_updates,
  updates_per_follow_cap,
}
use kiwi_catalog.BuyerFollows.Events.{list_events_after}
use kiwi_catalog.BuyerFollows.Pulls.{stream, Pulled}
use kiwi_catalog.BuyerFollows.Rising.{Rising}
use kiwi_catalog.Prelude.Cuts.{select_only, All-select}
use kiwi_catalog.BuyerFollows.Rounds.{
  Passes, pull_all-other, pull_all-Pulled, count-in_order, All-in_order,
}
use kiwi_catalog.BuyerFollows.Store.{Follow, Db, Env}

module _ {ℓ} {A : Type ℓ} where
  find?-select :
      (p q : A → Bool) (xs : List A) (r : A)
      → find? p xs ≡ some r
      → q r ≡ true
      → find? p (select q xs) ≡ some r
  unfolding find? select
  find?-select p q [] r h k = cc
  find?-select p q (x ∷ xs) r h k = elim (Bool-cases (p x)) [
    | inl e ↦ let same : x ≡ r = ground arith in ground (arith, same, k, e)
    | inr e ↦ ground (arith, e, find?-select p q xs r (ground arith) k)
  ]

  count-select_le : (p q : A → Bool) (xs : List A) → count p (select q xs) ≤ count p xs
  unfolding count select
  count-select_le p q [] = omega arith
  count-select_le p q (x ∷ xs) = ground (arith, count-select_le p q xs)

  -- Where one row counts, every row that passes is the one that is found.
  find?-sole :
      (p : A → Bool) (xs : List A) (r : A)
      → find? p xs ≡ some r
      → count p xs ≤ 1
      → All (λ x. p x ≡ true → x ≡ r) xs
  unfolding find? count
  find?-sole p [] r h one = tt
  find?-sole p (x ∷ xs) r h one = elim (Bool-cases (p x)) [
    | inl e ↦
        let same : x ≡ r = ground arith in
        (λ _. same, All-map (λ y out own. cc (out, own)) xs (none_left p xs (ground arith)))
    | inr e ↦ (λ own. cc (own, e), find?-sole p xs r (ground arith) (ground arith))
  ]
    where
      none_left : (p : A → Bool) (ys : List A) → count p ys ≡ 0 → All (λ y. p y ≡ false) ys
      none_left p [] z = tt
      none_left p (y ∷ ys) z = (ground arith, none_left p ys (ground arith))

-- The loop reaches the follow.
list_follows-found :
    (b m : String) (f : Follow) (db : Db)
    → find? (of_follow b m) db.follows ≡ some f
    → count (of_follow b m) db.follows ≤ 1
    → (f.status =ₛ "active") ≡ true
    → (find? (of_follow b m) (list_follows b db) ≡ some f)
      × (count (of_follow b m) (list_follows b db) ≤ 1)
unfolding list_follows
list_follows-found b m f db found one active =
    let p = of_follow b m in
    let chosen = select (active_of b) db.follows in
    let own = find?-true p db.follows f found in
    let kept : find? p chosen ≡ some f =
      find?-select p (active_of b) db.follows f found (ground (arith, own, active)) in
    let few : count p (in_order chosen) ≤ 1 =
      omega (arith, count-in_order p chosen, count-select_le p (active_of b) db.follows, one) in
    let sole =
      All-in_order (λ x. p x ≡ true → x ≡ f) chosen
        (All-select (λ x. p x ≡ true → x ≡ f) (active_of b) db.follows
          (find?-sole p db.follows f found one)) in
    elim (Option-cases (find? p (in_order chosen))) [
      | inl missing ↦ absurd (
          omega (
            arith,
            find?-count_zero p (in_order chosen) missing,
            count-in_order p chosen,
            find?-count_pos p chosen f kept,
          ))
      | inr (g, there) ↦
          let same : g ≡ f =
            find?-All (λ x. p x ≡ true → x ≡ f) p (in_order chosen) g sole there
              (find?-true p (in_order chosen) g there) in
          (there ∙ ap some same, few)
    ]

list_follows-buyer :
    (b : String) (db : Db) → All (λ g. (g.buyer_subject =ₛ b) ≡ true) (list_follows b db)
unfolding list_follows
list_follows-buyer b db =
    All-in_order (λ g. (g.buyer_subject =ₛ b) ≡ true) (select (active_of b) db.follows)
      (All-map (λ g both. ground (arith, both)) (select (active_of b) db.follows)
        (select_only (active_of b) db.follows))

pub fetch_updates-Pulled :
    (e : Env) (b m : String) (f : Follow) (db : Db)
    → find? (of_follow b m) db.follows ≡ some f
    → count (of_follow b m) db.follows ≤ 1
    → (f.status =ₛ "active") ≡ true
    → Rising (stream m db.events)
    → Pulled e b m f db (fetch_updates e b db)
unfolding fetch_updates
fetch_updates-Pulled e b m f db found one active rising =
    let listed = list_follows-found b m f db found one active in
    pull_all-Pulled e b m f (list_follows b db) db (list_follows-buyer b db) listed.0 listed.1 found
      rising

-- The round of another buyer.
pub fetch_updates-other :
    (e : Env) (b b' m : String) (f : Follow) (db : Db)
    → (b' =ₛ b) ≡ false
    → find? (of_follow b m) db.follows ≡ some f
    → Passes b m f db (fetch_updates e b' db).1
unfolding fetch_updates
fetch_updates-other e b b' m f db apart found =
    pull_all-other e b m f (list_follows b' db) db found (
      All-map
        (λ (g : Follow) theirs.
          ground (
            arith,
            theirs,
            apart,
            eq_iff g.buyer_subject b',
            eq_iff g.buyer_subject b,
            eq_iff b' b,
          ))
        (list_follows b' db) (list_follows-buyer b' db))

pull-count :
    (e : Env) (b m : String) (f : Follow) (db : Db)
    → count (of_follow b m) (pull e f db).1.follows ≡ count (of_follow b m) db.follows
unfolding pull
pull-count e b m f db =
    elim (Option-cases (
      last_of (
        list_events_after e.sanitize f.merchant_id f.last_seen_at updates_per_follow_cap
          db.events))) [
            | inl nothing ↦ ground (arith, nothing)
            | inr (z, last) ↦
                let same =
                  count-update_eq (of_follow b m) (of_follow f.buyer_subject f.merchant_id)
                    (seen_until z.created_at e.now) db.follows (λ x _. refl) in
                ground (arith, last, same)
          ]

pull_all-count :
    (e : Env) (b m : String) (fs : List Follow) (db : Db)
    → count (of_follow b m) (pull_all e fs db).1.follows ≡ count (of_follow b m) db.follows
unfolding pull_all
pull_all-count e b m [] db = refl
pull_all-count e b m (f ∷ fs) db = pull_all-count e b m fs (pull e f db).1 ∙ pull-count e b m f db

pub fetch_updates-count :
    (e : Env) (b b' m : String) (db : Db)
    → count (of_follow b m) (fetch_updates e b' db).1.follows ≡ count (of_follow b m) db.follows
unfolding fetch_updates
fetch_updates-count e b b' m db = pull_all-count e b m (list_follows b' db) db
