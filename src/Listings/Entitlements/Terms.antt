-- ===== src/Listings/Entitlements/Terms.antt =====
-- The entitlement that a change leaves, and the terms that it was asked for
-- (kiwi_catalog/services/listing_entitlements.py).
use kiwi_catalog.Prelude.{
  ℕ, String, ◌≡◌, ◌⊎◌, refl, inl, inr, Bool, true, false, not, is_some, Option, none, some, arith,
  Option-cases, Bool-cases, eq_iff, subst, ℤ, pos, negsuc, ◌∙◌,
}
use kiwi_catalog.Prelude.Table.{find?}
use kiwi_catalog.Prelude.Table.Laws.{find?-update, find?-true, find?-insert_absent}
use kiwi_catalog.Result.{Error}
use kiwi_catalog.Action.{modify, Outcome-cases, done, raise_if-done}
use kiwi_catalog.Listings.Store.{Entitlement, Db}
use kiwi_catalog.Listings.Entitlements.{
  of_merchant, has_plan, ensure_free_plan, ensure_free_entitlement, set_entitlement, set_plan,
  set_override, set_status, change_entitlement, is_negative,
}

-- The merchant's entitlement before the change: the stored one, or that of the free plan.
abbrev pub IsBefore : String → Db → Entitlement → Type 0
IsBefore m db old =
    (find? (of_merchant m) db.entitlements ≡ some old)
    ⊎ ((find? (of_merchant m) db.entitlements ≡ none)
        × (old.plan_code ≡ "free")
        × (old.status ≡ "active")
        × (old.limit_override ≡ none))

-- A column after an update that sets it where a value is given.
abbrev pub IsGiven : Option String → String → String → Type 0
IsGiven given before after =
    ((x : String) × (given ≡ some x) × (after ≡ x)) ⊎ ((given ≡ none) × (after ≡ before))

-- The override after the change: none where it is to be cleared, else the one that is given, else
-- the one before.
abbrev pub IsOverride : Bool → Option ℤ → Option ℕ → Option ℕ → Type 0
IsOverride clear given before after =
    ((clear ≡ true) × (after ≡ none))
    ⊎ ((n : ℕ) × (clear ≡ false) × (given ≡ some (pos n)) × (after ≡ some n))
    ⊎ ((clear ≡ false) × (given ≡ none) × (after ≡ before))

ensure_free_entitlement-row :
    (m : String) (now : ℕ) (db : Db)
    → (old : Entitlement) × (find? (of_merchant m) (ensure_free_entitlement m now db).entitlements
        ≡ some old)
      × IsBefore m db old
      × ((ensure_free_entitlement m now db).listings ≡ db.listings)
unfolding ensure_free_entitlement ensure_free_plan
ensure_free_entitlement-row m now db =
    let free : Entitlement = record {
      merchant_id = m;
      plan_code = "free";
      status = "active";
      limit_override = none;
      updated_at = now;
    } in
    elim (Option-cases (find? (of_merchant m) db.entitlements)) [
      | inr (old, found) ↦ (old, ground (arith, found), inl found, ground arith)
      | inl absent ↦ (
        free,
        ground (
          arith,
          absent,
          find?-insert_absent (of_merchant m) free db.entitlements absent,
          eq_iff m m,
        ),
        inr (absent, refl, refl, refl),
        ground arith,
      )
    ]

-- An update of the merchant's entitlement, which leaves its key.
set_entitlement-row :
    (m : String) (f : Entitlement → Entitlement) (db : Db) (e : Entitlement)
    → ((x : Entitlement) → (f x).merchant_id ≡ x.merchant_id)
    → find? (of_merchant m) db.entitlements ≡ some e
    → find? (of_merchant m) (set_entitlement m f db).entitlements ≡ some (f e)
unfolding set_entitlement
set_entitlement-row m f db e kept found =
    find?-update (of_merchant m) (of_merchant m) f db.entitlements (λ x k. rw (kept x) refl)
    ∙ rw found (ground (arith, find?-true (of_merchant m) db.entitlements e found))

set_override-key :
    (clear : Bool) (limit : Option ℤ) (e : Entitlement)
    → (set_override clear limit e).merchant_id ≡ e.merchant_id
unfolding set_override
set_override-key clear limit e = ground arith

set_status-key :
    (status : Option String) (e : Entitlement) → (set_status status e).merchant_id ≡ e.merchant_id
unfolding set_status
set_status-key status e = ground arith

set_override-IsOverride :
    (clear : Bool) (limit : Option ℤ) (e : Entitlement)
    → is_negative limit ≡ false
    → IsOverride clear limit e.limit_override (set_override clear limit e).limit_override
unfolding set_override
set_override-IsOverride true limit e h = inl (refl, refl)
set_override-IsOverride false (some (pos n)) e h = inr (inl (n, refl, refl, refl))
set_override-IsOverride false (some (negsuc n)) e h = cc
set_override-IsOverride false none e h = inr (inr (refl, refl, refl))

set_status-IsGiven :
    (status : Option String) (e : Entitlement)
    → IsGiven status e.status (set_status status e).status
unfolding set_status
set_status-IsGiven none e = inr (refl, refl)
set_status-IsGiven (some s) e = inl (s, refl, refl)

set_plan-row :
    (m : String) (plan : Option String) (db s : Db) (e : Entitlement)
    → set_plan m plan db ≡ done tt s
    → find? (of_merchant m) db.entitlements ≡ some e
    → (e' : Entitlement) × (find? (of_merchant m) s.entitlements ≡ some e')
      × IsGiven plan e.plan_code e'.plan_code
      × (e'.status ≡ e.status)
      × (e'.limit_override ≡ e.limit_override)
      × (s.listings ≡ db.listings)
unfolding set_plan set_entitlement
set_plan-row m none db s e h found =
    let same : db ≡ s = ground arith in
    (e, rw (← same) found, inr (refl, refl), refl, refl, ground arith)
set_plan-row m (some p) db s e h found =
    let renamed : Entitlement → Entitlement = λ x. record x { plan_code = p } in
    let (_, passed) =
      raise_if-done (not (is_some (find? (has_plan p) db.plans))) Error.not_found db
        (λ _. modify (set_entitlement m renamed)) h in
    let same : set_entitlement m renamed db ≡ s = ground arith in
    (
      renamed e,
      subst (λ t. find? (of_merchant m) t.entitlements ≡ some (renamed e)) same
          (set_entitlement-row m renamed db e (λ x. refl) found),
      inl (p, refl, refl),
      refl,
      refl,
      ground (arith, same),
    )

-- Each of the two later updates writes its own column only.
set_status-set_override :
    (status : Option String) (clear : Bool) (limit : Option ℤ) (e : Entitlement)
    → ((set_status status (set_override clear limit e)).plan_code ≡ e.plan_code)
      × ((set_override clear limit e).status ≡ e.status)
      × ((set_status status (set_override clear limit e)).limit_override
          ≡ (set_override clear limit e).limit_override)
unfolding set_status set_override
set_status-set_override status clear limit e = (ground arith, ground arith, ground arith)

-- What a change was asked for is what the merchant's entitlement says afterwards.
abbrev pub IsChanged :
    String
    → Option String
    → Option ℤ
    → Option String
    → Bool
    → Db
    → String
    → String
    → Option ℕ
    → Type 0
IsChanged m plan limit status clear db plan_code state override =
    (old : Entitlement) × IsBefore m db old
    × IsGiven plan old.plan_code plan_code
    × IsGiven status old.status state
    × IsOverride clear limit old.limit_override override

-- A change that ended has passed its checks, and made its updates one after the other.
change_entitlement-steps :
    (m : String) (plan : Option String) (limit : Option ℤ) (status : Option String) (clear : Bool)
    (now : ℕ) (db s : Db)
    → change_entitlement m plan limit status clear now db ≡ done tt s
    → (is_negative limit ≡ false)
      × ((mid : Db) × (set_plan m plan (ensure_free_entitlement m now db) ≡ done tt mid)
          × (set_entitlement m
                (λ e. record e { updated_at = now })
                (set_entitlement m
                  (set_status status)
                  (set_entitlement m (set_override clear limit) mid))
              ≡ s))
unfolding change_entitlement
change_entitlement-steps m plan limit status clear now db s h =
    elim (Outcome-cases (set_plan m plan (ensure_free_entitlement m now db))) [
      | inr (e, t, stop) ↦ absurd (ground arith)
      | inl (_, mid, step) ↦ elim (Bool-cases (is_negative limit)) [
        | inl e ↦ absurd (ground arith)
        | inr e ↦ (e, (mid, step, ground arith))
      ]
    ]

pub change_entitlement-IsChanged :
    (m : String) (plan : Option String) (limit : Option ℤ) (status : Option String) (clear : Bool)
    (now : ℕ) (db s : Db)
    → change_entitlement m plan limit status clear now db ≡ done tt s
    → (e : Entitlement) × (find? (of_merchant m) s.entitlements ≡ some e)
      × IsChanged m plan limit status clear db e.plan_code e.status e.limit_override
      × (s.listings ≡ db.listings)
unfolding change_entitlement set_entitlement
change_entitlement-IsChanged m plan limit status clear now db s h =
    let (old, ensured, before, same_listings) = ensure_free_entitlement-row m now db in
    let (in_range, (mid, step, end)) =
      change_entitlement-steps m plan limit status clear now db s h in
    let (row, planned, plan_set, same_status, same_override, mid_listings) =
      set_plan-row m plan (ensure_free_entitlement m now db) mid old step ensured in
    let overridden =
      set_entitlement-row m (set_override clear limit) mid row (set_override-key clear limit)
        planned in
    let stated =
      set_entitlement-row m (set_status status) (set_entitlement m (set_override clear limit) mid)
        (set_override clear limit row) (set_status-key status) overridden in
    let last : Entitlement = set_status status (set_override clear limit row) in
    let stamped =
      set_entitlement-row m (λ e. record e { updated_at = now })
        (set_entitlement m (set_status status) (set_entitlement m (set_override clear limit) mid))
        last (λ x. refl) stated in
    let (plan_kept, status_kept, override_kept) = set_status-set_override status clear limit row in
    (
      record last { updated_at = now },
      subst (λ t. find? (of_merchant m) t.entitlements ≡ some (record last { updated_at = now }))
          end stamped,
      (
        old,
        before,
        rw plan_kept plan_set,
        subst (λ x. IsGiven status x last.status) (status_kept ∙ same_status)
            (set_status-IsGiven status (set_override clear limit row)),
        rw override_kept (
            subst (λ x. IsOverride clear limit x (set_override clear limit row).limit_override)
              same_override (set_override-IsOverride clear limit row in_range)),
      ),
      ground (arith, end, mid_listings, same_listings),
    )
