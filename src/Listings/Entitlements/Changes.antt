-- ===== src/Listings/Entitlements/Changes.antt =====
-- What a change of an entitlement leaves in force
-- (kiwi_catalog/services/listing_entitlements.py).
use kiwi_catalog.Prelude.{
  ℕ, String, ◌≡◌, ◌⊎◌, refl, sym, subst, ap, ◌∙◌, inl, inr, Bool, Option, none, some, arith,
  Option-cases, ℤ,
}
use kiwi_catalog.Prelude.Table.{find?}
use kiwi_catalog.Action.{done, Outcome-cases}
use kiwi_catalog.Listings.Store.{Entitlement, Plan, Db}
use kiwi_catalog.Listings.Entitlements.{
  Capacity, of_merchant, has_plan, capacity_of, limit_of, active_used, capacity, audit,
  change_entitlement, set_merchant_entitlement,
}
use kiwi_catalog.Listings.Entitlements.Terms.{IsChanged, change_entitlement-IsChanged}

-- the audit trail is no part of what the capacity is read from
capacity-audit :
    (m n actor action : String) (now : ℕ) (db : Db) (r : Capacity) (s : Db)
    → capacity m db ≡ done r s
    → (s ≡ db) × (capacity m (audit n actor action now db) ≡ done r (audit n actor action now db))
unfolding capacity capacity_of audit active_used
capacity-audit m n actor action now db r s h =
    elim (Option-cases (find? (of_merchant m) db.entitlements)) [
      | inl absent ↦ absurd (ground arith)
      | inr (e, found) ↦ elim (Option-cases (find? (has_plan e.plan_code) db.plans)) [
        | inl unknown ↦ absurd (ground arith)
        | inr (p, known) ↦ (ground arith, ground arith)
      ]
    ]

-- The limit in force: the override, or the limit of the plan where there is none.
abbrev pub IsLimit : String → Option ℕ → Db → ℕ → Type 0
IsLimit plan_code override db limit =
    (p : Plan) × (find? (has_plan plan_code) db.plans ≡ some p)
    × (((override ≡ none) × (limit ≡ p.active_limit))
        ⊎ ((n : ℕ) × (override ≡ some n) × (limit ≡ n)))

limit_of-cases :
    (e : Entitlement) (p : Plan)
    → ((e.limit_override ≡ none) × (limit_of e p ≡ p.active_limit))
      ⊎ ((n : ℕ) × (e.limit_override ≡ some n) × (limit_of e p ≡ n))
limit_of-cases e p = elim (Option-cases e.limit_override) [
  | inl absent ↦ inl (absent, rw absent refl)
  | inr (n, given) ↦ inr (n, given, rw given refl)
]

-- A capacity is read from the merchant's entitlement, its plan and its active listings.
capacity-read :
    (m : String) (db s : Db) (r : Capacity) (e : Entitlement)
    → capacity m db ≡ done r s
    → find? (of_merchant m) db.entitlements ≡ some e
    → (r.plan_code ≡ e.plan_code)
      × (r.status ≡ e.status)
      × (r.active_used ≡ active_used m db)
      × IsLimit e.plan_code e.limit_override db r.active_limit
unfolding capacity capacity_of
capacity-read m db s r e h found = elim (Option-cases (find? (has_plan e.plan_code) db.plans)) [
  | inl unknown ↦ absurd (ground arith)
  | inr (p, known) ↦
      let same : capacity_of m db e p ≡ r = ground arith in
      (
        rw (← same) refl,
        rw (← same) refl,
        rw (← same) refl,
        (
          p,
          known,
          subst
              (λ k.
                ((e.limit_override ≡ none) × (k ≡ p.active_limit))
                ⊎ ((n : ℕ) × (e.limit_override ≡ some n) × (k ≡ n)))
              (ap (λ (x : Capacity). x.active_limit) same) (limit_of-cases e p),
        ),
      )
]

module _ (m actor : String) (plan : Option String) (limit : Option ℤ) (status : Option String)
    (clear : Bool) (now : ℕ) (db : Db) where
  -- What the call returns and leaves behind.
  abbrev Results : Capacity → Db → Type 0
  Results r db' =
      (capacity m db' ≡ done r db')
      × ((override : Option ℕ) × IsChanged m plan limit status clear db r.plan_code r.status
            override
          × IsLimit r.plan_code override db' r.active_limit)
      × (r.active_used ≡ active_used m db)

  change_entitlement-Results :
      (mid : Db) (got : Capacity) (s : Db)
      → change_entitlement m plan limit status clear now db ≡ done tt mid
      → capacity m mid ≡ done got s
      → (s ≡ mid) × Results got (audit m actor "merchant_entitlement_changed" now mid)
  unfolding audit active_used
  change_entitlement-Results mid got s wrote read =
      let (same, again) =
        capacity-audit m m actor "merchant_entitlement_changed" now mid got s read in
      let (e, found, changed, listings) =
        change_entitlement-IsChanged m plan limit status clear now db mid wrote in
      let (plan_code, state, used, in_force) = capacity-read m mid s got e read found in
      let its_plan = sym plan_code in
      (
        same,
        (
          again,
          (
            e.limit_override,
            subst (λ k. IsChanged m plan limit status clear db k got.status e.limit_override)
                its_plan
                (subst (λ k. IsChanged m plan limit status clear db e.plan_code k e.limit_override)
                  (sym state) changed),
            subst (λ k. IsLimit k e.limit_override mid got.active_limit) its_plan in_force,
          ),
          used ∙ rw listings refl,
        ),
      )

  -- The capacity that the call returns is the one that is read right after it, and it follows what
  -- was asked for: the plan and the status are the given ones, and the merchant's own before where
  -- none is given; the override of the limit is none where it is to be cleared, else the given one,
  -- else the one before; and the limit is the override, or the plan's where there is none. The
  -- listings in use are those before the call.
  pub set_merchant_entitlement-in_force :
      {r : Capacity} {db' : Db}
      → set_merchant_entitlement m actor plan limit status clear now db ≡ done r db'
      → (capacity m db' ≡ done r db')
        × ((override : Option ℕ) × IsChanged m plan limit status clear db r.plan_code r.status
              override
            × IsLimit r.plan_code override db' r.active_limit)
        × (r.active_used ≡ active_used m db)
  unfolding set_merchant_entitlement
  set_merchant_entitlement-in_force {r} {db'} h =
      elim (Outcome-cases (change_entitlement m plan limit status clear now db)) [
        | inr (e, s, stop) ↦ absurd (ground arith)
        | inl (_, mid, wrote) ↦ elim (Outcome-cases (capacity m mid)) [
          | inr (e, s, stop) ↦ absurd (ground arith)
          | inl (got, s, read) ↦
              let (same, results) = change_entitlement-Results mid got s wrote read in
              let returned : got ≡ r = ground (arith, same) in
              let end : audit m actor "merchant_entitlement_changed" now mid ≡ db' =
                ground (arith, same) in
              subst (λ t. Results r t) end
                (subst (λ k. Results k (audit m actor "merchant_entitlement_changed" now mid))
                  returned results)
        ]
      ]
