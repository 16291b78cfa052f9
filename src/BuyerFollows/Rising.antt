-- ===== src/BuyerFollows/Rising.antt =====
-- Events in the strict order of their times: sorting leaves them, and a threshold cuts them in two
-- (kiwi_catalog/services/merchant_public_events.py).
use kiwi_catalog.Prelude.{
  ℕ, zero, suc, ◌<◌, Bool, ◌≡◌, refl, subst, inl, inr, none, some, List, [], ◌∷◌, ltb, arith, All,
  All-map, Bool-cases, Option-cases, lt→ltb, ◌⊎◌, map, take, ap,
}
use kiwi_catalog.Prelude.Table.{select, insert}
use kiwi_catalog.Prelude.Cuts.{drop, drop-nil, All-select, select-All}
use kiwi_catalog.Prelude.Table.Laws.{All-insert}
use kiwi_catalog.BuyerFollows.{last_of}
use kiwi_catalog.BuyerFollows.Events.{by_time, placed}
use kiwi_catalog.BuyerFollows.Store.{Event}

abbrev pub Rising : List Event → Type 0
Rising [] = Unit
Rising (x ∷ xs) = All (λ y. x.created_at < y.created_at) xs × Rising xs

pub Rising-select : (p : Event → Bool) (xs : List Event) → Rising xs → Rising (select p xs)
unfolding select
Rising-select p [] h = tt
Rising-select p (x ∷ xs) h = elim (Bool-cases (p x)) [
  | inl e ↦ rw e (All-select (λ y. x.created_at < y.created_at) p xs h.0, Rising-select p xs h.1)
  | inr e ↦ rw e (Rising-select p xs h.1)
]

pub by_time-Rising : (xs : List Event) → Rising xs → by_time xs ≡ xs
unfolding by_time placed
by_time-Rising [] h = refl
by_time-Rising (x ∷ []) h = refl
by_time-Rising (x ∷ y ∷ ys) h = ground (arith, h.0.0, by_time-Rising (y ∷ ys) h.1)

pub Rising-insert :
    (e : Event) (xs : List Event)
    → All (λ x. x.created_at < e.created_at) xs
    → Rising xs
    → Rising (insert e xs)
unfolding insert
Rising-insert e [] below h = (tt, tt)
Rising-insert e (x ∷ xs) below h =
    (All-insert (λ y. x.created_at < y.created_at) e xs below.0 h.0, Rising-insert e xs below.1 h.1)

pub last_of-All {κ} :
    (P : Event → Type κ) (xs : List Event) (z : Event) → All P xs → last_of xs ≡ some z → P z
unfolding last_of
last_of-All P [] z h k = cc
last_of-All P (x ∷ xs) z h k = elim (Option-cases (last_of xs)) [
  | inl nothing ↦ let same : x ≡ z = ground (arith, nothing, k) in subst P same h.0
  | inr (y, found) ↦ last_of-All P xs z h.1 (ground (arith, found, k))
]

pub All-take {κ} : (P : Event → Type κ) (n : ℕ) (xs : List Event) → All P xs → All P (take n xs)
All-take P zero xs h = tt
All-take P (suc n) [] h = tt
All-take P (suc n) (x ∷ xs) h = (h.0, All-take P n xs h.1)

-- Where nothing is taken, nothing is dropped.
pub take-none-drop : (n : ℕ) (xs : List Event) → last_of (take n xs) ≡ none → (n ≡ 0) ⊎ (xs ≡ [])
unfolding last_of
take-none-drop zero xs h = inl refl
take-none-drop (suc n) [] h = inr refl
take-none-drop (suc n) (x ∷ xs) h = absurd (ground (arith, h))

-- After the last of the events that were taken, the others remain.
pub last_of-cut :
    (n : ℕ) (xs : List Event) (z : Event)
    → Rising xs
    → last_of (take n xs) ≡ some z
    → select (λ e. ltb z.created_at e.created_at) xs ≡ drop n xs
unfolding last_of select
last_of-cut zero xs z h k = cc
last_of-cut (suc n) [] z h k = cc
last_of-cut (suc n) (x ∷ xs) z h k = elim (Option-cases (last_of (take n xs))) [
  | inl nothing ↦
      let same : x ≡ z = ground (arith, nothing, k) in
      let whole : select (λ e. ltb x.created_at e.created_at) xs ≡ xs =
        select-All (λ e. ltb x.created_at e.created_at) xs
          (All-map (λ y below. lt→ltb x.created_at y.created_at below) xs h.0) in
      let kept : drop n xs ≡ xs = elim (take-none-drop n xs nothing) [
        | inl e ↦ rw e refl
        | inr e ↦ rw e (drop-nil n)
      ] in
      ground (arith, whole, kept, same)
  | inr (y, found) ↦
      let same : last_of (take n xs) ≡ some z = ground (arith, found, k) in
      let below : x.created_at < z.created_at =
        last_of-All (λ e. x.created_at < e.created_at) (take n xs) z
          (All-take (λ e. x.created_at < e.created_at) n xs h.0) same in
      ground (arith, below, last_of-cut n xs z h.1 same)
]

-- The last event of those that are read back.
pub last_of-map-none :
    (g : Event → Event) (xs : List Event) → last_of xs ≡ none → last_of (map g xs) ≡ none
unfolding last_of
last_of-map-none g [] h = refl
last_of-map-none g (x ∷ xs) h = elim (Option-cases (last_of xs)) [
  | inl nothing ↦ absurd (ground (arith, nothing, h))
  | inr (y, found) ↦ absurd (ground (arith, found, h))
]

pub last_of-map-some :
    (g : Event → Event) (xs : List Event) (z : Event)
    → last_of xs ≡ some z
    → last_of (map g xs) ≡ some (g z)
unfolding last_of
last_of-map-some g [] z h = cc
last_of-map-some g (x ∷ xs) z h = elim (Option-cases (last_of xs)) [
  | inl nothing ↦
      let same : x ≡ z = ground (arith, nothing, h) in
      rw (last_of-map-none g xs nothing) (ap (λ k. some (g k)) same)
  | inr (y, found) ↦
      let same : y ≡ z = ground (arith, found, h) in
      rw (last_of-map-some g xs y found) (ap (λ k. some (g k)) same)
]
