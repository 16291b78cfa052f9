-- ===== src/AgentCatalog/Order.antt =====
-- The order of a list of agents is strict and tells rows of different ids apart, and the predicate of
-- a cursor is that order (kiwi_catalog/agent_catalog/pagination.py).
use kiwi_catalog.Prelude.{
  ℕ, String, ◌≡◌, refl, sym, subst, Bool, true, false, ◌&&◌, ◌||◌, inl, inr, ◌==◌, ◌=ₛ◌, ltb, arith,
  eq_iff, Bool-cases,
}
use kiwi_catalog.Prelude.TextOrder.{
  comes_before, comes_before_trans, comes_before_asym, comes_before_total,
}
use kiwi_catalog.AgentCatalog.Store.{Agent}
use kiwi_catalog.AgentCatalog.Pages.{
  agent_order_by, agent_cursor_predicate, cursor_of, names_before, agent_status_rank, stamp,
}

names_before_trans :
    (n i m j o k : String)
    → names_before n i m j ≡ true
    → names_before m j o k ≡ true
    → names_before n i o k ≡ true
names_before_trans n i m j o k h g = elim (Bool-cases (comes_before n m)) [
  | inl nm ↦ elim (Bool-cases (comes_before m o)) [
    | inl mo ↦ rw (comes_before_trans n m o nm mo) refl
    | inr mo ↦
        let same : m ≡ o = ground (arith, g, mo, eq_iff m o) in
        rw (subst (λ v. comes_before n v ≡ true) same nm) refl
  ]
  | inr nm ↦
      let same : n ≡ m = ground (arith, h, nm, eq_iff n m) in
      let ij : comes_before i j ≡ true = ground (arith, h, nm) in
      elim (Bool-cases (comes_before m o)) [
        | inl mo ↦ rw (subst (λ v. comes_before v o ≡ true) (sym same) mo) refl
        | inr mo ↦
            let next : m ≡ o = ground (arith, g, mo, eq_iff m o) in
            let jk : comes_before j k ≡ true = ground (arith, g, mo) in
            ground (arith, eq_iff n o, same, next, comes_before_trans i j k ij jk)
      ]
]

names_before_asym : (n i m j : String) → names_before n i m j ≡ true → names_before m j n i ≡ false
names_before_asym n i m j h = elim (Bool-cases (comes_before n m)) [
  | inl nm ↦
      let other : comes_before m n ≡ false = comes_before_asym n m nm in
      elim (Bool-cases (m =ₛ n)) [
        | inl e ↦
            let same : m ≡ n = (eq_iff m n).0 e in
            ground (arith, subst (λ v. comes_before v m ≡ true) (sym same) nm, other, same)
        | inr e ↦ rw (other, e) refl
      ]
  | inr nm ↦
      let same : n ≡ m = ground (arith, h, nm, eq_iff n m) in
      let ij : comes_before i j ≡ true = ground (arith, h, nm) in
      let mn : comes_before m n ≡ false =
        subst (λ v. comes_before v n ≡ false) same
          (subst (λ v. comes_before n v ≡ false) (sym same) nm) in
      rw (mn, comes_before_asym i j ij) (ground arith)
]

names_before_total :
    (n i m j : String)
    → names_before n i m j ≡ false
    → (j =ₛ i) ≡ false
    → names_before m j n i ≡ true
names_before_total n i m j h d = elim (Bool-cases (comes_before m n)) [
  | inl mn ↦ rw mn refl
  | inr mn ↦
      let same : m ≡ n = comes_before_total m n mn (ground (arith, h)) in
      elim (Bool-cases (comes_before j i)) [
        | inl ji ↦ ground (arith, mn, ji, same, eq_iff m n)
        | inr ji ↦
            let ids : j ≡ i = comes_before_total j i ji (ground (arith, h, eq_iff n m, same)) in
            absurd (ground (arith, d, ids, eq_iff j i))
      ]
]

-- By a rising number, by a falling one, and then by a test.
abbrev lex : ℕ → ℕ → ℕ → ℕ → Bool → Bool
lex r q l k b = ltb r q || (r == q && (ltb k l || (l == k && b)))

lex_trans :
    (r q p l k m : ℕ) (a b c : Bool)
    → lex r q l k a ≡ true
    → lex q p k m b ≡ true
    → (a ≡ true → b ≡ true → c ≡ true)
    → lex r p l m c ≡ true
lex_trans r q p l k m true true c h g f = rw (f refl refl) (ground (arith, h, g))
lex_trans r q p l k m true false c h g f = ground (arith, h, g)
lex_trans r q p l k m false b c h g f = ground (arith, h, g)

lex_asym :
    (r q l k : ℕ) (a b : Bool)
    → lex r q l k a ≡ true
    → (a ≡ true → b ≡ false)
    → lex q r k l b ≡ false
lex_asym r q l k true b h f = rw (f refl) (ground (arith, h))
lex_asym r q l k false b h f = ground (arith, h)

lex_total :
    (r q l k : ℕ) (a b : Bool)
    → lex r q l k a ≡ false
    → (a ≡ false → b ≡ true)
    → lex q r k l b ≡ true
lex_total r q l k true b h f = ground (arith, h)
lex_total r q l k false b h f = rw (f refl) (ground (arith, h))

abbrev rank : Agent → ℕ
rank g = agent_status_rank g.verification_status

abbrev verified : Agent → ℕ
verified g = stamp g.last_verified_at

abbrev names : Agent → Agent → Bool
names x y = names_before x.display_name x.catalog_agent_id y.display_name y.catalog_agent_id

pub agent_order_by_trans :
    (x y z : Agent)
    → agent_order_by x y ≡ true
    → agent_order_by y z ≡ true
    → agent_order_by x z ≡ true
unfolding agent_order_by
agent_order_by_trans x y z h k =
    lex_trans (rank x) (rank y) (rank z) (verified x) (verified y) (verified z) (names x y)
      (names y z) (names x z) h k
      (names_before_trans x.display_name x.catalog_agent_id y.display_name y.catalog_agent_id
        z.display_name z.catalog_agent_id)

pub agent_order_by_asym : (x y : Agent) → agent_order_by x y ≡ true → agent_order_by y x ≡ false
unfolding agent_order_by
agent_order_by_asym x y h =
    lex_asym (rank x) (rank y) (verified x) (verified y) (names x y) (names y x) h
      (names_before_asym x.display_name x.catalog_agent_id y.display_name y.catalog_agent_id)

pub agent_order_by_total :
    (x y : Agent)
    → agent_order_by x y ≡ false
    → (y.catalog_agent_id =ₛ x.catalog_agent_id) ≡ false
    → agent_order_by y x ≡ true
unfolding agent_order_by
agent_order_by_total x y h d =
    lex_total (rank x) (rank y) (verified x) (verified y) (names x y) (names y x) h (λ apart.
      names_before_total x.display_name x.catalog_agent_id y.display_name y.catalog_agent_id apart
        d)

predicate_parts :
    (c r l k : ℕ) (n e i : Bool)
    → (ltb c r || (r == c && ltb l k) || (r == c && l == k && n) || (r == c && l == k && e && i))
      ≡ lex c r k l (n || (e && i))
predicate_parts c r l k true e i = ground arith
predicate_parts c r l k false true i = ground arith
predicate_parts c r l k false false i = ground arith

-- The predicate of a row's cursor is the order of the query.
pub agent_cursor_predicate-agent_order_by :
    (x y : Agent) → agent_cursor_predicate (cursor_of x) y ≡ agent_order_by x y
unfolding agent_cursor_predicate agent_order_by
agent_cursor_predicate-agent_order_by x y =
    predicate_parts (rank x) (rank y) (verified y) (verified x)
      (comes_before x.display_name y.display_name) (x.display_name =ₛ y.display_name)
      (comes_before x.catalog_agent_id y.catalog_agent_id)
