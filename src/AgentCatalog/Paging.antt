-- ===== src/AgentCatalog/Paging.antt =====
-- Reading a list of agents page by page (kiwi_catalog/agent_catalog/pagination.py and
-- sqlite_repository.py), as a client does that follows the cursors.
use kiwi_catalog.Prelude.{
  ℕ, zero, suc, ◌+◌, ◌<◌, ◌≤◌, String, ◌≡◌, refl, sym, ◌∙◌, ap, subst, Bool, true, false, ◌&&◌, inl,
  inr, Option, none, some, List, [], ◌∷◌, ◌++◌, ◌=ₛ◌, ltb, arith, Bool-cases, Option-cases, take,
  length, All, if◌then◌else◌,
}
use kiwi_catalog.Prelude.Cuts.{drop, take-append-drop, select-and, select_only, select-All}
use kiwi_catalog.Prelude.Sorting.{
  ordered, Sorted, ordered-Sorted, select-ordered, last_row, last_row-cut, last_row-All, All-take,
  nothing_left, count-ordered,
}
use kiwi_catalog.Prelude.Table.{select, count}
use kiwi_catalog.Prelude.Table.Keyed.{Distinct}
use kiwi_catalog.AgentCatalog.Store.{Agent}
use kiwi_catalog.AgentCatalog.Pages.{
  agent_order_by, agent_cursor_predicate, cursor_of, Cursor, agent_page, agent_page_query,
  paginate_agent_rows, beyond,
}
use kiwi_catalog.AgentCatalog.Order.{
  agent_order_by_trans, agent_order_by_asym, agent_order_by_total,
  agent_cursor_predicate-agent_order_by,
}
use mathlib.Core.Option

abbrev follow : List Agent × Option Cursor → (Cursor → List Agent) → List Agent
follow r rest = elim r.1 [ none ↦ r.0 | some c ↦ r.0 ++ rest c ]

-- The rows that a client sees who starts at a cursor and follows at most that many cursors.
unfoldable pub read_pages : ℕ → (Agent → Bool) → ℕ → Option Cursor → List Agent → List Agent
read_pages zero p limit cursor rows = []
read_pages (suc n) p limit cursor rows =
    follow (agent_page p limit cursor rows) (λ c. read_pages n p limit (some c) rows)

module _ {ℓ} {A : Type ℓ} where
  select-ext : (p q : A → Bool) (xs : List A) → ((x : A) → p x ≡ q x) → select p xs ≡ select q xs
  unfolding select
  select-ext p q [] h = refl
  select-ext p q (x ∷ xs) h = ground (arith, h x, select-ext p q xs h)

  select_narrow :
      (p q : A → Bool) (xs : List A)
      → ((x : A) → q x ≡ true → p x ≡ true)
      → select q (select p xs) ≡ select q xs
  unfolding select
  select_narrow p q [] h = refl
  select_narrow p q (x ∷ xs) h = elim (Bool-cases (q x)) [
    | inl e ↦ ground (arith, e, h x e, select_narrow p q xs h)
    | inr e ↦ ground (arith, e, select_narrow p q xs h)
  ]

  take-take : (n : ℕ) (xs : List A) → take n (take (suc n) xs) ≡ take n xs
  take-take zero xs = refl
  take-take (suc n) [] = refl
  take-take (suc n) (x ∷ xs) = rw (take-take n xs) refl

  length-take_more : (n : ℕ) (xs : List A) → ltb n (length (take (suc n) xs)) ≡ ltb n (length xs)
  length-take_more n [] = refl
  length-take_more zero (x ∷ xs) = ground arith
  length-take_more (suc n) (x ∷ xs) = ground (arith, length-take_more n xs)

  take_all : (n : ℕ) (xs : List A) → length xs ≤ n → take n xs ≡ xs
  take_all zero [] h = refl
  take_all (suc n) [] h = refl
  take_all zero (x ∷ xs) h = absurd (omega arith)
  take_all (suc n) (x ∷ xs) h = rw (take_all n xs (omega arith)) refl

  length-drop : (n : ℕ) (xs : List A) → n ≤ length xs → n + length (drop n xs) ≡ length xs
  length-drop zero xs h = omega arith
  length-drop (suc n) [] h = omega arith
  length-drop (suc n) (x ∷ xs) h = omega (arith, length-drop n xs (omega arith))

  count-select : (q p : A → Bool) (xs : List A) → count q (select p xs) ≡ count (λ x. p x && q x) xs
  unfolding count select
  count-select q p [] = refl
  count-select q p (x ∷ xs) = ground (arith, count-select q p xs)

  count-select-le : (q p : A → Bool) (xs : List A) → count q (select p xs) ≤ count q xs
  unfolding count select
  count-select-le q p [] = omega arith
  count-select-le q p (x ∷ xs) = ground (arith, count-select-le q p xs)

  length-count : (xs : List A) → length xs ≡ count (λ x. true) xs
  unfolding count
  length-count [] = refl
  length-count (x ∷ xs) = ground (arith, length-count xs)

  All-true : (xs : List A) → All (λ x. true ≡ true) xs
  All-true [] = tt
  All-true (x ∷ xs) = (refl, All-true xs)

  select-Distinct :
      (key : A → String) (p : A → Bool) (xs : List A) → Distinct key xs → Distinct key (select p xs)
  unfolding select count
  select-Distinct key p [] d = tt
  select-Distinct key p (x ∷ xs) d = elim (Bool-cases (p x)) [
    | inl e ↦ rw e (
      omega (arith, d.0, count-select-le (λ y. key y =ₛ key x) p xs),
      select-Distinct key p xs d.1,
    )
    | inr e ↦ rw e (select-Distinct key p xs d.1)
  ]

abbrev id_of : Agent → String
id_of g = g.catalog_agent_id

-- All rows that a query without a page's limit gives from a cursor on.
abbrev rows_from : (Agent → Bool) → Option Cursor → List Agent → List Agent
rows_from p c rows = ordered agent_order_by (select (λ g. p g && beyond c g) rows)

-- From a row's cursor on come the rows after it.
rows_from-row :
    (p : Agent → Bool) (z : Agent) (rows : List Agent)
    → Distinct id_of rows
    → rows_from p (some (cursor_of z)) rows
      ≡ select (agent_order_by z) (ordered agent_order_by (select p rows))
rows_from-row p z rows d =
    ap (ordered agent_order_by) (
      select-ext (λ g. p g && agent_cursor_predicate (cursor_of z) g)
        (λ g. p g && agent_order_by z g) rows
        (λ g. rw (agent_cursor_predicate-agent_order_by z g) refl)
      ∙ select-and p (agent_order_by z) rows)
    ∙ sym (
        select-ordered agent_order_by id_of agent_order_by_trans agent_order_by_asym
          agent_order_by_total (agent_order_by z) (select p rows) (select-Distinct id_of p rows d))

rows_from-Sorted :
    (p : Agent → Bool) (c : Option Cursor) (rows : List Agent)
    → Distinct id_of rows
    → Sorted agent_order_by (rows_from p c rows)
rows_from-Sorted p c rows d =
    ordered-Sorted agent_order_by id_of agent_order_by_trans agent_order_by_asym
      agent_order_by_total (select (λ g. p g && beyond c g) rows)
      (select-Distinct id_of (λ g. p g && beyond c g) rows d)

rows_from-start :
    (p : Agent → Bool) (rows : List Agent)
    → rows_from p none rows ≡ ordered agent_order_by (select p rows)
rows_from-start p rows =
    ap (ordered agent_order_by) (select-ext (λ g. p g && true) p rows (λ g. ground arith))

-- A page is the first of the rows, with the cursor of its last row where more rows follow.
agent_page-rows :
    (p : Agent → Bool) (limit : ℕ) (c : Option Cursor) (rows : List Agent)
    → agent_page p limit c rows ≡ (
      take limit (rows_from p c rows),
      if ltb limit (length (rows_from p c rows))
          then Option.map cursor_of (last_row (take limit (rows_from p c rows)))
          else none,
    )
unfolding agent_page agent_page_query paginate_agent_rows
agent_page-rows p limit c rows =
    rw (take-take limit (rows_from p c rows), length-take_more limit (rows_from p c rows)) refl

read_pages-last :
    (n : ℕ) (p : Agent → Bool) (limit : ℕ) (c : Option Cursor) (rows : List Agent)
    → length (rows_from p c rows) ≤ limit
    → read_pages (suc n) p limit c rows ≡ rows_from p c rows
unfolding read_pages
read_pages-last n p limit c rows few =
    let end : ltb limit (length (rows_from p c rows)) ≡ false = ground (arith, few) in
    let rest = λ (k : Cursor). read_pages n p limit (some k) rows in
    ap (λ r. follow r rest) (agent_page-rows p limit c rows)
    ∙ (rw end (take_all limit (rows_from p c rows) few))

read_pages-more :
    (n : ℕ) (p : Agent → Bool) (limit : ℕ) (c : Option Cursor) (rows : List Agent) (z : Agent)
    → limit < length (rows_from p c rows)
    → last_row (take limit (rows_from p c rows)) ≡ some z
    → read_pages (suc n) p limit c rows
      ≡ take limit (rows_from p c rows) ++ read_pages n p limit (some (cursor_of z)) rows
unfolding read_pages
read_pages-more n p limit c rows z more last =
    let on : ltb limit (length (rows_from p c rows)) ≡ true = ground (arith, more) in
    let rest = λ (k : Cursor). read_pages n p limit (some k) rows in
    ap (λ r. follow r rest) (agent_page-rows p limit c rows) ∙ (rw (on, last) refl)

-- A page that is not the last one ends in a row.
last_row-more {ℓ} :
    {A : Type ℓ} (n : ℕ) (xs : List A)
    → 0 < n
    → n < length xs
    → (z : A) × (last_row (take n xs) ≡ some z)
last_row-more n xs pos more = elim (Option-cases (last_row (take n xs))) [
  | inr found ↦ found
  | inl nothing ↦
      absurd (
        omega
          (arith, length-drop n xs (omega (arith, more)), ap length (nothing_left n xs nothing)))
]

read_pages-rest :
    (n : ℕ) (p keep : Agent → Bool) (limit : ℕ) (c : Option Cursor) (rows : List Agent)
    → Distinct id_of rows
    → 0 < limit
    → ((y x : Agent) → keep y ≡ true → agent_order_by y x ≡ true → keep x ≡ true)
    → rows_from p c rows ≡ select keep (ordered agent_order_by (select p rows))
    → length (rows_from p c rows) < n
    → read_pages n p limit c rows ≡ rows_from p c rows
read_pages-rest zero p keep limit c rows d pos closed from fuel = absurd (omega arith)
read_pages-rest (suc n) p keep limit c rows d pos closed from fuel =
    let rest = rows_from p c rows in
    elim (Bool-cases (ltb limit (length rest))) [
      | inr few ↦ read_pages-last n p limit c rows (ground (arith, few))
      | inl some_more ↦
          let more : limit < length rest = ground (arith, some_more) in
          let (z, last) = last_row-more limit rest pos more in
          let kept : keep z ≡ true =
            last_row-All (λ x. keep x ≡ true) (take limit rest) z
              (All-take (λ x. keep x ≡ true) limit rest
                (subst (λ xs. All (λ x. keep x ≡ true) xs) (sym from)
                  (select_only keep (ordered agent_order_by (select p rows)))))
              last in
          let next : rows_from p (some (cursor_of z)) rows ≡ drop limit rest =
            rows_from-row p z rows d
            ∙ sym (
                select_narrow keep (agent_order_by z) (ordered agent_order_by (select p rows))
                  (λ x after. closed z x kept after))
            ∙ ap (select (agent_order_by z)) (sym from)
            ∙ last_row-cut agent_order_by id_of agent_order_by_trans agent_order_by_asym
                agent_order_by_total limit rest z (rows_from-Sorted p c rows d) last in
          let shorter : length (rows_from p (some (cursor_of z)) rows) < n =
            omega (arith, ap length next, length-drop limit rest (omega (arith, more)), fuel) in
          read_pages-more n p limit c rows z more last
          ∙ ap (λ xs. take limit rest ++ xs)
              (read_pages-rest n p (agent_order_by z) limit (some (cursor_of z)) rows d pos
                  (λ y x first second. agent_order_by_trans z y x first second)
                  (rows_from-row p z rows d) shorter
                ∙ next)
          ∙ take-append-drop limit rest
    ]

-- Reading page by page is complete. Over a table of agents with unique ids and for pages of at least
-- one row, a client that starts without a cursor and follows as many cursors as the table has rows
-- is shown the rows that meet the query's other clauses: strictly in the order of the query, across
-- the pages too, and for every test on rows as many that pass it as the table has, so that no row is
-- left out or shown twice.
pub read_pages-Sorted :
    (n : ℕ) (p test : Agent → Bool) (limit : ℕ) (rows : List Agent)
    → Distinct (λ (g : Agent). g.catalog_agent_id) rows
    → 0 < limit
    → length rows < n
    → Sorted agent_order_by (read_pages n p limit none rows)
      × (count test (read_pages n p limit none rows) ≡ count (λ g. p g && test g) rows)
read_pages-Sorted n p test limit rows d pos fuel =
    let whole = ordered agent_order_by (select p rows) in
    let start = rows_from-start p rows in
    let every : select (λ g. true) whole ≡ whole = select-All (λ g. true) whole (All-true whole) in
    let size : length (rows_from p none rows) < n = omega (
      arith,
      fuel,
      ap length start,
      length-count whole,
      count-ordered agent_order_by (λ g. true) (select p rows),
      count-select-le (λ g. true) p rows,
      length-count rows,
    ) in
    let read : read_pages n p limit none rows ≡ whole =
      read_pages-rest n p (λ g. true) limit none rows d pos (λ y x first second. refl)
        (start ∙ sym every) size
      ∙ start in
    (
      subst (Sorted agent_order_by) (sym read)
          (subst (Sorted agent_order_by) start (rows_from-Sorted p none rows d)),
      ap (count test) read
          ∙ count-ordered agent_order_by test (select p rows)
          ∙ count-select test p rows,
    )
