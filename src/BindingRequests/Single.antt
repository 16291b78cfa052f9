-- ===== src/BindingRequests/Single.antt =====
-- The rows of `runtime_bindings`: what the confirmation of a request keeps true of them.
use kiwi_catalog.Prelude.{
  ℕ, ◌+◌, ◌≤◌, ◌<◌, String, ◌&&◌, ◌≡◌, refl, subst, inl, inr, true, false, none, some, List, ◌==◌,
  if◌then◌else◌, arith, eq_iff, Bool-cases, Option-cases,
}
use kiwi_catalog.Prelude.Table.{find?, update, insert, count, max_of}
use kiwi_catalog.Prelude.Table.Laws.{
  count-insert, count-update_le, count-update_eq, count-update_lt, find?-count_zero,
  find?-insert_absent, find?-of_count_zero, find?-none_le, find?-apart, find?-and, update-insert,
}
use kiwi_catalog.Prelude.Table.Greatest.{max_of-only}
use kiwi_catalog.Prelude.Table.Keyed.{Distinct, Distinct-insert, Distinct-update}
use kiwi_catalog.Action.{done}
use kiwi_catalog.AgentCatalog.Store.{Agent}
use kiwi_catalog.BindingRequests.{of_agent, has_id, new_binding, revoked, revoke, write_binding}
use kiwi_catalog.BindingRequests.Endpoints.{active_binding, active_of, is_binding}
use kiwi_catalog.BindingRequests.Store.{Binding, Request}

-- An agent has at most one active binding; the ids and the versions of an agent are unique.
pub record IsSound (rows : List Binding) : Type 0 where
  pub one_active : (a : String) → count (active_of a) rows ≤ 1
  pub ids : Distinct (λ b. b.binding_id) rows
  pub versions : (a : String) (v : ℕ) → count (is_binding a v) rows ≤ 1

abbrev pub next_version : String → List Binding → ℕ
next_version a rows = max_of (of_agent a) (λ b. b.binding_version) rows + 1

-- The row that a confirmation inserts.
abbrev pub row_for : Agent → Request → ℕ → List Binding → Binding
row_for g req now rows = new_binding g req (next_version g.catalog_agent_id rows) now

pub write_binding-done :
    (g : Agent) (req : Request) (now : ℕ) (rows rows' : List Binding) (b : Binding)
    → write_binding g req now rows ≡ done b rows'
    → (b ≡ row_for g req now rows)
      × (find? (has_id (row_for g req now rows).binding_id) rows ≡ none)
      × (find? (is_binding g.catalog_agent_id (next_version g.catalog_agent_id rows)) rows ≡ none)
      × (rows'
          ≡ revoke now
              (find? (active_of g.catalog_agent_id) rows)
              (insert (row_for g req now rows) rows))
unfolding write_binding
write_binding-done g req now rows rows' b h = ground arith

module _ (a : String) (now : ℕ) (row : Binding) (rows : List Binding) where
  -- The revocation of the one active row makes room for the new one.
  pub revoke-one_active :
      row.catalog_agent_id ≡ a
      → (b : String) → count (active_of b) rows ≤ 1
      → count (active_of b) (revoke now (find? (active_of a) rows) (insert row rows)) ≤ 1
  revoke-one_active own b one = elim (Option-cases (find? (active_of a) rows)) [
    | inl free ↦ ground (
      arith,
      free,
      find?-count_zero (active_of a) rows free,
      count-insert (active_of b) row rows,
      eq_iff row.catalog_agent_id b,
      own,
    )
    | inr (old, found) ↦
        let closed = update (has_id old.binding_id) (revoked now) rows in
        let settled : Binding = if has_id old.binding_id row then revoked now row else row in
        let moved : count (active_of b)
              (update (has_id old.binding_id) (revoked now) (insert row rows))
            ≡ count (active_of b) (insert settled closed) =
          rw (update-insert (has_id old.binding_id) (revoked now) row rows) refl in
        let fewer =
          count-update_le (active_of b) (has_id old.binding_id) (revoked now) rows
            (λ (x : Binding) _ e. ground arith) in
        let less : count (active_of a) closed < count (active_of a) rows =
          count-update_lt (active_of a) (has_id old.binding_id) (revoked now) rows old
            (λ x _ e. ground arith) found (ground (arith, eq_iff old.binding_id old.binding_id))
            (ground arith) in
        rw found (
          ground (
            arith,
            moved,
            fewer,
            less,
            count-insert (active_of b) settled closed,
            eq_iff row.catalog_agent_id b,
            own,
          ))
  ]

  -- The new row is the active one then.
  pub revoke-active :
      active_of a row ≡ true
      → count (active_of a) rows ≤ 1
      → find? (has_id row.binding_id) rows ≡ none
      → find? (active_of a) (revoke now (find? (active_of a) rows) (insert row rows)) ≡ some row
  revoke-active new one fresh = elim (Option-cases (find? (active_of a) rows)) [
    | inl free ↦ ground (arith, free, new, find?-insert_absent (active_of a) row rows free)
    | inr (old, found) ↦
        let q = has_id old.binding_id in
        let closed = update q (revoked now) rows in
        let apart : q row ≡ false = ground (
          arith,
          find?-apart (active_of a) (has_id row.binding_id) rows old found fresh,
          eq_iff row.binding_id old.binding_id,
          eq_iff old.binding_id row.binding_id,
        ) in
        let less : count (active_of a) closed < count (active_of a) rows =
          count-update_lt (active_of a) q (revoked now) rows old (λ x _ e. ground arith) found
            (ground (arith, eq_iff old.binding_id old.binding_id)) (ground arith) in
        let nothing : find? (active_of a) closed ≡ none =
          find?-of_count_zero (active_of a) closed (omega (arith, less, one)) in
        let kept : (if q row then revoked now row else row) ≡ row = rw apart refl in
        let moved : update q (revoked now) (insert row rows) ≡ insert row closed =
          subst (λ x. update q (revoked now) (insert row rows) ≡ insert x closed) kept
            (update-insert q (revoked now) row rows) in
        rw (found, moved)
          (ground (arith, new, find?-insert_absent (active_of a) row closed nothing))
  ]

  pub revoke-ids :
      find? (has_id row.binding_id) rows ≡ none
      → Distinct (λ b. b.binding_id) rows
      → Distinct (λ b. b.binding_id) (revoke now (find? (active_of a) rows) (insert row rows))
  revoke-ids fresh ids =
      let more =
        Distinct-insert (λ b. b.binding_id) row rows
          (find?-count_zero (has_id row.binding_id) rows fresh) ids in
      elim (Option-cases (find? (active_of a) rows)) [
        | inl free ↦ rw free more
        | inr (old, found) ↦ rw found (
            Distinct-update (λ b. b.binding_id) (has_id old.binding_id) (revoked now)
              (insert row rows) (λ x. refl) more)
      ]

  pub revoke-versions :
      find? (is_binding row.catalog_agent_id row.binding_version) rows ≡ none
      → (b : String) (v : ℕ) → count (is_binding b v) rows ≤ 1
      → count (is_binding b v) (revoke now (find? (active_of a) rows) (insert row rows)) ≤ 1
  revoke-versions fresh b v one =
      let more : count (is_binding b v) (insert row rows) ≤ 1 =
        elim (Bool-cases (is_binding b v row)) [
          | inl same ↦
              let absent : find? (is_binding b v) rows ≡ none =
                ground (arith, fresh, same, eq_iff row.catalog_agent_id b) in
              ground (
                arith,
                find?-count_zero (is_binding b v) rows absent,
                count-insert (is_binding b v) row rows,
              )
          | inr other ↦ ground (arith, count-insert (is_binding b v) row rows, other)
        ] in
      elim (Option-cases (find? (active_of a) rows)) [
        | inl free ↦ rw free more
        | inr (old, found) ↦ rw found (
            rw
              (count-update_eq (is_binding b v) (has_id old.binding_id) (revoked now)
                (insert row rows) (λ x _. refl))
              more)
      ]

-- Where at most one binding of the agent is active, the newest active one is the active one.
pub active_binding-only :
    (a : String) (rows : List Binding)
    → count (active_of a) rows ≤ 1
    → active_binding a rows ≡ find? (active_of a) rows
unfolding active_binding
active_binding-only a rows one = elim (Option-cases (find? (active_of a) rows)) [
  | inl free ↦ rw free (
      find?-none_le
        (λ b.
          active_of a b && b.binding_version == max_of (active_of a) (λ b. b.binding_version) rows)
        (active_of a) rows (λ x e. ground arith) free)
  | inr (b, found) ↦
      let newest : max_of (active_of a) (λ b. b.binding_version) rows ≡ b.binding_version =
        max_of-only (active_of a) (λ b. b.binding_version) rows b found one in
      rw found (
        find?-and (active_of a)
          (λ b. b.binding_version == max_of (active_of a) (λ b. b.binding_version) rows) rows b
          found (ground (arith, newest)))
]

module _ (g : Agent) (req : Request) (now : ℕ) (rows rows' : List Binding) (b : Binding)
    (sound : IsSound rows) (h : write_binding g req now rows ≡ done b rows') where
  pub write_binding-IsSound : IsSound rows'
  write_binding-IsSound =
      let (_, fresh, unused, after) = write_binding-done g req now rows rows' b h in
      let row = row_for g req now rows in
      let a = g.catalog_agent_id in
      rw after (record {
        one_active = λ c. revoke-one_active a now row rows refl c (sound.one_active c);
        ids = revoke-ids a now row rows fresh sound.ids;
        versions = λ c v. revoke-versions a now row rows unused c v (sound.versions c v);
      })

  -- It is the binding that the other services read.
  pub write_binding-active : active_binding g.catalog_agent_id rows' ≡ some (row_for g req now rows)
  write_binding-active =
      let (_, fresh, _, after) = write_binding-done g req now rows rows' b h in
      let row = row_for g req now rows in
      let a = g.catalog_agent_id in
      let new : active_of a row ≡ true = ground (arith, eq_iff a a) in
      let found : find? (active_of a) rows' ≡ some row =
        rw after (revoke-active a now row rows new (sound.one_active a) fresh) in
      rw (active_binding-only a rows' (write_binding-IsSound.one_active a)) found
