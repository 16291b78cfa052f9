-- ===== src/BuyerFollows/Rounds.antt =====
-- The loop of `fetch_updates` (kiwi_catalog/services/buyer_follows.py): it reaches every active
-- follow of the buyer once, and no other.
use mathlib.Core.List.{append-nil}
use kiwi_catalog.Prelude.{
  suc, max, ◌≤◌, String, Bool, ◌≡◌, refl, sym, ◌∙◌, subst, true, false, inl, inr, some, List, [],
  ◌∷◌, ◌++◌, ◌=ₛ◌, arith, eq_iff, All, Bool-cases, Option-cases, take, if◌then◌else◌, if_intro,
}
use kiwi_catalog.Prelude.Table.{find?, select, count, max_of}
use kiwi_catalog.Prelude.Table.Laws.{find?-true, find?-update_kept}
use kiwi_catalog.Prelude.Table.Keyed.{count_zero-All}
use kiwi_catalog.BuyerFollows.{
  of_follow, wants, last_of, seen_until, pull, pull_all, in_order, put_follow, follows_before,
  updates_per_follow_cap, merchant_name,
}
use kiwi_catalog.BuyerFollows.Events.{by_merchant, list_events_after}
use kiwi_catalog.BuyerFollows.Pulls.{
  stream, waiting, visible, shown, shown-append, shown_update-other, Pulled, pull-own,
}
use kiwi_catalog.BuyerFollows.Rising.{Rising}
use kiwi_catalog.Prelude.Cuts.{drop}
use kiwi_catalog.BuyerFollows.Store.{Follow, Db, Env, Update}

-- The row stays, and so do the events.
abbrev pub Passes : String → String → Follow → Db → Db → Type 0
Passes b m f db db' = (find? (of_follow b m) db'.follows ≡ some f) × (db'.events ≡ db.events)

pull-other :
    (e : Env) (g : Follow) (b m : String) (f : Follow) (db : Db)
    → find? (of_follow b m) db.follows ≡ some f
    → of_follow b m g ≡ false
    → Passes b m f db (pull e g db).1
unfolding pull
pull-other e g b m f db found other =
    elim (Option-cases (
      last_of (
        list_events_after e.sanitize g.merchant_id g.last_seen_at updates_per_follow_cap
          db.events))) [
            | inl nothing ↦ (ground (arith, nothing, found), ground (arith, nothing))
            | inr (z, last) ↦
                let q = of_follow g.buyer_subject g.merchant_id in
                let own = find?-true (of_follow b m) db.follows f found in
                let apart : q f ≡ false = ground (
                  arith,
                  own,
                  other,
                  eq_iff f.buyer_subject b,
                  eq_iff f.merchant_id m,
                  eq_iff f.buyer_subject g.buyer_subject,
                  eq_iff f.merchant_id g.merchant_id,
                  eq_iff g.buyer_subject b,
                  eq_iff g.merchant_id m,
                ) in
                let kept =
                  find?-update_kept (of_follow b m) q (seen_until z.created_at e.now) db.follows f
                    (λ x _. refl) found apart in
                (ground (arith, last, kept), ground (arith, last))
          ]

pull-silent :
    (e : Env) (g : Follow) (m : String) (db : Db)
    → (g.merchant_id =ₛ m) ≡ false
    → shown m (pull e g db).0 ≡ []
unfolding pull
pull-silent e g m db other =
    elim (Option-cases (
      last_of (
        list_events_after e.sanitize g.merchant_id g.last_seen_at updates_per_follow_cap
          db.events))) [
            | inl nothing ↦ unfold shown in ground (arith, nothing)
            | inr (z, last) ↦
                let quiet =
                  shown_update-other m g.merchant_id (merchant_name g.merchant_id db) z.created_at
                    (select (wants e.category_of g.category) (
                      list_events_after e.sanitize g.merchant_id g.last_seen_at
                        updates_per_follow_cap db.events))
                    other in
                ground (arith, last, quiet)
          ]

pub pull_all-other :
    (e : Env) (b m : String) (f : Follow) (fs : List Follow) (db : Db)
    → find? (of_follow b m) db.follows ≡ some f
    → All (λ g. of_follow b m g ≡ false) fs
    → Passes b m f db (pull_all e fs db).1
unfolding pull_all
pull_all-other e b m f [] db found others = (found, refl)
pull_all-other e b m f (g ∷ gs) db found others =
    let first = pull-other e g b m f db found others.0 in
    let rest = pull_all-other e b m f gs (pull e g db).1 first.0 others.1 in
    (rest.0, rest.1 ∙ first.1)

pull_all-silent :
    (e : Env) (m : String) (fs : List Follow) (db : Db)
    → All (λ g. (g.merchant_id =ₛ m) ≡ false) fs
    → shown m (pull_all e fs db).0 ≡ []
unfolding pull_all
pull_all-silent e m [] db others = unfold shown in refl
pull_all-silent e m (g ∷ gs) db others =
    let first = pull-silent e g m db others.0 in
    let rest = pull_all-silent e m gs (pull e g db).1 others.1 in
    shown-append m (pull e g db).0 (pull_all e gs (pull e g db).1).0 ∙ (rw (first, rest) refl)

-- What comes after the follow was reached, and what came before it, changes nothing for it.
Pulled-then :
    (e : Env) (b m : String) (f : Follow) (db : Db) (us vs : List Update) (db1 db2 : Db)
    → (p : Pulled e b m f db (us, db1)) → Passes b m p.row db1 db2
    → shown m vs ≡ []
    → Pulled e b m f db (us ++ vs, db2)
Pulled-then e b m f db us vs db1 db2 p passes quiet = record {
  row = p.row;
  found = passes.0;
  status = p.status;
  category = p.category;
  events = passes.1 ∙ p.events;
  handed = shown-append m us vs ∙ (rw (quiet, append-nil) p.handed);
  left = p.left;
  mark = p.mark;
}

Pulled-before :
    (e : Env) (b m : String) (f : Follow) (db : Db) (us vs : List Update) (db1 db2 : Db)
    → Passes b m f db db1
    → shown m us ≡ []
    → Pulled e b m f db1 (vs, db2)
    → Pulled e b m f db (us ++ vs, db2)
Pulled-before e b m f db us vs db1 db2 passes quiet p =
    let same : db1.events ≡ db.events = passes.1 in
    record {
      row = p.row;
      found = p.found;
      status = p.status;
      category = p.category;
      events = p.events ∙ same;
      handed =
          shown-append m us vs
          ∙ (rw quiet (
              subst
                (λ es.
                  shown m vs
                  ≡ visible e f.category
                      (take updates_per_follow_cap (waiting m f.last_seen_at es)))
                same p.handed));
      left =
          subst
            (λ es.
              waiting m p.row.last_seen_at es
              ≡ drop updates_per_follow_cap (waiting m f.last_seen_at es))
            same p.left;
      mark =
          subst
            (λ es.
              p.row.last_seen_at
              ≤ max f.last_seen_at (max_of (by_merchant m) (λ x. x.created_at) es))
            same p.mark;
    }

-- A row of the pair (b, m) that is found is of that buyer and merchant.
pull-pair :
    (e : Env) (b m : String) (f : Follow) (db : Db)
    → find? (of_follow b m) db.follows ≡ some f
    → Rising (stream m db.events)
    → Pulled e b m f db (pull e f db)
pull-pair e b m f db found rising =
    let own = find?-true (of_follow b m) db.follows f found in
    let buyer : f.buyer_subject ≡ b = ground (arith, own, eq_iff f.buyer_subject b) in
    let merchant : f.merchant_id ≡ m = ground (arith, own, eq_iff f.merchant_id m) in
    let found' : find? (of_follow f.buyer_subject f.merchant_id) db.follows ≡ some f =
      subst (λ k. find? (of_follow k f.merchant_id) db.follows ≡ some f) (sym buyer)
        (subst (λ k. find? (of_follow b k) db.follows ≡ some f) (sym merchant) found) in
    let rising' : Rising (stream f.merchant_id db.events) =
      subst (λ k. Rising (stream k db.events)) (sym merchant) rising in
    subst (λ k. Pulled e k m f db (pull e f db)) buyer
      (subst (λ k. Pulled e f.buyer_subject k f db (pull e f db)) merchant
        (pull-own e f db found' rising'))

-- A row of this buyer for another merchant.
silent_of :
    (b m : String) (fs : List Follow)
    → All (λ g. (g.buyer_subject =ₛ b) ≡ true) fs
    → All (λ g. of_follow b m g ≡ false) fs
    → All (λ g. (g.merchant_id =ₛ m) ≡ false) fs
silent_of b m [] mine others = tt
silent_of b m (g ∷ gs) mine others =
    (ground (arith, mine.0, others.0), silent_of b m gs mine.1 others.1)

pub pull_all-Pulled :
    (e : Env) (b m : String) (f : Follow) (fs : List Follow) (db : Db)
    → All (λ g. (g.buyer_subject =ₛ b) ≡ true) fs
    → find? (of_follow b m) fs ≡ some f
    → count (of_follow b m) fs ≤ 1
    → find? (of_follow b m) db.follows ≡ some f
    → Rising (stream m db.events)
    → Pulled e b m f db (pull_all e fs db)
unfolding find? count pull_all
pull_all-Pulled e b m f [] db mine here one found rising = cc
pull_all-Pulled e b m f (g ∷ gs) db mine here one found rising =
    elim (Bool-cases (of_follow b m g)) [
      | inl own ↦
          let same : g ≡ f = ground (arith, here, own) in
          let others : All (λ x. of_follow b m x ≡ false) gs =
            count_zero-All (λ x. x.buyer_subject) (of_follow b m) gs (ground (arith, one, own)) in
          let first : Pulled e b m f db (pull e g db) =
            subst (λ x. Pulled e b m f db (pull e x db)) (sym same)
              (pull-pair e b m f db found rising) in
          let db1 = (pull e g db).1 in
          Pulled-then e b m f db (pull e g db).0 (pull_all e gs db1).0 db1 (pull_all e gs db1).1
            first (pull_all-other e b m first.row gs db1 first.found others)
            (pull_all-silent e m gs db1 (silent_of b m gs mine.1 others))
      | inr other ↦
          let db1 = (pull e g db).1 in
          let passes = pull-other e g b m f db found other in
          let rising' : Rising (stream m db1.events) =
            subst (λ es. Rising (stream m es)) (sym passes.1) rising in
          let rest =
            pull_all-Pulled e b m f gs db1 mine.1 (ground (arith, here, other))
              (ground (arith, one, other)) passes.0 rising' in
          Pulled-before e b m f db (pull e g db).0 (pull_all e gs db1).0 db1 (pull_all e gs db1).1
            passes (pull-silent e g m db (ground (arith, mine.0, other))) rest
    ]

-- Sorting the follows keeps who they are.
count-put_follow :
    (p : Follow → Bool) (f : Follow) (fs : List Follow)
    → count p (put_follow f fs) ≡ (if p f then suc (count p fs) else count p fs)
unfolding count put_follow
count-put_follow p f [] = refl
count-put_follow p f (g ∷ gs) = ground (arith, count-put_follow p f gs)

pub count-in_order : (p : Follow → Bool) (fs : List Follow) → count p (in_order fs) ≡ count p fs
unfolding count in_order
count-in_order p [] = refl
count-in_order p (f ∷ fs) = ground (arith, count-put_follow p f (in_order fs), count-in_order p fs)

All-put_follow {κ} :
    (P : Follow → Type κ) (f : Follow) (fs : List Follow) → P f → All P fs → All P (put_follow f fs)
unfolding put_follow
All-put_follow P f [] h a = (h, tt)
All-put_follow P f (g ∷ gs) h a =
    if_intro (All P) (follows_before f g) (λ _. (h, a)) (λ _. (a.0, All-put_follow P f gs h a.1))

pub All-in_order {κ} : (P : Follow → Type κ) (fs : List Follow) → All P fs → All P (in_order fs)
unfolding in_order
All-in_order P [] a = tt
All-in_order P (f ∷ fs) a = All-put_follow P f (in_order fs) a.0 (All-in_order P fs a.1)
