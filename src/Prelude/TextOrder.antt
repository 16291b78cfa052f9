-- ===== src/Prelude/TextOrder.antt =====
-- The order of texts by their characters, which is that of SQLite's `BINARY` collation.
use Prim.Native.Nat.{compare, Ordering}
use Prim.Native.Char.{code}
use Prim.Native.String.{String}
use mathlib.Core.Path.{◌≡◌, refl, ap, subst}
use mathlib.Core.Logic.{inl, inr}
use mathlib.Core.Bool.{Bool, true, false, ◌&&◌, ◌||◌}
use native.Mathlib.Omega.{arith}
use text.Mathlib.TextEquality.{codes_equal}
use text.Mathlib.TextPositions.{compare_self}
use kiwi_catalog.Prelude.Tests.{ltb, ◌==◌, Bool-cases}

unfoldable pub comes_before : String → String → Bool
comes_before String.[] String.[] = false
comes_before String.[] (String.◌∷◌ d t) = true
comes_before (String.◌∷◌ c s) String.[] = false
comes_before (String.◌∷◌ c s) (String.◌∷◌ d t) =
    let rest = comes_before s t in ltb (code c) (code d) || (code c == code d && rest)

pub comes_before_trans :
    (s t u : String) → comes_before s t ≡ true → comes_before t u ≡ true → comes_before s u ≡ true
unfolding comes_before
comes_before_trans String.[] String.[] u h k = absurd (ground (arith, h))
comes_before_trans String.[] (String.◌∷◌ d t) String.[] h k = absurd (ground (arith, k))
comes_before_trans String.[] (String.◌∷◌ d t) (String.◌∷◌ e u) h k = refl
comes_before_trans (String.◌∷◌ c s) String.[] u h k = absurd (ground (arith, h))
comes_before_trans (String.◌∷◌ c s) (String.◌∷◌ d t) String.[] h k = absurd (ground (arith, k))
comes_before_trans (String.◌∷◌ c s) (String.◌∷◌ d t) (String.◌∷◌ e u) h k =
    elim (Bool-cases (comes_before s t)) [
      | inl st ↦ elim (Bool-cases (comes_before t u)) [
        | inl tu ↦ ground (arith, h, k, st, tu, comes_before_trans s t u st tu)
        | inr tu ↦ ground (arith, h, k, st, tu)
      ]
      | inr st ↦ ground (arith, h, k, st)
    ]

pub comes_before_asym : (s t : String) → comes_before s t ≡ true → comes_before t s ≡ false
unfolding comes_before
comes_before_asym String.[] String.[] h = refl
comes_before_asym String.[] (String.◌∷◌ d t) h = refl
comes_before_asym (String.◌∷◌ c s) String.[] h = absurd (ground (arith, h))
comes_before_asym (String.◌∷◌ c s) (String.◌∷◌ d t) h = elim (Bool-cases (comes_before s t)) [
  | inl st ↦ ground (arith, h, st, comes_before_asym s t st)
  | inr st ↦ ground (arith, h, st)
]

-- Of two texts that differ, one comes first.
pub comes_before_total :
    (s t : String) → comes_before s t ≡ false → comes_before t s ≡ false → s ≡ t
unfolding comes_before
comes_before_total String.[] String.[] h k = refl
comes_before_total String.[] (String.◌∷◌ d t) h k = absurd (ground (arith, h))
comes_before_total (String.◌∷◌ c s) String.[] h k = absurd (ground (arith, k))
comes_before_total (String.◌∷◌ c s) (String.◌∷◌ d t) h k =
    let code_same : code c ≡ code d = ground (arith, h, k) in
    let same : c ≡ d =
      codes_equal c d
        (subst (λ n. compare (code c) n ≡ Ordering.eq) code_same (compare_self (code c))) in
    let before : comes_before s t ≡ false = ground (arith, h, code_same) in
    let after : comes_before t s ≡ false = ground (arith, k, code_same) in
    subst (λ x. String.◌∷◌ c s ≡ String.◌∷◌ x t) same
      (ap (String.◌∷◌ c) (comes_before_total s t before after))
