-- ===== src/Prelude/Text.antt =====
-- Python's `str.strip()` and `str[:n]`, on texts as lists of characters.
use Prim.Native.Nat.{ℕ, zero, suc, ◌+◌, ◌-◌, ◌/◌, ◌%◌}
use Prim.Native.Char.{code}
use Prim.Native.String
use Prim.Native.String.{String, ◌++◌}
use mathlib.Core.Path.{◌≡◌, refl}
use mathlib.Core.Bool.{Bool, true, false, ◌&&◌, ◌||◌}
use kiwi_catalog.Prelude.Tests.{ltb, leb, ◌==◌, ◌=ₛ◌, if◌then◌else◌}

-- `str.isspace` of one character
unfoldable pub is_space : ℕ → Bool
is_space c =
    (leb 9 c && leb c 13)
    || (leb 28 c && leb c 32)
    || c == 0x85
    || c == 0xa0
    || c == 0x1680
    || (leb 0x2000 c && leb c 0x200a)
    || c == 0x2028
    || c == 0x2029
    || c == 0x202f
    || c == 0x205f
    || c == 0x3000

lstrip : String → String
lstrip String.[] = String.[]
lstrip (String.◌∷◌ c s) = let rest = lstrip s in if is_space (code c) then rest else String.◌∷◌ c s

rstrip : String → String
rstrip String.[] = String.[]
rstrip (String.◌∷◌ c s) =
    let rest = rstrip s in if rest =ₛ "" && is_space (code c) then "" else String.◌∷◌ c rest

unfoldable pub strip : String → String
unfolding lstrip rstrip is_space
strip s = rstrip (lstrip s)

-- The first `n` characters.
unfoldable pub prefix : ℕ → String → String
prefix zero s = ""
prefix (suc n) String.[] = ""
prefix (suc n) (String.◌∷◌ c s) = String.◌∷◌ c (prefix n s)

-- `s.rstrip("/")`
unfoldable pub without_slashes : String → String
without_slashes String.[] = String.[]
without_slashes (String.◌∷◌ c s) =
    let rest = without_slashes s in if rest =ₛ "" && code c == b'/' then "" else String.◌∷◌ c rest

-- `s.upper() == t` for a text `t` of ASCII characters, on ASCII characters
unfoldable pub equal_upper : String → String → Bool
equal_upper String.[] t = t =ₛ ""
equal_upper (String.◌∷◌ c s) String.[] = false
equal_upper (String.◌∷◌ c s) (String.◌∷◌ d t) =
    let rest = equal_upper s t in
    (code c == code d || (leb b'a' (code c) && leb (code c) b'z' && code c == code d + 32)) && rest

-- `str.upper()` where it makes ASCII of characters that are not: the sharp s, the dotless i, the long s
-- and the Latin ligatures. All other characters are left, for `equal_upper`.
unfoldable pub ascii_upper : String → String
ascii_upper String.[] = String.[]
ascii_upper (String.◌∷◌ c s) =
    let rest = ascii_upper s in
    if code c == 0xdf
    then "SS" ++ rest
    else if code c == 0x131
    then "I" ++ rest
    else if code c == 0x17f
    then "S" ++ rest
    else if code c == 0xfb00
    then "FF" ++ rest
    else if code c == 0xfb01
    then "FI" ++ rest
    else if code c == 0xfb02
    then "FL" ++ rest
    else if code c == 0xfb03
    then "FFI" ++ rest
    else if code c == 0xfb04
    then "FFL" ++ rest
    else if code c == 0xfb05 || code c == 0xfb06
    then "ST" ++ rest
    else String.◌∷◌ c rest

-- All characters are below 128.
unfoldable pub is_ascii : String → Bool
is_ascii String.[] = true
is_ascii (String.◌∷◌ c s) = let rest = is_ascii s in leb (code c) 127 && rest

dropped : ℕ → String → String
dropped zero s = s
dropped (suc n) String.[] = ""
dropped (suc n) (String.◌∷◌ c s) = dropped n s

-- `s[-n:]`
unfoldable pub suffix : ℕ → String → String
unfolding dropped
suffix n s = dropped (String.count s - n) s

digit : ℕ → String
digit d =
    if d == 0
    then "0"
    else if d == 1
    then "1"
    else if d == 2
    then "2"
    else if d == 3
    then "3"
    else if d == 4
    then "4"
    else if d == 5
    then "5"
    else if d == 6
    then "6"
    else if d == 7
    then "7"
    else if d == 8
    then "8"
    else "9"

-- The decimal digits of a number below 10 to the power of the fuel.
digits : ℕ → ℕ → String
digits zero n = ""
digits (suc fuel) n =
    let front = digits fuel (n / 10) in if ltb n 10 then digit n else front ++ digit (n % 10)

-- `str(n)`: n + 1 digits are enough.
unfoldable pub decimal : ℕ → String
unfolding digits digit
decimal n = digits (suc n) n

decimal_example : decimal 2048 ≡ "2048"
unfolding decimal
decimal_example = refl

strip_example : strip " \tlst_1 x\n" ≡ "lst_1 x"
unfolding strip
strip_example = refl
