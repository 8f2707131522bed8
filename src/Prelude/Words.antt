-- ===== src/Prelude/Words.antt =====
-- Machine-width bounds, and the blank test on texts (`trim().is_empty()`).
use Prim.Native.Nat.{ℕ, zero, suc, ◌*◌, ◌/◌, ◌%◌, ◌^◌}
use Prim.Native.Char.{code}
use Prim.Native.String.{String, ◌++◌ as str_append}
use mathlib.Core.Bool.{Bool, true, false, ◌&&◌, ◌||◌}
use mathlib.Core.Option.{Option, none, some}
use pg_tsy_core_bootstrap.Prelude.Tests.{leb, ltb, ◌==◌, nat_eq, if◌then◌else◌}

abbrev pub u64_mod : ℕ
u64_mod = 2 ^ 64

-- `u64::checked_mul`.
abbrev pub checked_mul_u64 : ℕ → ℕ → Option ℕ
checked_mul_u64 a b = if ltb (a * b) u64_mod then some (a * b) else none

-- Rust's `char::is_whitespace`, the Unicode property White_Space.
is_whitespace : ℕ → Bool
is_whitespace c =
    (leb 9 c && leb c 13)
    || c == 32
    || c == 0x85
    || c == 0xA0
    || c == 0x1680
    || (leb 0x2000 c && leb c 0x200A)
    || c == 0x2028
    || c == 0x2029
    || c == 0x202F
    || c == 0x205F
    || c == 0x3000

-- `text.trim().is_empty()`: every character is white space.
unfoldable pub is_blank : String → Bool
unfolding is_whitespace
is_blank String.[] = true
is_blank (String.◌∷◌ c s) = is_whitespace (code c) && is_blank s

-- `text.is_empty()`.
unfoldable pub is_empty : String → Bool
is_empty String.[] = true
is_empty (String.◌∷◌ c s) = false

abbrev digit_text : ℕ → String
digit_text n =
    if n == 0
    then "0"
    else if n == 1
    then "1"
    else if n == 2
    then "2"
    else if n == 3
    then "3"
    else if n == 4
    then "4"
    else if n == 5
    then "5"
    else if n == 6
    then "6"
    else if n == 7
    then "7"
    else if n == 8
    then "8"
    else "9"

digits_text : ℕ → ℕ → String
digits_text zero n = ""
digits_text (suc fuel) n =
    let rest = digits_text fuel (n / 10) in
    if ltb n 10 then digit_text n else str_append rest (digit_text (n % 10))

-- `to_string` of a `u64`, which has at most twenty decimal digits.
unfoldable pub nat_text : ℕ → String
unfolding digits_text
nat_text n = digits_text 20 n
