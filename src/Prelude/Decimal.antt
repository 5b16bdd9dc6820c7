-- ===== src/Prelude/Decimal.antt =====
-- `std::to_string` of a number that is not negative, and the digits that `std::from_chars` reads.
use Prim.Native.Nat.{ℕ, zero, suc, ◌+◌, ◌-◌, ◌*◌, ◌/◌, ◌%◌, ◌<◌}
use mathlib.Core.Path.{◌≡◌, refl, ap, ◌∙◌}
use mathlib.Core.Logic.{inl, inr}
use mathlib.Core.Bool.{Bool, true, false, ◌&&◌}
use mathlib.Core.Option.{Option, none, some}
use mathlib.Core.List.{[], ◌∷◌, ◌++◌}
use native.Mathlib.Omega.{arith}
use distributed_cache.Prelude.Tests.{ltb, leb, Bool-cases, if◌then◌else◌}
use distributed_cache.Prelude.Lists.{All, All-append}
use distributed_cache.Prelude.Keys.{Bytes, is_empty}

-- The decimal digits, at most as many as the fuel.
unfoldable pub decimal : ℕ → ℕ → Bytes
decimal zero n = []
decimal (suc fuel) n =
    let front = decimal fuel (n / 10) in
    let digit = (48 + n % 10) ∷ [] in if ltb n 10 then digit else front ++ digit

-- Twenty digits hold every 64-bit number.
unfoldable pub to_string : ℕ → Bytes
unfolding decimal
to_string n = decimal 20 n

abbrev pub is_digit : ℕ → Bool
is_digit c = leb 48 c && leb c 57

-- The number that digits stand for, after those that make the first number; nothing if a byte is none.
unfoldable pub parse_digits : ℕ → Bytes → Option ℕ
parse_digits n [] = some n
parse_digits n (c ∷ cs) =
    let rest = parse_digits (10 * n + (c - 48)) cs in if is_digit c then rest else none

parse_digits-append :
    (a m d : ℕ) (cs : Bytes)
    → d < 10
    → parse_digits a cs ≡ some m
    → parse_digits a (cs ++ (48 + d) ∷ []) ≡ some (10 * m + d)
unfolding parse_digits
parse_digits-append a m d [] h e = ground arith
parse_digits-append a m d (c ∷ cs) h e = elim (Bool-cases (is_digit c)) [
  | inl digit ↦
      ground (
        arith,
        digit,
        e,
        parse_digits-append (10 * a + (c - 48)) m d cs h (ground (arith, digit, e)),
      )
  | inr other ↦ absurd (ground (arith, other, e))
]

-- The power of ten.
abbrev pub ten_to : ℕ → ℕ
ten_to zero = 1
ten_to (suc n) = 10 * ten_to n

parse_digits-decimal :
    (fuel n : ℕ) → n < ten_to fuel → 0 < fuel → parse_digits 0 (decimal fuel n) ≡ some n
unfolding decimal parse_digits
parse_digits-decimal zero n h p = absurd (omega arith)
parse_digits-decimal (suc zero) n h p = ground arith
parse_digits-decimal (suc (suc fuel)) n h p = elim (Bool-cases (ltb n 10)) [
  | inl one ↦ rw one (ground (arith, one))
  | inr more ↦ rw more (
      parse_digits-append 0 (n / 10) (n % 10) (decimal (suc fuel) (n / 10)) (omega arith)
        (parse_digits-decimal (suc fuel) (n / 10) (omega arith) (omega arith))
      ∙ ap some (omega arith))
]

-- Printing, and reading back.
pub parse_digits-to_string : (n : ℕ) → n < 10 * ten_to 19 → parse_digits 0 (to_string n) ≡ some n
unfolding to_string
parse_digits-to_string n h = parse_digits-decimal 20 n (omega arith) (omega arith)

-- Printing gives digits, and at least one.
abbrev pub AllDigits : Bytes → Type 0
AllDigits = All (λ c. is_digit c ≡ true)

decimal-AllDigits : (fuel n : ℕ) → AllDigits (decimal fuel n)
unfolding decimal
decimal-AllDigits zero n = tt
decimal-AllDigits (suc fuel) n =
    let digit : is_digit (48 + n % 10) ≡ true = ground arith in
    elim (Bool-cases (ltb n 10)) [
      | inl one ↦ rw one (digit, tt)
      | inr more ↦ rw more (
          All-append (λ c. is_digit c ≡ true) (decimal fuel (n / 10)) ((48 + n % 10) ∷ [])
            (decimal-AllDigits fuel (n / 10)) (digit, tt))
    ]

pub to_string-AllDigits : (n : ℕ) → AllDigits (to_string n)
unfolding to_string
to_string-AllDigits n = decimal-AllDigits 20 n

is_empty-append : (cs : Bytes) (c : ℕ) → is_empty (cs ++ c ∷ []) ≡ false
is_empty-append [] c = refl
is_empty-append (d ∷ cs) c = refl

decimal-nonempty : (fuel n : ℕ) → is_empty (decimal (suc fuel) n) ≡ false
unfolding decimal
decimal-nonempty fuel n = ground (arith, is_empty-append (decimal fuel (n / 10)) (48 + n % 10))

pub to_string-nonempty : (n : ℕ) → is_empty (to_string n) ≡ false
unfolding to_string
to_string-nonempty n = decimal-nonempty 19 n
