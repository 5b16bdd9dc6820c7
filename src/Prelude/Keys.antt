-- ===== src/Prelude/Keys.antt =====
-- Decidable equality as an interface, and byte strings: the program's `std::string`.
use Prim.Native.Nat.{ℕ}
use Prim.Native.Char.{code}
use Prim.Native.String.{String}
use mathlib.Core.Path.{◌≡◌, refl}
use mathlib.Core.Logic.{◌↔◌}
use mathlib.Core.Bool.{Bool, true, false, ◌&&◌}
use mathlib.Core.List.{List, [], ◌∷◌}
use native.Mathlib.Omega.{arith}
use distributed_cache.Prelude.Tests.{nat_eqb, nat_eqb_iff, ltb, if◌then◌else◌}

-- Keys that a map can compare.
pub record Key {ℓ} (K : Type ℓ) : Type ℓ where
  pub same : K → K → Bool
  pub same_iff : (j k : K) → (same j k ≡ true) ↔ (j ≡ k)

instance abbrev pub nat_key : Key ℕ
nat_key = record { same_iff = nat_eqb_iff; same = nat_eqb }

-- A string is the list of its bytes.
abbrev pub Bytes : Type 0
Bytes = List ℕ

-- `std::string::empty`
abbrev pub is_empty : Bytes → Bool
is_empty [] = true
is_empty (c ∷ cs) = false

pub is_empty→eq : (b : Bytes) → is_empty b ≡ true → b ≡ []
is_empty→eq [] h = refl
is_empty→eq (c ∷ cs) h = cc

-- The bytes of an ASCII text.
abbrev pub codes : String → Bytes
codes String.[] = []
codes (String.◌∷◌ c s) = code c ∷ codes s

abbrev pub bytes_eqb : Bytes → Bytes → Bool
bytes_eqb [] [] = true
bytes_eqb [] (b ∷ bs) = false
bytes_eqb (a ∷ as_) [] = false
bytes_eqb (a ∷ as_) (b ∷ bs) = nat_eqb a b && bytes_eqb as_ bs

pub bytes_eqb_iff : (a b : Bytes) → (bytes_eqb a b ≡ true) ↔ (a ≡ b)
bytes_eqb_iff [] [] = ground arith
bytes_eqb_iff [] (b ∷ bs) = ground arith
bytes_eqb_iff (a ∷ as_) [] = ground arith
bytes_eqb_iff (a ∷ as_) (b ∷ bs) = ground (arith, bytes_eqb_iff as_ bs)

instance abbrev pub bytes_key : Key Bytes
bytes_key = record { same_iff = bytes_eqb_iff; same = bytes_eqb }

-- `std::string::operator<`: byte by byte, a proper prefix first.
unfoldable pub bytes_ltb : Bytes → Bytes → Bool
bytes_ltb [] [] = false
bytes_ltb [] (b ∷ bs) = true
bytes_ltb (a ∷ as_) [] = false
bytes_ltb (a ∷ as_) (b ∷ bs) =
    let rest = bytes_ltb as_ bs in if ltb a b then true else if ltb b a then false else rest

pub bytes_ltb_irrefl : (a : Bytes) → bytes_ltb a a ≡ false
unfolding bytes_ltb
bytes_ltb_irrefl [] = refl
bytes_ltb_irrefl (a ∷ as_) = ground (arith, bytes_ltb_irrefl as_)

-- Not being smaller is transitive.
pub bytes_ltb_trans :
    (a b c : Bytes) → bytes_ltb b a ≡ false → bytes_ltb c b ≡ false → bytes_ltb c a ≡ false
unfolding bytes_ltb
bytes_ltb_trans [] [] c h k = k
bytes_ltb_trans [] (b ∷ bs) [] h k = refl
bytes_ltb_trans [] (b ∷ bs) (c ∷ cs) h k = refl
bytes_ltb_trans (a ∷ as_) [] c h k = cc
bytes_ltb_trans (a ∷ as_) (b ∷ bs) [] h k = cc
bytes_ltb_trans (a ∷ as_) (b ∷ bs) (c ∷ cs) h k = ground (arith, bytes_ltb_trans as_ bs cs)

pub bytes_ltb_total : (a b : Bytes) → bytes_ltb a b ≡ false → bytes_ltb b a ≡ false → a ≡ b
unfolding bytes_ltb
bytes_ltb_total [] [] h k = refl
bytes_ltb_total [] (b ∷ bs) h k = ground arith
bytes_ltb_total (a ∷ as_) [] h k = ground arith
bytes_ltb_total (a ∷ as_) (b ∷ bs) h k = ground (arith, bytes_ltb_total as_ bs)

pub bytes_ltb_asymm : (a b : Bytes) → bytes_ltb a b ≡ true → bytes_ltb b a ≡ false
unfolding bytes_ltb
bytes_ltb_asymm [] [] h = refl
bytes_ltb_asymm [] (b ∷ bs) h = refl
bytes_ltb_asymm (a ∷ as_) [] h = cc
bytes_ltb_asymm (a ∷ as_) (b ∷ bs) h = ground (arith, bytes_ltb_asymm as_ bs)
