-- ===== src/Bench/Matrix/Tokens.antt =====
-- How the reader takes the tokens of a document that is written out, and what its loops make of the items.
use distributed_cache.Prelude.{
  ℕ, zero, suc, Bytes, nat_eqb, ◌≡◌, refl, ◌∙◌, Bool, true, false, not, Option, none, some, [], ◌∷◌,
  ◌++◌, length, All, arith,
}
use distributed_cache.Bench.Json.{is_space, skip_whitespace, consume_at, consume}
use distributed_cache.Bench.Json.Escaping.{parse_string-json_escape_string}
use distributed_cache.Bench.Reader.{is_number_mark, read_items, read_first, parse_key}
use distributed_cache.Bench.Matrix.Documents.{
  Value, Values, Members, is_number_char, print_text, ◌+>◌,
}

abbrev pub IsBlank : Bytes → Type 0
IsBlank = All (λ ch. is_space ch ≡ true)

pub skip_whitespace-IsBlank :
    (gap rest : Bytes) → IsBlank gap → skip_whitespace (gap ++ rest) ≡ skip_whitespace rest
unfolding skip_whitespace
skip_whitespace-IsBlank [] rest b = refl
skip_whitespace-IsBlank (ch ∷ gap) rest b =
    rw (skip_whitespace, b.0) (skip_whitespace-IsBlank gap rest b.1)

-- At a character that is no whitespace.
pub skip_whitespace_here :
    (gap : Bytes) (ch : ℕ) (rest : Bytes)
    → IsBlank gap
    → is_space ch ≡ false
    → skip_whitespace (gap ++ ch ∷ rest) ≡ ch ∷ rest
unfolding skip_whitespace
skip_whitespace_here gap ch rest b e =
    skip_whitespace-IsBlank gap (ch ∷ rest) b ∙ (rw (skip_whitespace, e) refl)

pub consume_here :
    (gap : Bytes) (ch : ℕ) (rest : Bytes)
    → IsBlank gap
    → is_space ch ≡ false
    → consume ch (gap ++ ch ∷ rest) ≡ (true, rest)
unfolding consume consume_at
consume_here gap ch rest b e = rw (consume, skip_whitespace_here gap ch rest b e) (ground arith)

pub consume_other :
    (gap : Bytes) (expected ch : ℕ) (rest : Bytes)
    → IsBlank gap
    → is_space ch ≡ false
    → nat_eqb ch expected ≡ false
    → consume expected (gap ++ ch ∷ rest) ≡ (false, ch ∷ rest)
unfolding consume consume_at
consume_other gap expected ch rest b e o =
    rw (consume, skip_whitespace_here gap ch rest b e) (ground (arith, o))

-- What is read, with what is left.
unfoldable pub leaving {ℓ} : {A : Type ℓ} → Bytes → Option A → Option (A × Bytes)
leaving rest none = none
leaving rest (some a) = some (a, rest)

module _ {ℓ} {S : Type ℓ} (gap : Bytes → Bytes) (blank : (r : Bytes) → IsBlank (gap r)) (close : ℕ)
    (item : S → Bytes → Option (S × Bytes)) where
  pub read_items_refused :
      (fuel : ℕ) (s : S) (input : Bytes)
      → item s input ≡ none
      → read_items close item fuel s input ≡ none
  unfolding read_items
  read_items_refused zero s input e = refl
  read_items_refused (suc fuel) s input e = rw (read_items, e) refl

  pub read_items_last :
      (fuel : ℕ) (s s' : S) (input rest : Bytes)
      → is_space close ≡ false
      → item s input ≡ some (s', gap +> close ∷ rest)
      → read_items close item (suc fuel) s input ≡ some (s', rest)
  unfolding read_items
  read_items_last fuel s s' input rest c e =
      let closed = consume_here (gap (close ∷ rest)) close rest (blank (close ∷ rest)) c in
      rw (read_items, e) (rw (closed, closed) refl)

  pub read_items_next :
      (fuel : ℕ) (s s' : S) (input rest : Bytes)
      → nat_eqb 44 close ≡ false
      → item s input ≡ some (s', gap +> 44 ∷ rest)
      → read_items close item (suc fuel) s input ≡ read_items close item fuel s' rest
  unfolding read_items is_space
  read_items_next fuel s s' input rest c e =
      let comma = consume_other (gap (44 ∷ rest)) close 44 rest (blank (44 ∷ rest)) refl c in
      rw (read_items, e) (rw (comma, comma, comma) refl)

-- What the items do to the state, one after the other.
module _ {ℓ} {S : Type ℓ} (step : S → Value → Option S) where
  unfoldable pub fold_values : S → Values → Option S
  fold_values s Values.no_value = some s
  fold_values s (Values.value v vs) = elim (step s v) [ none ↦ none | some s' ↦ fold_values s' vs ]

module _ {ℓ} {S : Type ℓ} (step : Bytes → S → Value → Option S) where
  unfoldable pub fold_members : S → Members → Option S
  fold_members s Members.no_member = some s
  fold_members s (Members.member key v ms) = elim (step key s v) [
    | none ↦ none
    | some s' ↦ fold_members s' ms
  ]

-- After a value, there is no more of a number.
abbrev pub stops : Bytes → Bool
stops [] = true
stops (ch ∷ rest) = not (is_number_char ch)

stops_after :
    (gap : Bytes) (ch : ℕ) (rest : Bytes)
    → IsBlank gap
    → is_number_char ch ≡ false
    → stops (gap ++ ch ∷ rest) ≡ true
unfolding is_space is_number_mark
stops_after [] ch rest b e = rw e refl
stops_after (c ∷ gap) ch rest b e = ground (arith, b.0)

pub stops_at :
    (gap : Bytes → Bytes) (ch : ℕ) (rest : Bytes)
    → IsBlank (gap (ch ∷ rest))
    → is_number_char ch ≡ false
    → stops (gap +> ch ∷ rest) ≡ true
stops_at gap ch rest b e = stops_after (gap (ch ∷ rest)) ch rest b e

-- Until the first item is read.
module _ {ℓ} {S : Type ℓ} (gap : Bytes → Bytes) (blank : (r : Bytes) → IsBlank (gap r)) (close : ℕ)
    (item : S → Bytes → Option (S × Bytes)) where
  pub read_first_closed :
      (s : S) (rest : Bytes)
      → is_space close ≡ false
      → read_first close item s (gap +> close ∷ rest) ≡ some (s, rest)
  unfolding read_first
  read_first_closed s rest c =
      let closed = consume_here (gap (close ∷ rest)) close rest (blank (close ∷ rest)) c in
      rw (read_first, closed, closed) refl

  pub read_first_open :
      (s : S) (first : ℕ) (others : Bytes)
      → is_space first ≡ false
      → nat_eqb first close ≡ false
      → read_first close item s (gap +> first ∷ others)
        ≡ read_items close item (suc (suc (length others))) s (first ∷ others)
  unfolding read_first
  read_first_open s first others c o =
      let more =
        consume_other (gap (first ∷ others)) close first others (blank (first ∷ others)) c o in
      rw (read_first, more, more) refl

pub parse_key-print_text :
    (gap : Bytes → Bytes) (spaces key rest : Bytes)
    → ((r : Bytes) → IsBlank (gap r))
    → IsBlank spaces
    → parse_key (spaces ++ print_text key (gap +> 58 ∷ rest)) ≡ some (key, rest)
unfolding parse_key print_text is_space
parse_key-print_text gap spaces key rest b c =
    let colon = consume_here (gap (58 ∷ rest)) 58 rest (b (58 ∷ rest)) refl in
    rw (parse_key, parse_string-json_escape_string spaces key (gap +> 58 ∷ rest) c) (rw colon refl)
