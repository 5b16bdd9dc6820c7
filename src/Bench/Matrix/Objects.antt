-- ===== src/Bench/Matrix/Objects.antt =====
-- What the reader makes of an object that is written out, member by member.
use distributed_cache.Prelude.{
  Bytes, ◌≡◌, refl, ap, ◌∙◌, true, false, Option, none, ◌∷◌, ◌++◌, arith,
}
use distributed_cache.Bench.Json.{is_space, consume}
use distributed_cache.Bench.Matrix.{read_members}
use distributed_cache.Bench.Matrix.Documents.{
  ◌+>◌, Value, null, boolean, number, text, array, object, Members, no_member, member, members_size,
  IsJson, HaveJson, print_text, print_value, print_members,
}
use distributed_cache.Bench.Matrix.Tokens.{
  IsBlank, leaving, fold_members, stops, consume_here, consume_other,
}
use distributed_cache.Bench.Matrix.Items.{print_member, read_items-all_members}
use distributed_cache.Bench.Matrix.Values.{is_object, consume_open, no_object}

-- The fold over an object, where it has a member.
unfoldable pub fold_object {ℓ} :
    {S : Type ℓ} → (Bytes → S → Value → Option S) → S → Value → Option S
unfolding fold_members
fold_object step s (object (member key v ms)) = fold_members step s (member key v ms)
fold_object step s _ = none

module _ (gap : Bytes → Bytes) (blank : (r : Bytes) → IsBlank (gap r)) where
  -- An object is read member by member; what is none, and an object without members, is refused.
  module _ {ℓ} {S : Type ℓ} (item : S → Bytes → Option (S × Bytes))
      (step : Bytes → S → Value → Option S)
      (reads : (key : Bytes) (s : S) (v : Value) (spaces rest : Bytes)
        → IsJson v
        → IsBlank spaces
        → stops rest ≡ true
        → item s (spaces ++ print_member gap blank key v rest) ≡ leaving rest (step key s v)) where
    empty_members :
        (s : S) (spaces rest : Bytes)
        → IsBlank spaces
        → read_members item s (spaces ++ print_value gap (object no_member) rest) ≡ none
    unfolding read_members print_value is_space
    empty_members s spaces rest b =
        let opened = consume_here spaces 123 (gap +> 125 ∷ rest) b refl in
        let closed = consume_here (gap (125 ∷ rest)) 125 rest (blank (125 ∷ rest)) refl in
        rw (read_members, opened, opened, closed) refl

    some_members :
        (s : S) (key : Bytes) (v : Value) (ms : Members) (spaces rest : Bytes)
        → HaveJson (member key v ms)
        → IsBlank spaces
        → read_members item s (spaces ++ print_value gap (object (member key v ms)) rest)
          ≡ leaving rest (fold_members step s (member key v ms))
    unfolding read_members print_value print_text is_space
    some_members s key v ms spaces rest j b =
        let written = print_member gap blank key v (print_members gap ms rest) in
        let opened = consume_here spaces 123 (gap +> written) b refl in
        let more : consume 125 (gap +> written) ≡ (false, written) =
          consume_other (gap written) 125 34 _ (blank written) refl refl in
        rw (read_members, opened, opened, more, opened, more)
          (read_items-all_members gap blank item step (members_size (member key v ms))
            (λ k t w spaces r a c d e. reads k t w spaces r c d e) s key v ms rest (omega arith) j)

    other_value :
        (s : S) (v : Value) (spaces rest : Bytes)
        → IsBlank spaces
        → is_object v ≡ false
        → read_members item s (spaces ++ print_value gap v rest) ≡ none
    unfolding read_members
    other_value s v spaces rest b e =
        let closed : (consume 123 (spaces ++ print_value gap v rest)).0 ≡ false =
          ap (λ r. r.0) (consume_open gap blank 123 v spaces rest b)
          ∙ no_object gap blank v rest e in
        rw (read_members, closed) refl

    pub read_members-print_value :
        (s : S) (v : Value) (spaces rest : Bytes)
        → IsJson v
        → IsBlank spaces
        → read_members item s (spaces ++ print_value gap v rest)
          ≡ leaving rest (fold_object step s v)
    unfolding IsJson fold_object leaving
    read_members-print_value s (object no_member) spaces rest j b = empty_members s spaces rest b
    read_members-print_value s (object (member key v ms)) spaces rest j b =
        some_members s key v ms spaces rest j b
    read_members-print_value s null spaces rest j b = other_value s null spaces rest b refl
    read_members-print_value s (boolean c) spaces rest j b =
        other_value s (boolean c) spaces rest b refl
    read_members-print_value s (number negative whole more) spaces rest j b =
        other_value s (number negative whole more) spaces rest b refl
    read_members-print_value s (text t) spaces rest j b = other_value s (text t) spaces rest b refl
    read_members-print_value s (array vs) spaces rest j b =
        other_value s (array vs) spaces rest b refl
