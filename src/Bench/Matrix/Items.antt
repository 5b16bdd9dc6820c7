-- ===== src/Bench/Matrix/Items.antt =====
-- What the reader's loops make of the values of an array, and of the members of an object.
use distributed_cache.Prelude.{
  ℕ, zero, suc, ◌<◌, ◌≤◌, Bytes, ◌≡◌, refl, ap, ◌∙◌, true, Option, none, some, [], ◌∷◌, ◌++◌,
  length, arith,
}
use distributed_cache.Bench.Json.{is_space}
use distributed_cache.Bench.Reader.{is_number_mark, read_items, read_first}
use distributed_cache.Bench.Matrix.Documents.{
  ◌+>◌, Value, Values, Members, value, no_value, member, no_member, size, values_size, members_size,
  IsJson, AreJson, HaveJson, print_text, print_value, print_values, print_members,
}
use distributed_cache.Bench.Matrix.Shapes.{
  value-Start, value_length, member_length, values_length, members_length,
}
use distributed_cache.Bench.Matrix.Tokens.{
  IsBlank, leaving, read_items_refused, read_items_last, read_items_next, read_first_open,
  fold_values, fold_members, stops, stops_at,
}

-- An item that is refused, or read.
one_item {ℓ} :
    {S : Type ℓ} (gap : Bytes → Bytes) (blank : (r : Bytes) → IsBlank (gap r)) (close : ℕ)
    (item : S → Bytes → Option (S × Bytes)) (fuel : ℕ) (s : S) (input after rest : Bytes)
    (o : Option S) (more : S → Option S)
    → item s input ≡ leaving after o
    → ((s' : S)
        → item s input ≡ some (s', after)
        → read_items close item fuel s input ≡ leaving rest (more s'))
    → read_items close item fuel s input ≡ leaving rest (elim o [ none ↦ none | some s' ↦ more s' ])
unfolding leaving
one_item gap blank close item fuel s input after rest none more e h =
    read_items_refused gap blank close item fuel s input e
one_item gap blank close item fuel s input after rest (some s') more e h = h s' e

module _ (gap : Bytes → Bytes) (blank : (r : Bytes) → IsBlank (gap r)) where
  -- After a value in a list.
  pub values_stop : (vs : Values) (rest : Bytes) → stops (print_values gap vs rest) ≡ true
  unfolding print_values is_number_mark
  values_stop no_value rest = stops_at gap 93 rest (blank (93 ∷ rest)) refl
  values_stop (value v vs) rest =
      stops_at gap 44 (gap +> print_value gap v (print_values gap vs rest))
        (blank (44 ∷ (gap +> print_value gap v (print_values gap vs rest)))) refl

  -- A member, from its key on.
  abbrev pub print_member : Bytes → Value → Bytes → Bytes
  print_member key v rest = print_text key (gap +> 58 ∷ (gap +> print_value gap v rest))

  pub members_stop : (ms : Members) (rest : Bytes) → stops (print_members gap ms rest) ≡ true
  unfolding print_members is_number_mark
  members_stop no_member rest = stops_at gap 125 rest (blank (125 ∷ rest)) refl
  members_stop (member key v ms) rest =
      stops_at gap 44 (gap +> print_member key v (print_members gap ms rest))
        (blank (44 ∷ (gap +> print_member key v (print_members gap ms rest)))) refl

  module _ {ℓ} {S : Type ℓ} (item : S → Bytes → Option (S × Bytes)) (step : S → Value → Option S)
      (n : ℕ)
      (reads : (s : S) (v : Value) (spaces rest : Bytes)
        → size v < n
        → IsJson v
        → IsBlank spaces
        → stops rest ≡ true
        → item s (spaces ++ print_value gap v rest) ≡ leaving rest (step s v)) where
    pub read_items-values :
        (fuel : ℕ) (s : S) (v : Value) (vs : Values) (spaces rest : Bytes)
        → IsBlank spaces
        → values_size vs ≤ fuel
        → values_size (value v vs) ≤ n
        → AreJson (value v vs)
        → read_items 93 item (suc fuel) s (spaces ++ print_value gap v (print_values gap vs rest))
          ≡ leaving rest (fold_values step s (value v vs))
    unfolding values_size AreJson fold_values is_space print_values leaving
    read_items-values fuel s v no_value spaces rest b f l j =
        let input = spaces ++ print_value gap v (print_values gap no_value rest) in
        one_item gap blank 93 item (suc fuel) s input (print_values gap no_value rest) rest
          (step s v) some
          (reads s v spaces (print_values gap no_value rest) (omega arith) j.0 b
            (values_stop no_value rest))
          (λ s' next. read_items_last gap blank 93 item fuel s s' input rest refl next)
    read_items-values zero s v (value w vs) spaces rest b f l j = absurd (omega arith)
    read_items-values (suc fuel) s v (value w vs) spaces rest b f l j =
        let after = print_values gap (value w vs) rest in
        let input = spaces ++ print_value gap v after in
        one_item gap blank 93 item (suc (suc fuel)) s input after rest (step s v)
          (λ s'. fold_values step s' (value w vs))
          (reads s v spaces after (omega arith) j.0 b (values_stop (value w vs) rest))
          (λ s' next.
            read_items_next gap blank 93 item (suc fuel) s s' input
              (gap +> print_value gap w (print_values gap vs rest)) refl next
            ∙ read_items-values fuel s' w vs (gap (print_value gap w (print_values gap vs rest)))
                rest (blank (print_value gap w (print_values gap vs rest))) (omega arith)
                (omega arith) j.1)

    -- A whole array, after its opening bracket.
    pub read_first-values :
        (s : S) (v : Value) (vs : Values) (rest : Bytes)
        → values_size (value v vs) ≤ n
        → AreJson (value v vs)
        → read_first 93 item s (gap +> print_value gap v (print_values gap vs rest))
          ≡ leaving rest (fold_values step s (value v vs))
    read_first-values s v vs rest l j =
        let after = print_values gap vs rest in
        let start = value-Start gap v after in
        let enough : values_size vs ≤ suc (length start.others) =
          omega
            (arith, values_length gap vs rest, value_length gap v after, ap length start.same) in
        let read = read_items-values (suc (length start.others)) s v vs [] rest tt enough l j in
        let opened =
          read_first_open gap blank 93 item s start.first start.others start.no_space
            start.no_bracket in
        rw start.same (opened ∙ (rw (← start.same) read))

  module _ {ℓ} {S : Type ℓ} (item : S → Bytes → Option (S × Bytes))
      (step : Bytes → S → Value → Option S) (n : ℕ)
      (reads : (key : Bytes) (s : S) (v : Value) (spaces rest : Bytes)
        → size v < n
        → IsJson v
        → IsBlank spaces
        → stops rest ≡ true
        → item s (spaces ++ print_member key v rest) ≡ leaving rest (step key s v)) where
    pub read_items-members :
        (fuel : ℕ) (s : S) (key : Bytes) (v : Value) (ms : Members) (spaces rest : Bytes)
        → IsBlank spaces
        → members_size ms ≤ fuel
        → members_size (member key v ms) ≤ n
        → HaveJson (member key v ms)
        → read_items 125 item
            (suc fuel)
            s
            (spaces ++ print_member key v (print_members gap ms rest))
          ≡ leaving rest (fold_members step s (member key v ms))
    unfolding members_size HaveJson fold_members is_space print_members leaving
    read_items-members fuel s key v no_member spaces rest b f l j =
        let input = spaces ++ print_member key v (print_members gap no_member rest) in
        one_item gap blank 125 item (suc fuel) s input (print_members gap no_member rest) rest
          (step key s v) some
          (reads key s v spaces (print_members gap no_member rest) (omega arith) j.0 b
            (members_stop no_member rest))
          (λ s' next. read_items_last gap blank 125 item fuel s s' input rest refl next)
    read_items-members zero s key v (member k w ms) spaces rest b f l j = absurd (omega arith)
    read_items-members (suc fuel) s key v (member k w ms) spaces rest b f l j =
        let after = print_members gap (member k w ms) rest in
        let input = spaces ++ print_member key v after in
        one_item gap blank 125 item (suc (suc fuel)) s input after rest (step key s v)
          (λ s'. fold_members step s' (member k w ms))
          (reads key s v spaces after (omega arith) j.0 b (members_stop (member k w ms) rest))
          (λ s' next.
            read_items_next gap blank 125 item (suc fuel) s s' input
              (gap +> print_member k w (print_members gap ms rest)) refl next
            ∙ read_items-members fuel s' k w ms (gap (print_member k w (print_members gap ms rest)))
                rest (blank (print_member k w (print_members gap ms rest))) (omega arith)
                (omega arith) j.1)

    -- With as much fuel as there are bytes.
    pub read_items-all_members :
        (s : S) (key : Bytes) (v : Value) (ms : Members) (rest : Bytes)
        → members_size (member key v ms) ≤ n
        → HaveJson (member key v ms)
        → read_items 125 item
            (suc (length (print_member key v (print_members gap ms rest))))
            s
            (print_member key v (print_members gap ms rest))
          ≡ leaving rest (fold_members step s (member key v ms))
    read_items-all_members s key v ms rest l j =
        let after = print_members gap ms rest in
        read_items-members (length (print_member key v after)) s key v ms [] rest tt
          (omega (
            arith,
            members_length gap ms rest,
            member_length gap key v after,
            value_length gap v after,
          ))
          l j

    pub read_first-members :
        (s : S) (key : Bytes) (v : Value) (ms : Members) (rest : Bytes)
        → members_size (member key v ms) ≤ n
        → HaveJson (member key v ms)
        → read_first 125 item s (gap +> print_member key v (print_members gap ms rest))
          ≡ leaving rest (fold_members step s (member key v ms))
    unfolding print_text is_space
    read_first-members s key v ms rest l j =
        read_first_open gap blank 125 item s 34 _ refl refl
        ∙ read_items-all_members s key v ms rest l j
