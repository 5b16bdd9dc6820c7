-- ===== src/Bench/Matrix/Scenarios.antt =====
-- What `ParseScenarioObject` makes of a document that is written out.
use distributed_cache.Prelude.{
  ℕ, Bytes, bytes_eqb, bytes_eqb_iff, codes, ◌≡◌, refl, sym, ap, ◌∙◌, true, false, Option, none,
  some, ◌++◌, Bool-cases, Option-cases, inl, inr, if◌then◌else◌,
}
use distributed_cache.Bench.Matrix.{
  Fields, read_name, read_requests, skip_field, read_field, scenario_member, end_scenario,
  new_fields, parse_scenario_object,
}
use distributed_cache.Bench.Matrix.Documents.{
  ◌+>◌, Value, null, boolean, number, text, array, object, Members, no_member, member, IsJson,
  print_value, as_text, as_unsigned, earlier, last_named, scenario_from, scenario_of,
}
use distributed_cache.Bench.Matrix.Tokens.{
  IsBlank, leaving, fold_members, stops, parse_key-print_text,
}
use distributed_cache.Bench.Matrix.Items.{print_member}
use distributed_cache.Bench.Matrix.Skipping.{skip_value-print_value}
use distributed_cache.Bench.Matrix.Values.{parse_string-print_value, parse_unsigned-print_value}
use distributed_cache.Bench.Matrix.Objects.{fold_object, read_members-print_value}

unfoldable with_name : Fields → Option Bytes → Option Fields
with_name f none = none
with_name f (some name) = some (record f { found_name = true; name = name })

unfoldable with_requests : Fields → Option ℕ → Option Fields
with_requests f none = none
with_requests f (some requests) = some (record f { requests = requests })

-- The fields after a member.
unfoldable field_of : Bytes → Fields → Value → Option Fields
unfolding with_name with_requests
field_of key f v =
    if bytes_eqb key (codes "name")
    then with_name f (as_text v)
    else if bytes_eqb key (codes "requests")
    then with_requests f (as_unsigned v)
    else some f

module _ (gap : Bytes → Bytes) (blank : (r : Bytes) → IsBlank (gap r)) where
  read_name-print_value :
      (f : Fields) (v : Value) (spaces rest : Bytes)
      → IsBlank spaces
      → read_name f (spaces ++ print_value gap v rest) ≡ leaving rest (with_name f (as_text v))
  unfolding read_name with_name leaving
  read_name-print_value f v spaces rest b =
      let read = parse_string-print_value gap blank v spaces rest b in
      elim (Option-cases (as_text v)) [
        | inl out ↦ rw (read_name, read ∙ ap (leaving rest) out, out) refl
        | inr (t, found) ↦ rw (read_name, read ∙ ap (leaving rest) found, found) refl
      ]

  read_requests-print_value :
      (f : Fields) (v : Value) (spaces rest : Bytes)
      → IsJson v
      → IsBlank spaces
      → stops rest ≡ true
      → read_requests f (spaces ++ print_value gap v rest)
        ≡ leaving rest (with_requests f (as_unsigned v))
  unfolding read_requests with_requests leaving
  read_requests-print_value f v spaces rest j b s =
      let read = parse_unsigned-print_value gap blank v spaces rest j b s in
      elim (Option-cases (as_unsigned v)) [
        | inl out ↦ rw (read_requests, read ∙ ap (leaving rest) out, out) refl
        | inr (n, found) ↦ rw (read_requests, read ∙ ap (leaving rest) found, found) refl
      ]

  read_field-print_value :
      (key : Bytes) (f : Fields) (v : Value) (spaces rest : Bytes)
      → IsJson v
      → IsBlank spaces
      → stops rest ≡ true
      → read_field key f (spaces ++ print_value gap v rest) ≡ leaving rest (field_of key f v)
  unfolding read_field skip_field field_of leaving
  read_field-print_value key f v spaces rest j b s =
      elim (Bool-cases (bytes_eqb key (codes "name"))) [
        | inl name ↦ rw (read_field, field_of, name) (read_name-print_value f v spaces rest b)
        | inr other ↦ elim (Bool-cases (bytes_eqb key (codes "requests"))) [
          | inl requests ↦
              rw (read_field, field_of, other, requests)
                (read_requests-print_value f v spaces rest j b s)
          | inr unknown ↦
              rw (read_field, field_of, other, unknown)
                (rw (skip_field, skip_value-print_value gap blank v spaces rest j b s) refl)
        ]
      ]

  scenario_member-print :
      (key : Bytes) (f : Fields) (v : Value) (spaces rest : Bytes)
      → IsJson v
      → IsBlank spaces
      → stops rest ≡ true
      → scenario_member f (spaces ++ print_member gap blank key v rest)
        ≡ leaving rest (field_of key f v)
  unfolding scenario_member
  scenario_member-print key f v spaces rest j b s =
      rw
        (
          scenario_member,
          parse_key-print_text gap spaces key (gap +> print_value gap v rest) blank b,
        )
        (read_field-print_value key f v (gap (print_value gap v rest)) rest j
          (blank (print_value gap v rest)) s)

-- The fields after the members are the last name and the last number of requests.
unfoldable with_last : Fields → Option (Option Bytes) → Option (Option ℕ) → Option Fields
with_last f none requests = none
with_last f (some name) none = none
with_last f (some name) (some requests) = some (record {
  found_name = elim name [ none ↦ f.found_name | some n ↦ true ];
  name = elim name [ none ↦ f.name | some n ↦ n ];
  requests = elim requests [ none ↦ f.requests | some n ↦ n ];
})

last_name :
    (f : Fields) (t : Bytes) (names : Option (Option Bytes)) (requests : Option (Option ℕ))
    → with_last (record f { found_name = true; name = t }) names requests
      ≡ with_last f (earlier (some t) names) requests
unfolding with_last earlier
last_name f t none requests = refl
last_name f t (some none) none = refl
last_name f t (some (some b)) none = refl
last_name f t (some none) (some requests) = refl
last_name f t (some (some b)) (some requests) = refl

last_requests :
    (f : Fields) (n : ℕ) (names : Option (Option Bytes)) (requests : Option (Option ℕ))
    → with_last (record f { requests = n }) names requests
      ≡ with_last f names (earlier (some n) requests)
unfolding with_last earlier
last_requests f n none requests = refl
last_requests f n (some name) none = refl
last_requests f n (some name) (some none) = refl
last_requests f n (some name) (some (some b)) = refl

no_requests : (f : Fields) (names : Option (Option Bytes)) → with_last f names none ≡ none
unfolding with_last
no_requests f none = refl
no_requests f (some name) = refl

two_keys :
    (key : Bytes) → bytes_eqb key (codes "name") ≡ true → bytes_eqb key (codes "requests") ≡ false
two_keys key e = rw ((bytes_eqb_iff key (codes "name")).0 e) refl

-- A member under one of the keys, where the members after it are read.
module _ (more : Fields → Option Fields) (names : Option (Option Bytes))
    (requests : Option (Option ℕ)) (ih : (f : Fields) → more f ≡ with_last f names requests) where
  named :
      (f : Fields) (o : Option Bytes)
      → elim (with_name f o) as (λ r. Option Fields) [ none ↦ none | some s ↦ more s ]
        ≡ with_last f (earlier o names) requests
  unfolding with_name with_last earlier
  named f none = refl
  named f (some t) = ih (record f { found_name = true; name = t }) ∙ last_name f t names requests

  numbered :
      (f : Fields) (o : Option ℕ)
      → elim (with_requests f o) as (λ r. Option Fields) [ none ↦ none | some s ↦ more s ]
        ≡ with_last f names (earlier o requests)
  unfolding with_requests earlier
  numbered f none = sym (no_requests f names)
  numbered f (some n) = ih (record f { requests = n }) ∙ last_requests f n names requests

fold_fields :
    (ms : Members) (f : Fields)
    → fold_members field_of f ms
      ≡ with_last f
          (last_named as_text (codes "name") ms)
          (last_named as_unsigned (codes "requests") ms)
unfolding fold_members field_of last_named with_last
fold_fields no_member f = refl
fold_fields (member key v ms) f =
    let names = last_named as_text (codes "name") ms in
    let requests = last_named as_unsigned (codes "requests") ms in
    let more : Fields → Option Fields = λ g. fold_members field_of g ms in
    let ih : (g : Fields) → more g ≡ with_last g names requests = λ g. fold_fields ms g in
    elim (Bool-cases (bytes_eqb key (codes "name"))) [
      | inl name ↦
          rw (fold_members, last_named, field_of, name, two_keys key name)
            (named more names requests ih f (as_text v))
      | inr unnamed ↦ elim (Bool-cases (bytes_eqb key (codes "requests"))) [
        | inl asked ↦
            rw (fold_members, last_named, field_of, unnamed, asked)
              (numbered more names requests ih f (as_unsigned v))
        | inr unknown ↦ rw (fold_members, last_named, field_of, unnamed, unknown) (ih f)
      ]
    ]

-- A whole scenario.
end_scenario-with_last :
    (d : ℕ) (names : Option (Option Bytes)) (requests : Option (Option ℕ)) (rest : Bytes)
    → end_scenario (leaving rest (with_last (new_fields d) names requests))
      ≡ leaving rest (scenario_from d names requests)
unfolding end_scenario leaving with_last new_fields scenario_from
end_scenario-with_last d none requests rest = refl
end_scenario-with_last d (some none) none rest = refl
end_scenario-with_last d (some (some name)) none rest = refl
end_scenario-with_last d (some none) (some requests) rest = refl
end_scenario-with_last d (some (some name)) (some none) rest = refl
end_scenario-with_last d (some (some name)) (some (some requests)) rest = refl

end_scenario-fold_object :
    (d : ℕ) (v : Value) (rest : Bytes)
    → end_scenario (leaving rest (fold_object field_of (new_fields d) v))
      ≡ leaving rest (scenario_of d v)
unfolding end_scenario leaving fold_object scenario_of
end_scenario-fold_object d (object no_member) rest = refl
end_scenario-fold_object d (object (member key v ms)) rest =
    let all = member key v ms in
    ap (λ r. end_scenario (leaving rest r)) (fold_fields all (new_fields d))
    ∙ end_scenario-with_last d (last_named as_text (codes "name") all)
        (last_named as_unsigned (codes "requests") all) rest
end_scenario-fold_object d null rest = refl
end_scenario-fold_object d (boolean c) rest = refl
end_scenario-fold_object d (number negative whole more) rest = refl
end_scenario-fold_object d (text t) rest = refl
end_scenario-fold_object d (array vs) rest = refl

pub parse_scenario_object-print_value :
    (gap : Bytes → Bytes) (blank : (r : Bytes) → IsBlank (gap r)) (d : ℕ) (v : Value)
    (spaces rest : Bytes)
    → IsJson v
    → IsBlank spaces
    → parse_scenario_object d (spaces ++ print_value gap v rest) ≡ leaving rest (scenario_of d v)
unfolding parse_scenario_object
parse_scenario_object-print_value gap blank d v spaces rest j b =
    ap end_scenario (
      read_members-print_value gap blank scenario_member field_of (scenario_member-print gap blank)
        (new_fields d) v spaces rest j b)
    ∙ end_scenario-fold_object d v rest
