-- ===== src/Server/Session/Sending.antt =====
-- src/server/main.cpp: `SendAll`. The socket is the list of what `send` returns; `wire` is what it took.
use distributed_cache.Prelude.{
  ℕ, ◌+◌, ◌≤◌, Bytes, ◌≡◌, refl, sym, ap, ◌∙◌, Bool, true, false, Option, none, some, List, [], ◌∷◌,
  ◌++◌, append_assoc, length, take, drop, take-drop, length-drop, arith,
}

-- What `send` returns: how many bytes it took, that it was interrupted, or another error.
pub data SendResult : Type 0 where
  took : (count : ℕ) → SendResult
  interrupted_send : SendResult
  broken : SendResult

-- The answer of `SendAll`, if it has one by now, the payload that is left, and the wire.
pub record Sending : Type 0 where
  pub answer : Option Bool
  pub payload : Bytes
  pub wire : Bytes

unfoldable pub send_all : List SendResult → Bytes → Bytes → Sending
send_all rs [] wire = record { answer = some true; payload = []; wire = wire }
send_all [] (c ∷ cs) wire = record { answer = none; payload = c ∷ cs; wire = wire }
send_all (took count ∷ rs) (c ∷ cs) wire =
    send_all rs (drop count (c ∷ cs)) (wire ++ take count (c ∷ cs))
send_all (interrupted_send ∷ rs) (c ∷ cs) wire = send_all rs (c ∷ cs) wire
send_all (broken ∷ rs) (c ∷ cs) wire = record { answer = some false; payload = c ∷ cs; wire = wire }

-- The wire and what is left make up the payload.
send_all-wire :
    (rs : List SendResult) (payload wire : Bytes)
    → (send_all rs payload wire).wire ++ (send_all rs payload wire).payload ≡ wire ++ payload
unfolding send_all
send_all-wire rs [] wire = refl
send_all-wire [] (c ∷ cs) wire = refl
send_all-wire (took count ∷ rs) (c ∷ cs) wire =
    send_all-wire rs (drop count (c ∷ cs)) (wire ++ take count (c ∷ cs))
    ∙ append_assoc wire (take count (c ∷ cs)) (drop count (c ∷ cs))
    ∙ ap (λ l. wire ++ l) (take-drop count (c ∷ cs))
send_all-wire (interrupted_send ∷ rs) (c ∷ cs) wire = send_all-wire rs (c ∷ cs) wire
send_all-wire (broken ∷ rs) (c ∷ cs) wire = refl

append_empty : (xs : Bytes) → xs ++ [] ≡ xs
append_empty [] = refl
append_empty (x ∷ xs) = ap (λ t. x ∷ t) (append_empty xs)

-- How much `send` takes if it is always offered enough.
unfoldable pub taken : List SendResult → ℕ
taken [] = 0
taken (took count ∷ rs) = count + taken rs
taken (interrupted_send ∷ rs) = taken rs
taken (broken ∷ rs) = taken rs

unfoldable pub NeverBreaks : List SendResult → Type 0
NeverBreaks [] = Unit
NeverBreaks (took count ∷ rs) = NeverBreaks rs
NeverBreaks (interrupted_send ∷ rs) = NeverBreaks rs
NeverBreaks (broken ∷ rs) = ⊥

send_all_answer :
    (rs : List SendResult) (payload wire : Bytes)
    → NeverBreaks rs
    → length payload ≤ taken rs
    → ((send_all rs payload wire).answer ≡ some true) × ((send_all rs payload wire).payload ≡ [])
unfolding send_all taken NeverBreaks
send_all_answer rs [] wire n h = (refl, refl)
send_all_answer [] (c ∷ cs) wire n h = absurd (omega arith)
send_all_answer (took count ∷ rs) (c ∷ cs) wire n h =
    send_all_answer rs (drop count (c ∷ cs)) (wire ++ take count (c ∷ cs)) n
      (omega (arith, length-drop count (c ∷ cs)))
send_all_answer (interrupted_send ∷ rs) (c ∷ cs) wire n h = send_all_answer rs (c ∷ cs) wire n h
send_all_answer (broken ∷ rs) (c ∷ cs) wire n h = absurd n

-- `SendAll` on a socket that takes the payload in pieces of any sizes, with interruptions between and no
-- other error, answers true as soon as the pieces are as long as the payload, and the socket has then
-- taken the payload, once and in order.
pub send_all_ends :
    (rs : List SendResult) (payload wire : Bytes)
    → NeverBreaks rs
    → length payload ≤ taken rs
    → ((send_all rs payload wire).answer ≡ some true)
      × ((send_all rs payload wire).wire ≡ wire ++ payload)
send_all_ends rs payload wire n h =
    let (answers, all) = send_all_answer rs payload wire n h in
    (
      answers,
      sym (append_empty (send_all rs payload wire).wire)
          ∙ ap (λ l. (send_all rs payload wire).wire ++ l) (sym all)
          ∙ send_all-wire rs payload wire,
    )
