-- ===== src/Replication/Wal.antt =====
-- src/replication/wal_writer.hpp and .cpp: the write-ahead log. Log indices count from 1.
use distributed_cache.Prelude.{
  ℕ, zero, suc, ◌+◌, ◌-◌, ◌<◌, ◌≤◌, ◌≡◌, refl, false, Bytes, ◌||◌, none, some, List, [], ◌∷◌, ◌++◌,
  arith, length, length-append, get_elem?, get_elem?-append, ltb, nat_eqb, if◌then◌else◌, Result,
  returns, throws, out_of_range,
}

pub record Mutation : Type 0 where
  pub key : Bytes
  pub value : Bytes

pub record WalWriter : Type 0 where
  pub entries : List Mutation
  pub commit_index : ℕ

abbrev pub new_wal : WalWriter
new_wal = record { entries = []; commit_index = 0 }

-- `Append`: the log and the index that it returns.
unfoldable pub append : Mutation → WalWriter → WalWriter × ℕ
append mutation w =
    let entries = w.entries ++ mutation ∷ [] in
    (record { entries = entries; commit_index = length entries }, length entries)

unfoldable pub size : WalWriter → ℕ
size w = length w.entries

-- `std::vector::at`
at : List Mutation → ℕ → Result Mutation
at entries i = elim (get_elem? entries i) [ none ↦ throws out_of_range | some m ↦ returns m ]

unfoldable pub entry_at : ℕ → WalWriter → Result Mutation
unfolding at
entry_at log_index w =
    if nat_eqb log_index 0 || ltb (length w.entries) log_index
    then throws out_of_range
    else at w.entries (log_index - 1)

-- The log is append-only: after `Append` the mutation stands at the index that was returned, one past
-- the old size, which is the commit index too, and every other index, also one out of range, reads as
-- before.
entry_at-append :
    (mutation : Mutation) (w : WalWriter) (i : ℕ)
    → ((append mutation w).1 ≡ size w + 1)
      × ((append mutation w).0.commit_index ≡ size w + 1)
      × (entry_at i (append mutation w).0
          ≡ (if nat_eqb i (size w + 1) then returns mutation else entry_at i w))
unfolding append size entry_at
entry_at-append mutation w zero =
    let size' = length-append w.entries (mutation ∷ []) in
    (omega (arith, size'), omega (arith, size'), ground arith)
entry_at-append mutation w (suc i) =
    let size' = length-append w.entries (mutation ∷ []) in
    (
      omega (arith, size'),
      omega (arith, size'),
      ground (
        arith,
        size',
        get_elem?-append w.entries mutation i,
        get_elem?-append w.entries mutation (suc i - 1),
      ),
    )

get_elem?_within :
    (entries : List Mutation) (i : ℕ)
    → i < length entries
    → (m : Mutation) × (get_elem? entries i ≡ some m)
get_elem?_within [] i h = absurd (omega arith)
get_elem?_within (m ∷ entries) zero h = (m, refl)
get_elem?_within (m ∷ entries) (suc i) h = get_elem?_within entries i (omega arith)

-- An index within the log has an entry.
pub entry_at_within :
    (i : ℕ) (w : WalWriter)
    → 0 < i
    → i ≤ length w.entries
    → (m : Mutation) × (get_elem? w.entries (i - 1) ≡ some m) × (entry_at i w ≡ returns m)
unfolding entry_at at
entry_at_within i w positive within =
    let (m, found) = get_elem?_within w.entries (i - 1) (omega arith) in
    let here : (nat_eqb i 0 || ltb (length w.entries) i) ≡ false = ground arith in
    (m, found, rw here (rw (at, found) refl))
