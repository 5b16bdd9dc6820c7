-- ===== src/Core/Entry.antt =====
-- src/core/value_entry.hpp, and the helpers of src/core/concurrent_store.cpp that see one entry, the
-- clock or an atomic counter.
use distributed_cache.Prelude.{
  ℕ, ◌+◌, ◌*◌, ◌%◌, ◌^◌, ◌-◌, ℤ, pos, negsuc, sub_ℕ, leb_ℤ, Bytes, Bool, true, false, not, ◌&&◌,
  Option, none, some, ltb, leb, if◌then◌else◌,
}

pub record ValueEntry : Type 0 where
  pub value : Bytes
  pub expires_at : Option ℤ
  pub lfu_count : ℕ
  pub last_touch_ns : ℕ
  pub in_protected_segment : Bool

unfoldable pub is_expired : ValueEntry → ℕ → Bool
is_expired e now = elim e.expires_at [ none ↦ false | some t ↦ leb_ℤ t (pos now) ]

-- `fetch_add(1)` and `fetch_sub(1)` on a `std::atomic<size_t>` of 64 bits.
unfoldable pub fetch_add : ℕ → ℕ
fetch_add n = (n + 1) % 2 ^ 64

unfoldable pub fetch_sub : ℕ → ℕ
fetch_sub n = (n + (2 ^ 64 - 1)) % 2 ^ 64

-- `ToNs`: the clock's nanoseconds as a `uint64_t`.
unfoldable pub to_ns : ℕ → ℕ
to_ns now = now % 2 ^ 64

-- A signed 64-bit number from its bits.
unfoldable pub signed_64 : ℕ → ℤ
signed_64 bits = if ltb bits (2 ^ 63) then pos bits else sub_ℕ bits (2 ^ 64)

-- The bits of a signed number of milliseconds, converted to nanoseconds.
unfoldable pub ms_bits : ℤ → ℕ
ms_bits (pos t) = t * 1000000 % 2 ^ 64
ms_bits (negsuc t) = 2 ^ 64 - 1 - ((t + 1) * 1000000 - 1) % 2 ^ 64

-- A time point and a number of milliseconds: the conversion and the sum are of signed 64-bit numbers, and
-- wrap around.
unfoldable pub add_ms : ℕ → ℤ → ℤ
unfolding signed_64 ms_bits
add_ms now ms = signed_64 ((now + ms_bits ms) % 2 ^ 64)

-- `TouchEntry`: the entry, and the counter of protected entries.
unfoldable pub touch_entry : ValueEntry → ℕ → ℕ → ValueEntry × ℕ
unfolding fetch_add to_ns
touch_entry entry now protected =
    let count = if ltb entry.lfu_count (2 ^ 32 - 1) then entry.lfu_count + 1 else entry.lfu_count in
    let promoted = not entry.in_protected_segment && leb 2 count in
    (
      record entry {
        lfu_count = count;
        last_touch_ns = to_ns now;
        in_protected_segment = if promoted then true else entry.in_protected_segment;
      },
      if promoted then fetch_add protected else protected,
    )
