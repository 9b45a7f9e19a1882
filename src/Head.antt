-- ===== src/Head.antt =====
-- Operations on `head` and foot fields (src/dlmalloc.c, "Operations on head and foot fields" and
-- the macros to set up inuse chunks without footers). The masks are written as arithmetic on the
-- low three bits: PINUSE_BIT 1, CINUSE_BIT 2, FLAG4_BIT 4.
pub mod Laws
use Prim.Native.Nat.{max}
use dlmalloc_rs.Prelude.{ℕ, ◌+◌, ◌-◌, ◌*◌, ◌/◌, ◌%◌, Bool, not, ◌&&◌, ◌==◌, ltb, if◌then◌else◌}
use dlmalloc_rs.Size.{sub64, mmap_chunk_overhead, chunk_overhead}
use dlmalloc_rs.State.{State, set_head, set_prev_foot}

-- A `head` word: `w & CINUSE_BIT`, `w & PINUSE_BIT`, `w & INUSE_BITS`, `w & ~FLAG_BITS`.
unfoldable pub c_bit : ℕ → Bool
c_bit w = w / 2 % 2 == 1

unfoldable pub p_bit : ℕ → Bool
p_bit w = w % 2 == 1

unfoldable pub inuse_bits : ℕ → ℕ
inuse_bits w = w % 4

unfoldable pub size_bits : ℕ → ℕ
size_bits w = w / 8 * 8

-- `s | PINUSE_BIT`, `s | PINUSE_BIT | CINUSE_BIT`, and `w & ~PINUSE_BIT`.
unfoldable pub with_pinuse : ℕ → ℕ
with_pinuse s = s / 2 * 2 + 1

unfoldable pub with_inuse_bits : ℕ → ℕ
with_inuse_bits s = s / 4 * 4 + 3

unfoldable pub without_pinuse : ℕ → ℕ
without_pinuse w = w / 2 * 2

abbrev pub fencepost_head : ℕ
fencepost_head = 11

unfoldable pub cinuse : State → ℕ → Bool
unfolding c_bit
cinuse s p = c_bit (s.heap.head p)

unfoldable pub pinuse : State → ℕ → Bool
unfolding p_bit
pinuse s p = p_bit (s.heap.head p)

unfoldable pub is_inuse : State → ℕ → Bool
unfolding inuse_bits
is_inuse s p = not (inuse_bits (s.heap.head p) == 1)

unfoldable pub is_mmapped : State → ℕ → Bool
unfolding inuse_bits
is_mmapped s p = inuse_bits (s.heap.head p) == 0

unfoldable pub chunksize : State → ℕ → ℕ
unfolding size_bits
chunksize s p = size_bits (s.heap.head p)

unfoldable pub clear_pinuse : ℕ → State → State
unfolding without_pinuse
clear_pinuse p s = set_head p (without_pinuse (s.heap.head p)) s

-- Pointers to a chunk's neighbours. A pointer sum stays inside the address space.
abbrev pub chunk_plus_offset : ℕ → ℕ → ℕ
chunk_plus_offset p n = p + n

unfoldable pub chunk_minus_offset : ℕ → ℕ → ℕ
unfolding sub64
chunk_minus_offset p n = sub64 p n

unfoldable pub next_chunk : State → ℕ → ℕ
unfolding chunksize
next_chunk s p = p + chunksize s p

unfoldable pub prev_chunk : State → ℕ → ℕ
unfolding chunk_minus_offset
prev_chunk s p = chunk_minus_offset p (s.heap.prev_foot p)

unfoldable pub next_pinuse : State → ℕ → Bool
unfolding next_chunk pinuse
next_pinuse s p = pinuse s (next_chunk s p)

unfoldable pub get_foot : State → ℕ → ℕ → ℕ
get_foot s p n = s.heap.prev_foot (p + n)

unfoldable pub set_foot : ℕ → ℕ → State → State
set_foot p n s = set_prev_foot (p + n) n s

unfoldable pub set_size_and_pinuse_of_free_chunk : ℕ → ℕ → State → State
unfolding with_pinuse set_foot
set_size_and_pinuse_of_free_chunk p n s = set_foot p n (set_head p (with_pinuse n) s)

unfoldable pub set_free_with_pinuse : ℕ → ℕ → ℕ → State → State
unfolding clear_pinuse set_size_and_pinuse_of_free_chunk
set_free_with_pinuse p n next s = set_size_and_pinuse_of_free_chunk p n (clear_pinuse next s)

unfoldable pub overhead_for : State → ℕ → ℕ
unfolding is_mmapped
overhead_for s p = if is_mmapped s p then mmap_chunk_overhead else chunk_overhead

-- With MMAP_CLEARS.
unfoldable pub calloc_must_clear : State → ℕ → Bool
unfolding is_mmapped
calloc_must_clear s p = not (is_mmapped s p)

-- `head->... |= PINUSE_BIT`
unfoldable pub add_pinuse : ℕ → State → State
unfolding with_pinuse
add_pinuse p s = set_head p (with_pinuse (s.heap.head p)) s

-- `(head & PINUSE_BIT) | s | CINUSE_BIT`, then the next chunk's pinuse bit.
unfoldable pub set_inuse : ℕ → ℕ → State → State
unfolding add_pinuse
set_inuse p n s =
    add_pinuse (p + n) (set_head p (n / 4 * 4 + 2 + max (n % 2) (s.heap.head p % 2)) s)

unfoldable pub set_inuse_and_pinuse : ℕ → ℕ → State → State
unfolding with_inuse_bits add_pinuse
set_inuse_and_pinuse p n s = add_pinuse (p + n) (set_head p (with_inuse_bits n) s)

unfoldable pub set_size_and_pinuse_of_inuse_chunk : ℕ → ℕ → State → State
unfolding with_inuse_bits
set_size_and_pinuse_of_inuse_chunk p n s = set_head p (with_inuse_bits n) s

unfoldable pub ok_next : ℕ → ℕ → Bool
ok_next p n = ltb p n
