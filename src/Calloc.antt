-- ===== src/Calloc.antt =====
-- `dlcalloc` of src/dlmalloc.c.
pub mod Overflow
pub mod Clear
use Prim.Native.Nat.{bit_and, bit_or}
use dlmalloc_rs.Prelude.{
  ℕ, ◌+◌, ◌-◌, ◌*◌, ◌/◌, ◌%◌, ◌^◌, Bool, not, ◌&&◌, ◌==◌, ltb, leb, if◌then◌else◌,
}
use dlmalloc_rs.Size.{max_size_t, mem2chunk}
use dlmalloc_rs.State.{State, Cmd, put, pure, ask, ◌>>=◌, ◌>>◌}
use dlmalloc_rs.Head.{calloc_must_clear}
use dlmalloc_rs.Os.{Os}
use dlmalloc_rs.Malloc.{dlmalloc}

-- memset(mem, v, n)
unfoldable pub fill : (mem v n : ℕ) → State → State
fill mem v n s = record s {
  heap = record (s.heap) {
    payload = λ a. if leb mem a && ltb a (mem + n) then v else s.heap.payload a;
  };
}

-- memcpy(to, from, n)
unfoldable pub copy : (to from n : ℕ) → State → State
copy to from n s = record s {
  heap = record (s.heap) {
    payload = λ a.
        if leb to a && ltb a (to + n) then s.heap.payload (a - to + from) else s.heap.payload a;
  };
}

-- The number of bytes asked for; an overflow of the product forces failure.
unfoldable pub calloc_request : (n_elements elem_size : ℕ) → ℕ
calloc_request n_elements elem_size =
    if not (n_elements == 0)
    then (let req = n_elements * elem_size % 2 ^ 64 in
        if not (bit_and (bit_or n_elements elem_size) (2 ^ 64 - 1 - 0xffff) == 0)
          && not (req / n_elements == elem_size)
        then max_size_t
        else req)
    else 0

module _ (os : Os) where
  unfoldable pub dlcalloc : (n_elements elem_size : ℕ) → Cmd ℕ
  unfolding calloc_request fill
  dlcalloc n_elements elem_size = do
    let req = calloc_request n_elements elem_size
    mem ← dlmalloc os req
    must_clear ← ask (λ s. calloc_must_clear s (mem2chunk mem))
    (if not (mem == 0) && must_clear then put (fill mem 0 req) else pure tt)
    pure mem
