-- ===== src/TopChunk/Disjoint.antt =====
-- Blocks that are cut off top one after the other.
use dlmalloc_rs.Prelude.{ℕ, ◌+◌, ◌-◌, ◌%◌, ◌^◌, ◌≤◌, ◌<◌, ◌≡◌, arith}
use dlmalloc_rs.Size.{add64, sub64, chunk2mem, pad_request}
use dlmalloc_rs.State.{State, done}
use dlmalloc_rs.Head.{with_pinuse}
use dlmalloc_rs.Os.{Os}
use dlmalloc_rs.Malloc.{request_size, dlmalloc}
use dlmalloc_rs.TopChunk.{OnlyTop, cut, dlmalloc-cut, request_size_aligned}

request_size_enough :
    (bytes : ℕ) → request_size bytes < 2 ^ 64 - 16 → bytes + 8 ≤ request_size bytes
unfolding request_size pad_request add64
request_size_enough bytes h = ground (arith, h)

cut-OnlyTop :
    (s : State) (nb : ℕ) → OnlyTop s → 0 < nb → nb % 16 ≡ 0 → nb < s.m.topsize → OnlyTop (cut s nb)
unfolding sub64 with_pinuse
cut-OnlyTop s nb t pos al fit = record {
  no_small = t.no_small;
  no_tree = t.no_tree;
  no_dv = t.no_dv;
  dv_null = t.dv_null;
  above = ground (arith, t.above);
  aligned = ground (arith, t.aligned, al, fit, t.fits);
  fits = ground (arith, t.fits, fit);
  low = ground (arith, t.low);
  marked = ground (arith, t.aligned, al, fit, t.fits, pos);
  no_trim = ground (arith, t.no_trim, t.fits, fit);
}

-- With no free chunk but a well-formed top that has room for two requests together, both return;
-- the first block ends, with a chunk's overhead, before the second one begins, the second one ends
-- within the old top, and what is left is again a well-formed top and no other free chunk.
pub dlmalloc-disjoint :
    (os : Os) (s : State) (a b : ℕ)
    → OnlyTop s
    → request_size a + request_size b < s.m.topsize
    → (t u : State) × (p q : ℕ) × (dlmalloc os a s ≡ done p t)
      × (dlmalloc os b t ≡ done q u)
      × (s.m.top < p)
      × (p + a + 8 ≤ q)
      × (q + b ≤ s.m.top + s.m.topsize)
      × OnlyTop u
unfolding chunk2mem add64 sub64
dlmalloc-disjoint os s a b t room =
    let na = request_size_aligned a (omega (arith, room, t.fits)) in
    let nb = request_size_aligned b (omega (arith, room, t.fits)) in
    let ea = request_size_enough a (omega (arith, room, t.fits)) in
    let eb = request_size_enough b (omega (arith, room, t.fits)) in
    let first = cut-OnlyTop s (request_size a) t na.0 na.1 (omega (arith, room)) in
    let fit : request_size b < (cut s (request_size a)).m.topsize = omega (arith, room, t.fits) in
    (
      cut s (request_size a),
      cut (cut s (request_size a)) (request_size b),
      chunk2mem s.m.top,
      chunk2mem (s.m.top + request_size a),
      dlmalloc-cut os s a t (omega (arith, room)),
      dlmalloc-cut os (cut s (request_size a)) b first fit,
      omega (arith, t.fits),
      omega (arith, t.fits, ea, room, nb.0),
      omega (arith, t.fits, eb, room, na.1, nb.1, t.aligned),
      cut-OnlyTop (cut s (request_size a)) (request_size b) first nb.0 nb.1 fit,
    )
