-- ===== src/State.antt =====
-- The allocator's memory and state: struct malloc_chunk and malloc_tree_chunk, malloc_segment,
-- malloc_state and malloc_params of src/dlmalloc.c.
--
-- Memory is kept by field: `head` gives, for each address, the word that `((mchunkptr)a)->head`
-- reads. The code reaches a chunk's words only through these fields, and the user's bytes,
-- `payload`, only by memset and memcpy; the words that a freed chunk's links share with the
-- user's former bytes are kept apart here.
use dlmalloc_rs.Prelude.{ℕ, ◌+◌, ◌*◌, Bool, List, ◌==◌, if◌then◌else◌, leb}

pub record Heap : Type 0 where
  pub prev_foot : ℕ → ℕ
  pub head : ℕ → ℕ
  pub fd : ℕ → ℕ
  pub bk : ℕ → ℕ
  pub child0 : ℕ → ℕ
  pub child1 : ℕ → ℕ
  pub parent : ℕ → ℕ
  pub index : ℕ → ℕ
  pub payload : ℕ → ℕ

-- `at` is the address of the record; the list of segments holds the order of the `next` links.
pub record Segment : Type 0 where
  pub at : ℕ
  pub base : ℕ
  pub size : ℕ
  pub sflags : ℕ

pub record MallocState : Type 0 where
  pub at : ℕ
  pub smallmap : ℕ
  pub treemap : ℕ
  pub dvsize : ℕ
  pub topsize : ℕ
  pub least_addr : ℕ
  pub dv : ℕ
  pub top : ℕ
  pub trim_check : ℕ
  pub release_checks : ℕ
  pub magic : ℕ
  pub treebins : ℕ → ℕ
  pub footprint : ℕ
  pub max_footprint : ℕ
  pub footprint_limit : ℕ
  pub mflags : ℕ
  pub seg : Segment
  pub older : List Segment

pub record MallocParams : Type 0 where
  pub magic : ℕ
  pub page_size : ℕ
  pub granularity : ℕ
  pub mmap_threshold : ℕ
  pub trim_threshold : ℕ
  pub default_mflags : ℕ

-- `calls` counts the calls of the operating system so far.
pub record State : Type 0 where
  pub heap : Heap
  pub m : MallocState
  pub mparams : MallocParams
  pub calls : ℕ

-- A run returns, calls ABORT (CORRUPTION_ERROR_ACTION and USAGE_ERROR_ACTION do), or uses up the
-- rounds given to a loop.
pub data Run (A : Type 0) : Type 0 where
  done : A → State → Run A
  aborted : Run A
  out_of_fuel : Run A

abbrev pub Cmd : Type 0 → Type 0
Cmd A = State → Run A

module _ {A B : Type 0} where
  abbrev pub and_then : Run A → (A → Cmd B) → Run B
  and_then (done a s) k = k a s
  and_then aborted k = aborted
  and_then out_of_fuel k = out_of_fuel

  infixl 5 ◌>>=◌ ◌>>◌
  abbrev pub ◌>>=◌ : Cmd A → (A → Cmd B) → Cmd B
  m >>= k = λ s. and_then (m s) k

  abbrev pub ◌>>◌ : Cmd A → Cmd B → Cmd B
  m >> k = m >>= λ _. k

abbrev pub pure : {A : Type 0} → A → Cmd A
pure a s = done a s

abbrev pub abort : {A : Type 0} → Cmd A
abort s = aborted

abbrev pub ask : {A : Type 0} → (State → A) → Cmd A
ask f s = done (f s) s

abbrev pub put : (State → State) → Cmd (Unit {0})
put f s = done tt (f s)

abbrev pub write : (ℕ → ℕ) → ℕ → ℕ → ℕ → ℕ
write f a v b = if b == a then v else f b

-- Assignments to a chunk's fields, `p->head = v`.
abbrev pub set_head : ℕ → ℕ → State → State
set_head p v s = record s { heap = record (s.heap) { head = write s.heap.head p v } }

abbrev pub set_prev_foot : ℕ → ℕ → State → State
set_prev_foot p v s = record s { heap = record (s.heap) { prev_foot = write s.heap.prev_foot p v } }

abbrev pub set_fd : ℕ → ℕ → State → State
set_fd p v s = record s { heap = record (s.heap) { fd = write s.heap.fd p v } }

abbrev pub set_bk : ℕ → ℕ → State → State
set_bk p v s = record s { heap = record (s.heap) { bk = write s.heap.bk p v } }

abbrev pub set_parent : ℕ → ℕ → State → State
set_parent p v s = record s { heap = record (s.heap) { parent = write s.heap.parent p v } }

abbrev pub set_index : ℕ → ℕ → State → State
set_index p v s = record s { heap = record (s.heap) { index = write s.heap.index p v } }

-- `p->child[i]`, for i = 0 or 1.
abbrev pub child : State → ℕ → ℕ → ℕ
child s p i = if i == 0 then s.heap.child0 p else s.heap.child1 p

abbrev pub set_child : ℕ → ℕ → ℕ → State → State
set_child p i v s =
    if i == 0
    then record s { heap = record (s.heap) { child0 = write s.heap.child0 p v } }
    else record s { heap = record (s.heap) { child1 = write s.heap.child1 p v } }

-- The address of `p->child[i]`.
abbrev pub child_addr : ℕ → ℕ → ℕ
child_addr p i = p + 32 + i * 8

abbrev pub leftmost_child : State → ℕ → ℕ
leftmost_child s t = if s.heap.child0 t == 0 then s.heap.child1 t else s.heap.child0 t

-- The bins' addresses: `smallbins` and `treebins` lie 72 and 600 bytes into the state.
abbrev pub smallbin_at : State → ℕ → ℕ
smallbin_at s i = s.m.at + 72 + i * 16

abbrev pub treebin_at : State → ℕ → ℕ
treebin_at s i = s.m.at + 600 + i * 8

abbrev pub set_treebin : ℕ → ℕ → State → State
set_treebin i v s = record s { m = record (s.m) { treebins = write s.m.treebins i v } }

-- Run-time checks.
abbrev pub ok_address : State → ℕ → Bool
ok_address s a = leb s.m.least_addr a
