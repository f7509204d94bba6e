-- ===== src/Mempool/Store.antt =====
-- `mempool_init_buf_with_pages` and `mempool_create_datastore` (dp/core/mempool.c), and `align_up` and
-- `div_up` of inc/ix/stddef.h: how a buffer of 2 MB pages becomes the chunks of a datastore.
-- The buffer comes from the page allocator: its address, or none if it has no memory, is an argument.
pub mod Layout
pub mod Capacity
use Prim.Native.Nat.{bit_or, bit_and}
use horus_app_eval.Prelude.{
  ℕ, zero, suc, ◌+◌, ◌-◌, ◌*◌, ◌/◌, ◌^◌, Bool, true, false, ◌||◌, ◌&&◌, Option, none, some, List,
  [], ◌∷◌, ◌++◌, if◌then◌else◌, ◌==◌, not,
}
use horus_app_eval.Prelude.Int.{pos}
use horus_app_eval.Mempool.{Chunk, Datastore, to_chunk}

abbrev pub page_size : ℕ
page_size = 2 ^ 21

abbrev pub align_up : ℕ → ℕ → ℕ
align_up x a = bit_or (x - 1) (a - 1) + 1

abbrev pub div_up : ℕ → ℕ → ℕ
div_up x d = (x + d - 1) / d

-- the variables of the loops: the chain from `head` to `prev` is `open_cells`, oldest first
pub record Build : Type 0 where
  pub chunks : List Chunk
  pub open_cells : List ℕ
  pub chunk_count : ℕ
  pub num_chunks : ℕ

abbrev push_chunk : Option Chunk → List Chunk → List Chunk
push_chunk none cs = cs
push_chunk (some c) cs = c ∷ cs

-- one round of the inner loop, at the element `cur`
unfoldable pub add_cell : ℕ → Build → ℕ → Build
add_cell size b cur =
    let chain = b.open_cells ++ (cur ∷ []) in
    if b.chunk_count + 1 == size
    then record {
      chunks = push_chunk (to_chunk chain) b.chunks;
      open_cells = [];
      chunk_count = 0;
      num_chunks = b.num_chunks + 1;
    }
    else record b { open_cells = chain; chunk_count = b.chunk_count + 1 }

-- the inner loop, with `n` elements to go
unfoldable pub fill_page : ℕ → ℕ → ℕ → ℕ → Build → Build
fill_page size elem_len zero cur b = b
fill_page size elem_len (suc n) cur b =
    fill_page size elem_len n (cur + elem_len) (add_cell size b cur)

-- the outer loop, with `n` pages to go, from the page at `start`
unfoldable pub fill_pages : ℕ → ℕ → ℕ → ℕ → ℕ → Build → Build
fill_pages size elem_len per_page zero start b = b
fill_pages size elem_len per_page (suc n) start b =
    fill_pages size elem_len per_page n (start + page_size)
      (fill_page size elem_len per_page start b)

abbrev pub empty_build : Build
empty_build = record { chunks = []; open_cells = []; chunk_count = 0; num_chunks = 0 }

unfoldable pub init_buf : ℕ → ℕ → ℕ → ℕ → ℕ → Build
init_buf size buf per_page nr_pages elem_len =
    fill_pages size elem_len per_page nr_pages buf empty_build

-- `failed` is an assertion that does not hold, a division by zero or the panic.
pub data Created : Type 0 where
  created : Datastore → ℕ → Created  -- the datastore and its `nr_elems`
  invalid : Created  -- -EINVAL
  failed : Created

abbrev to_datastore : Build → Datastore
to_datastore b = record { chunks = b.chunks; free_chunks = pos b.num_chunks; num_locks = pos 0 }

-- `mempool_create_datastore` on a datastore that is all zero
unfoldable pub create_datastore : ℕ → ℕ → Bool → ℕ → (ℕ → Option ℕ) → Created
create_datastore nr_elems elem_len nostraddle size page_alloc =
    if not (bit_and size (size - 1) == 0) || (size == 0 || not (nr_elems / size * size == nr_elems))
    then failed
    else if elem_len == 0 || nr_elems == 0
    then invalid
    else let len = align_up elem_len 8 in
      let per_page = page_size / len in
      if nostraddle
      then (if per_page == 0
          then failed
          else let pages = div_up nr_elems per_page in
            elim (page_alloc pages) [
              | none ↦ failed
              | some buf ↦ created (to_datastore (init_buf size buf per_page pages len)) nr_elems
            ])
      else (let pages = (nr_elems * len + (page_size - 1)) / page_size in
          let fitting = pages * page_size / len in
          elim (page_alloc pages) [
            | none ↦ failed
            | some buf ↦ created (to_datastore (init_buf size buf fitting 1 len)) fitting
          ])
