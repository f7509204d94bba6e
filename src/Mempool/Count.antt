-- ===== src/Mempool/Count.antt =====
-- No element of a pool is lost or made up: how many are free, and which.
use horus_app_eval.Prelude.{
  ℕ, ◌≡◌, inl, inr, refl, Option, none, some, List, [], ◌∷◌, ◌++◌, length, ap, Bool-cases,
}
use horus_app_eval.Prelude.Int.{ℤ, ltb_ℤ, pos}
use horus_app_eval.Mempool.{Chunk, Mempool, alloc, free, free_2, to_chunk}

abbrev pub chunk_cells : Chunk → List ℕ
chunk_cells c = c.first ∷ c.rest

abbrev pub option_cells : Option Chunk → List ℕ
option_cells none = []
option_cells (some c) = chunk_cells c

abbrev pub chunks_cells : List Chunk → List ℕ
chunks_cells [] = []
chunks_cells (c ∷ cs) = chunk_cells c ++ chunks_cells cs

-- every element that `mempool_alloc` can still hand out
unfoldable pub cells : Mempool → List ℕ
cells m = m.head ++ (option_cells m.private_chunk ++ chunks_cells m.store.chunks)

unfoldable pub available : Mempool → ℕ
unfolding cells
available m = length (cells m)

-- `mempool_alloc` returns an element and keeps the others, or NULL where none is left.
abbrev pub Allocated : Mempool → Option ℕ × Mempool → Type 0
Allocated m (none, m') = (cells m ≡ []) × (m' ≡ m)
Allocated m (some x, m') = cells m ≡ x ∷ cells m'

alloc_cases :
    (head : List ℕ) (n : ℤ) (p : Option Chunk) (size : ℕ) (cs : List Chunk) (fc nl : ℤ)
    → let m : Mempool = record {
      head = head;
      num_free = n;
      private_chunk = p;
      chunk_size = size;
      store = record { chunks = cs; free_chunks = fc; num_locks = nl };
    } in
      Allocated m (alloc m)
unfolding alloc cells
alloc_cases (x ∷ xs) n p size cs fc nl = refl
alloc_cases [] n (some c) size cs fc nl = refl
alloc_cases [] n none size (c ∷ cs) fc nl = refl
alloc_cases [] n none size [] fc nl = (refl, refl)

-- the free elements `l` once these are freed, one after the other
abbrev pub freed : List ℕ → List ℕ → List ℕ
freed [] l = l
freed (x ∷ xs) l = freed xs (x ∷ l)

pub freed-append : (xs ys l : List ℕ) → freed (xs ++ ys) l ≡ freed ys (freed xs l)
freed-append [] ys l = refl
freed-append (x ∷ xs) ys l = freed-append xs ys (x ∷ l)

-- `mempool_alloc` returns an element that was free and keeps all others, in order, or it returns NULL,
-- with nothing changed, and then no element was free in the pool, its private chunk or its datastore.
pub alloc-Allocated : (m : Mempool) → Allocated m (alloc m)
alloc-Allocated m =
    alloc_cases m.head m.num_free m.private_chunk m.chunk_size m.store.chunks m.store.free_chunks
      m.store.num_locks

to_chunk-cells : (xs : List ℕ) → option_cells (to_chunk xs) ≡ xs
to_chunk-cells [] = refl
to_chunk-cells (x ∷ xs) = refl

free_2_cases :
    (head : List ℕ) (n : ℤ) (p : Option Chunk) (size : ℕ) (cs : List Chunk) (fc nl : ℤ) (x : ℕ)
    → let m : Mempool = record {
      head = head;
      num_free = n;
      private_chunk = p;
      chunk_size = size;
      store = record { chunks = cs; free_chunks = fc; num_locks = nl };
    } in
      cells (free_2 m x) ≡ x ∷ cells m
unfolding free_2 cells
free_2_cases head n none size cs fc nl x =
    ap (λ l. x ∷ (l ++ chunks_cells cs)) (to_chunk-cells head)
free_2_cases head n (some c) size cs fc nl x =
    ap (λ l. x ∷ (l ++ (chunk_cells c ++ chunks_cells cs))) (to_chunk-cells head)

-- After `mempool_free` the free elements are the freed one, in front, and those from before, in order,
-- on both branches of `mempool_free`.
pub cells-free : (m : Mempool) (x : ℕ) → cells (free m x) ≡ x ∷ cells m
unfolding free
cells-free m x = elim (Bool-cases (ltb_ℤ m.num_free (pos m.chunk_size))) [
  | inl e ↦ rw e (unfold cells in refl)
  | inr e ↦ rw e (
      free_2_cases m.head m.num_free m.private_chunk m.chunk_size m.store.chunks m.store.free_chunks
        m.store.num_locks x)
]

-- `mempool_alloc` returns an element that was free and keeps all others, in order, or it returns NULL, with
-- nothing changed, and then no element was free in the pool, its private chunk or its datastore. After
-- `mempool_free` the free elements are the freed one, in front, and those from before, in order.
pub alloc-free-cells :
    (m : Mempool) (x : ℕ) → Allocated m (alloc m) × (cells (free m x) ≡ x ∷ cells m)
alloc-free-cells m x = (alloc-Allocated m, cells-free m x)
