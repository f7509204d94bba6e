-- ===== src/Mempool/Bounds.antt =====
-- The counter `num_free` of a pool against its free list, and the assertion in `mempool_free_2`.
use horus_app_eval.Prelude.{
  ℕ, ◌≤◌, ◌≡◌, Option, none, some, List, [], ◌∷◌, arith, length, false, Bool-cases, inl, inr,
}
use horus_app_eval.Prelude.Int.{ℤ, ltb_ℤ, pos, ◌≤ℤ◌}
use horus_app_eval.Mempool.{Chunk, Mempool, alloc, free, free_2, to_chunk}
use horus_app_eval.Mempool.Count.{chunk_cells}

-- a private chunk holds at least `chunk_size` elements
abbrev pub BigEnough : ℕ → Option Chunk → Type 0
BigEnough size none = Unit {0}
BigEnough size (some c) = size ≤ length (chunk_cells c)

pub record IsSized (m : Mempool) : Type 0 where
  pub nonzero : 1 ≤ m.chunk_size
  pub capped : m.num_free ≤ℤ pos m.chunk_size
  pub counted : m.num_free ≤ℤ pos (length m.head)
  pub spare : BigEnough m.chunk_size m.private_chunk

alloc_cases :
    (head : List ℕ) (n : ℤ) (p : Option Chunk) (size : ℕ) (cs : List Chunk) (fc nl : ℤ)
    → let m : Mempool = record {
      head = head;
      num_free = n;
      private_chunk = p;
      chunk_size = size;
      store = record { chunks = cs; free_chunks = fc; num_locks = nl };
    } in
      IsSized m → IsSized (alloc m).1
unfolding alloc
alloc_cases (x ∷ xs) n p size cs fc nl v = record {
  nonzero = v.nonzero;
  capped = ground (arith, v.capped);
  counted = ground (arith, v.counted);
  spare = v.spare;
}
alloc_cases [] n (some c) size cs fc nl v = record {
  nonzero = v.nonzero;
  capped = v.capped;
  counted = omega (arith, v.counted);
  spare = tt;
}
alloc_cases [] n none size (c ∷ cs) fc nl v = record {
  nonzero = v.nonzero;
  capped = v.capped;
  counted = omega (arith, v.counted);
  spare = tt;
}
alloc_cases [] n none size [] fc nl v = v

-- `mempool_alloc` keeps the counter at most the chunk size and at most the length of the free list, and a
-- private chunk at the chunk size at least.
alloc-IsSized : {m : Mempool} → IsSized m → IsSized (alloc m).1
alloc-IsSized {m} v =
    alloc_cases m.head m.num_free m.private_chunk m.chunk_size m.store.chunks m.store.free_chunks
      m.store.num_locks v

-- `assert(m->num_free == m->chunk_size)` holds where `mempool_free` calls `mempool_free_2`, and the
-- free list that becomes the private chunk then holds a chunk's worth of elements.
free_2-assert :
    {m : Mempool}
    → IsSized m
    → ltb_ℤ m.num_free (pos m.chunk_size) ≡ false
    → (m.num_free ≡ pos m.chunk_size) × (m.chunk_size ≤ length m.head)
free_2-assert {m} v h = (ground (arith, v.capped), ground (arith, v.capped, v.counted))

to_chunk-BigEnough : (size : ℕ) (xs : List ℕ) → size ≤ length xs → BigEnough size (to_chunk xs)
to_chunk-BigEnough size [] h = tt
to_chunk-BigEnough size (x ∷ xs) h = h

-- `mempool_free` keeps the same bounds, on both of its branches.
free-IsSized : {m : Mempool} (x : ℕ) → IsSized m → IsSized (free m x)
unfolding free
free-IsSized {m} x v = elim (Bool-cases (ltb_ℤ m.num_free (pos m.chunk_size))) [
  | inl e ↦ rw e (record {
    nonzero = v.nonzero;
    capped = ground (arith, v.capped);
    counted = ground (arith, v.counted);
    spare = v.spare;
  })
  | inr e ↦ rw e (
      unfold free_2 in
      record {
        nonzero = v.nonzero;
        capped = omega (arith, v.nonzero);
        counted = omega arith;
        spare = to_chunk-BigEnough m.chunk_size m.head (free_2-assert v e).1;
      })
]

-- `mempool_alloc` and `mempool_free`, on all their branches, keep the counter num_free at most the chunk size
-- and at most the length of the free list, and a private chunk at the chunk size at least.
pub alloc-free-IsSized :
    {m : Mempool} (x : ℕ) → IsSized m → IsSized (alloc m).1 × IsSized (free m x)
alloc-free-IsSized x v = (alloc-IsSized v, free-IsSized x v)
