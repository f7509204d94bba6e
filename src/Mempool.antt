-- ===== src/Mempool.antt =====
-- inc/ix/mempool.h and dp/core/mempool.c: the two-level slab allocator behind every object of the
-- server. An element is known by its address. A `next` chain of free elements is a list, and NULL
-- is the empty one; the first element of a chunk stands for the chunk, as in the C code.
pub mod Count
pub mod Available
pub mod Bounds
pub mod Store
use horus_app_eval.Prelude.{ℕ, Option, none, some, List, [], ◌∷◌, if◌then◌else◌}
use horus_app_eval.Prelude.Int.{ℤ, pos, ◌+ℤ◌, ◌-ℤ◌, ltb_ℤ}

-- a chunk: its first element, and the elements that its `next` chain leads to
pub record Chunk : Type 0 where
  pub first : ℕ
  pub rest : List ℕ

-- struct mempool_datastore: the chunks chained by `next_chunk`, and its counters
pub record Datastore : Type 0 where
  pub chunks : List Chunk
  pub free_chunks : ℤ
  pub num_locks : ℤ

-- struct mempool, with the datastore that it draws on
pub record Mempool : Type 0 where
  pub head : List ℕ
  pub num_free : ℤ
  pub private_chunk : Option Chunk
  pub chunk_size : ℕ
  pub store : Datastore

-- an element pointer, with its chain, as a chunk pointer
abbrev pub to_chunk : List ℕ → Option Chunk
to_chunk [] = none
to_chunk (x ∷ xs) = some (record { first = x; rest = xs })

take_chunk : Datastore → Option Chunk × Datastore
take_chunk d = elim d.chunks [
  | [] ↦ (none, d)
  | c ∷ cs ↦ (
    some c,
    record { chunks = cs; free_chunks = d.free_chunks -ℤ pos 1; num_locks = d.num_locks +ℤ pos 1 },
  )
]

give_chunk : Datastore → Chunk → Datastore
give_chunk d c = record {
  chunks = c ∷ d.chunks;
  free_chunks = d.free_chunks +ℤ pos 1;
  num_locks = d.num_locks +ℤ pos 1;
}

-- `h` becomes the result and its chain the free list; `num_free` is not touched.
hand_out : Mempool → Option Chunk × Datastore → Option ℕ × Mempool
hand_out m (none, d) = (none, record m { store = d })
hand_out m (some c, d) = (some c.first, record m { head = c.rest; store = d })

-- `mempool_alloc_2`, which runs only at an empty free list
pub alloc_2 : Mempool → Option ℕ × Mempool
unfolding take_chunk hand_out
alloc_2 m = elim m.private_chunk [
  | some c ↦ (some c.first, record m { head = c.rest; private_chunk = none })
  | none ↦ hand_out m (take_chunk m.store)
]

-- `mempool_alloc`: the element, or none for NULL
unfoldable pub alloc : Mempool → Option ℕ × Mempool
unfolding alloc_2
alloc m = elim m.head [
  | x ∷ xs ↦ (some x, record m { head = xs; num_free = m.num_free -ℤ pos 1 })
  | [] ↦ alloc_2 m
]

-- `mempool_free_2`: the free list becomes the private chunk, whose predecessor goes to the store
pub free_2 : Mempool → ℕ → Mempool
unfolding give_chunk
free_2 m x = record m {
  head = x ∷ [];
  num_free = pos 1;
  private_chunk = to_chunk m.head;
  store = elim m.private_chunk [ some c ↦ give_chunk m.store c | none ↦ m.store ];
}

-- `mempool_free`
unfoldable pub free : Mempool → ℕ → Mempool
unfolding free_2
free m x =
    if ltb_ℤ m.num_free (pos m.chunk_size)
    then record m { head = x ∷ m.head; num_free = m.num_free +ℤ pos 1 }
    else free_2 m x
