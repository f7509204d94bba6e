-- ===== src/Search.antt =====
-- inc/ix/intersection.h and the search of dp/core/worker.c of shinjuku-rocksdb: the documents that hold
-- all the words of a query. An array is a function on the index; cell 0 of a list of document numbers
-- holds the number of entries after it.
pub mod Intersection
pub mod Query
use horus_app_eval.Prelude.{
  ℕ, zero, suc, ◌+◌, ◌-◌, ◌%◌, ◌^◌, Bool, ◌&&◌, Option, none, some, ◌>>=◌, if◌then◌else◌, ltb, leb,
  ◌==◌, u32, u64, update,
}
use horus_app_eval.Message.{Message}

-- the variables of `compute_intersection`, with the array that it writes
pub record Cursor : Type 0 where
  pub i : ℕ
  pub j : ℕ
  pub k : ℕ
  pub result : ℕ → ℕ

-- the body of the `while` loop
unfoldable pub advance : (ℕ → ℕ) → (ℕ → ℕ) → Cursor → Cursor
advance word_one word_two c =
    let x = word_one (1 + c.i) in
    let y = word_two (1 + c.j) in
    if ltb x y
    then record c { i = c.i + 1 }
    else if ltb y x
    then record c { j = c.j + 1 }
    else record { i = c.i + 1; j = c.j + 1; k = c.k + 1; result = update c.result (1 + c.k) x }

-- the condition of the `while` loop; the sizes are read as `unsigned`
unfoldable pub more : (ℕ → ℕ) → (ℕ → ℕ) → Cursor → Bool
more word_one word_two c = ltb c.i (u32 (word_one 0)) && ltb c.j (u32 (word_two 0))

-- the `while` loop, with at most `n` rounds to go
unfoldable pub merge : ℕ → (ℕ → ℕ) → (ℕ → ℕ) → Cursor → Cursor
unfolding advance more
merge zero word_one word_two c = c
merge (suc n) word_one word_two c =
    if more word_one word_two c then merge n word_one word_two (advance word_one word_two c) else c

abbrev pub scanned : (ℕ → ℕ) → (ℕ → ℕ) → (ℕ → ℕ) → Cursor
scanned word_one word_two result =
    merge (u32 (word_one 0) + u32 (word_two 0)) word_one word_two
      (record { i = 0; j = 0; k = 0; result = result })

-- `compute_intersection`: each round moves `i` or `j`, so the two sizes bound the rounds.
unfoldable pub compute_intersection : (ℕ → ℕ) → (ℕ → ℕ) → (ℕ → ℕ) → ℕ → ℕ
unfolding merge
compute_intersection word_one word_two result =
    let c = scanned word_one word_two result in update c.result 0 c.k

-- MAX_QUERY_WORDS, MAX_INSERSECTION_DOCS, the entries of `word_to_docids`
abbrev max_query_words : ℕ
max_query_words = 8

abbrev pub max_intersection_docs : ℕ
max_intersection_docs = 64

abbrev pub word_count : ℕ
word_count = 200

-- `word_to_docids[word - 1]`: an index past the end is a fault
unfoldable pub docs_of : (ℕ → ℕ → ℕ) → ℕ → Option (ℕ → ℕ)
docs_of docs word =
    let i = u32 (u64 (word + 2 ^ 64 - 1)) in if ltb i word_count then some (docs i) else none

-- A result must fit in a buffer of `intersection_tmp`: else its last cells are written past the end.
unfoldable pub in_buffer : (ℕ → ℕ) → Option (ℕ → ℕ)
in_buffer result = if leb (result 0) max_intersection_docs then some result else none

-- the loop of `search_work`, at the word `cnt` with `n` words to go; the two buffers take turns, and an
-- empty result ends it
unfoldable pub intersect_words :
    ℕ → ℕ → (ℕ → ℕ → ℕ) → Message → (ℕ → ℕ → ℕ) → (ℕ → ℕ) → Option (ℕ → ℕ)
unfolding docs_of in_buffer
intersect_words zero cnt docs req tmp result = some result
intersect_words (suc n) cnt docs req tmp result = docs_of docs (req.app_data cnt) >>= λ listed.
    in_buffer (compute_intersection result listed (tmp (cnt % 2))) >>= λ next.
    let rest = intersect_words n (cnt + 1) docs req (update tmp (cnt % 2) next) next in
    if next 0 == 0 then some next else rest

-- `query_word_ids[0]`, which without a word is what stood in the memory of the array
abbrev pub first_word : ℕ → Message → ℕ
first_word stack req = if req.run_ns == 0 then stack else req.app_data 0

-- `search_work`, with what stood in the memory of its arrays. More words than `query_word_ids` takes are
-- a fault. The result is the list that the returned pointer leads to at the return.
unfoldable pub search_work : (ℕ → ℕ → ℕ) → ℕ → (ℕ → ℕ → ℕ) → Message → Option (ℕ → ℕ)
unfolding intersect_words
search_work docs stack tmp req =
    if leb req.run_ns max_query_words
    then docs_of docs (first_word stack req) >>= intersect_words (req.run_ns - 1) 1 docs req tmp
    else none
