-- ===== src/Mempool/Store/Layout.antt =====
-- Which elements `mempool_init_buf_with_pages` puts in which chunk.
use horus_app_eval.Prelude.{
  ℕ, zero, suc, ◌+◌, ◌*◌, ◌/◌, ◌%◌, ◌<◌, ◌≡◌, refl, sym, ap, ap₂, ◌∙◌, List, [], ◌∷◌, ◌++◌, ◌==◌,
  arith, length, length-append, append_assoc, append-nil, inl, inr, Bool-cases,
}
use mathlib.Core.Path.{subst}
use horus_app_eval.Mempool.{Chunk, to_chunk}
use horus_app_eval.Mempool.Count.{chunk_cells}
use horus_app_eval.Mempool.Store.{
  Build, add_cell, fill_page, fill_pages, init_buf, empty_build, push_chunk, page_size,
}

-- every chunk of the chain has exactly `size` elements
abbrev pub Uniform : ℕ → List Chunk → Type 0
Uniform size [] = Unit {0}
Uniform size (c ∷ cs) = (length (chunk_cells c) ≡ size) × Uniform size cs

-- the elements of the chunks of a chain, whose last chunk is the oldest, in the order of their making
abbrev pub oldest_first : List Chunk → List ℕ
oldest_first [] = []
oldest_first (c ∷ cs) = oldest_first cs ++ chunk_cells c

-- the address of the element `k` of a buffer with `per` elements of `len` bytes on each page
abbrev pub address : ℕ → ℕ → ℕ → ℕ → ℕ
address buf per len k = buf + k / per * page_size + k % per * len

-- the addresses of the elements from `k` on, `n` of them
abbrev pub addresses : (ℕ → ℕ) → ℕ → ℕ → List ℕ
addresses at k zero = []
addresses at k (suc n) = addresses at k n ++ (at (k + n) ∷ [])

addresses-append :
    (at : ℕ → ℕ) (k m n : ℕ) → addresses at k m ++ addresses at (k + m) n ≡ addresses at k (m + n)
addresses-append at k m zero =
    let e : m ≡ m + 0 = omega arith in append-nil (addresses at k m) ∙ ap (addresses at k) e
addresses-append at k m (suc n) =
    let e : suc (m + n) ≡ m + suc n = omega arith in
    let f : k + m + n ≡ k + (m + n) = omega arith in
    sym (append_assoc (addresses at k m) (addresses at (k + m) n) (at (k + m + n) ∷ []))
    ∙ ap₂ (λ (l : List ℕ) (a : ℕ). l ++ (a ∷ [])) (addresses-append at k m n) (ap at f)
    ∙ ap (addresses at k) e

pub length-addresses : (at : ℕ → ℕ) (k n : ℕ) → length (addresses at k n) ≡ n
length-addresses at k zero = refl
length-addresses at k (suc n) =
    omega (arith, length-append (addresses at k n) (at (k + n) ∷ []), length-addresses at k n)

-- After `n` elements, of which `full` are in full chunks and the rest in an unfinished one: each at its
-- address.
pub record Built (at : ℕ → ℕ) (size n : ℕ) (b : Build) : Type 0 where
  pub full : ℕ
  pub uniform : Uniform size b.chunks
  pub partial : b.chunk_count < size
  pub all_cells : full + b.chunk_count ≡ n
  pub made : oldest_first b.chunks ≡ addresses at 0 full
  pub open_made : b.open_cells ≡ addresses at full b.chunk_count

push_chunk_lem :
    (size : ℕ) (xs : List ℕ) (cs : List Chunk)
    → 0 < size
    → length xs ≡ size
    → Uniform size cs
    → Uniform size (push_chunk (to_chunk xs) cs)
      × (oldest_first (push_chunk (to_chunk xs) cs) ≡ oldest_first cs ++ xs)
push_chunk_lem size [] cs h e u = absurd (omega arith)
push_chunk_lem size (x ∷ xs) cs h e u = ((e, u), refl)

module _ (at : ℕ → ℕ) (size : ℕ) where
  longer :
      (n : ℕ) (b : Build) (v : Built at size n b)
      → b.open_cells ++ (at n ∷ []) ≡ addresses at v.full (suc b.chunk_count)
  longer n b v = ap₂ (λ (l : List ℕ) (k : ℕ). l ++ (at k ∷ [])) v.open_made (sym v.all_cells)

  add_cell-full :
      (n : ℕ) (b : Build)
      → b.chunk_count + 1 ≡ size
      → Built at size n b
      → Built at size (n + 1) (record {
        chunks = push_chunk (to_chunk (b.open_cells ++ (at n ∷ []))) b.chunks;
        open_cells = [];
        chunk_count = 0;
        num_chunks = b.num_chunks + 1;
      })
  add_cell-full n b e v =
      let chain = longer n b v in
      let zero_start : v.full ≡ 0 + v.full = omega arith in
      let whole : suc b.chunk_count ≡ size = omega (arith, e) in
      let (uniform, made) =
        push_chunk_lem size (b.open_cells ++ (at n ∷ [])) b.chunks (omega (arith, e))
          (ap length chain ∙ length-addresses at v.full (suc b.chunk_count) ∙ whole) v.uniform in
      record {
        full = v.full + suc b.chunk_count;
        uniform = uniform;
        partial = omega (arith, e);
        all_cells = omega (arith, v.all_cells);
        made =
            made
            ∙ ap₂ (λ (l r : List ℕ). l ++ r) v.made
                (chain ∙ ap (λ (k : ℕ). addresses at k (suc b.chunk_count)) zero_start)
            ∙ addresses-append at 0 v.full (suc b.chunk_count);
        open_made = refl;
      }

  add_cell-Built :
      (n : ℕ) (b : Build) (cur : ℕ)
      → at n ≡ cur
      → Built at size n b
      → Built at size (n + 1) (add_cell size b cur)
  unfolding add_cell
  add_cell-Built n b cur here v =
      subst (λ c. Built at size (n + 1) (add_cell size b c)) here
        (elim (Bool-cases (b.chunk_count + 1 == size)) [
          | inl e ↦ rw e (add_cell-full n b (ground arith) v)
          | inr e ↦ rw e (record {
            full = v.full;
            uniform = v.uniform;
            partial = ground (arith, v.partial);
            all_cells = omega (arith, v.all_cells);
            made = v.made;
            open_made =
                let f : suc b.chunk_count ≡ b.chunk_count + 1 = omega arith in
                longer n b v ∙ ap (addresses at v.full) f;
          })
        ])

address_eq :
    (buf per len i j : ℕ)
    → j < per
    → address buf per len (i * per + j) ≡ buf + i * page_size + j * len
address_eq buf per len i j lt =
    let q : (i * per + j) / per ≡ i = grind arith in
    let r : (i * per + j) % per ≡ j = grind arith in
    ap₂ (λ (a b : ℕ). buf + a * page_size + b * len) q r

module _ (size buf per len : ℕ) where
  -- the rest of the page `i`, from its element `j` on
  fill_page-Built :
      (k i j cur : ℕ) (b : Build)
      → j + k ≡ per
      → cur ≡ buf + i * page_size + j * len
      → Built (address buf per len) size (i * per + j) b
      → Built (address buf per len) size (i * per + per) (fill_page size len k cur b)
  unfolding fill_page
  fill_page-Built zero i j cur b e here v =
      let f : i * per + j ≡ i * per + per = omega (arith, e) in
      subst (λ n. Built (address buf per len) size n b) f v
  fill_page-Built (suc k) i j cur b e here v =
      let f : i * per + j + 1 ≡ i * per + (j + 1) = omega arith in
      fill_page-Built k i (j + 1) (cur + len) (add_cell size b cur) (omega (arith, e))
        (grind (arith, here))
        (subst (λ n. Built (address buf per len) size n (add_cell size b cur)) f
          (add_cell-Built (address buf per len) size (i * per + j) b cur
            (address_eq buf per len i j (omega (arith, e)) ∙ sym here) v))

  fill_pages-Built :
      (k i start : ℕ) (b : Build)
      → start ≡ buf + i * page_size
      → Built (address buf per len) size (i * per) b
      → Built (address buf per len) size ((i + k) * per) (fill_pages size len per k start b)
  unfolding fill_pages
  fill_pages-Built zero i start b here v =
      let f : i * per ≡ (i + 0) * per = grind arith in
      subst (λ n. Built (address buf per len) size n b) f v
  fill_pages-Built (suc k) i start b here v =
      let f : i * per ≡ i * per + 0 = omega arith in
      let g : i * per + per ≡ (i + 1) * per = grind arith in
      let h : (i + 1 + k) * per ≡ (i + suc k) * per = grind arith in
      let page = fill_page size len per start b in
      subst (λ n. Built (address buf per len) size n (fill_pages size len per (suc k) start b)) h
        (fill_pages-Built k (i + 1) (start + page_size) page (omega (arith, here)) (
          subst (λ n. Built (address buf per len) size n page) g
            (fill_page-Built per i 0 start b (omega arith) (omega (arith, here))
              (subst (λ n. Built (address buf per len) size n b) f v))))

  pub init_buf-Built :
      (pages : ℕ)
      → 0 < size
      → Built (address buf per len) size (pages * per) (init_buf size buf per pages len)
  unfolding init_buf
  init_buf-Built pages h =
      let f : (0 + pages) * per ≡ pages * per = grind arith in
      subst
        (λ n. Built (address buf per len) size n (fill_pages size len per pages buf empty_build)) f
        (fill_pages-Built pages 0 buf empty_build (omega arith) (record {
          full = 0;
          uniform = tt;
          partial = h;
          all_cells = omega arith;
          made = refl;
          open_made = refl;
        }))
