-- ===== src/Mempool/Store/Capacity.antt =====
-- A datastore holds at least the elements that were asked for, in chunks of equal size.
use horus_app_eval.Prelude.{ℕ, ◌+◌, ◌*◌, ◌/◌, ◌%◌, ◌≤◌, ◌<◌, ◌≡◌, arith}
use native.Mathlib.Decide.{dec_lt}
use horus_app_eval.Mempool.{Datastore}
use horus_app_eval.Mempool.Store.{align_up, div_up, page_size}
use horus_app_eval.Mempool.Store.Layout.{Uniform, oldest_first, address, addresses}

mul_mono : (a b c : ℕ) → a ≤ b → a * c ≤ b * c
mul_mono a b c h = grind arith

abbrev cell_len : ℕ → ℕ
cell_len elem_len = align_up elem_len 8

abbrev cells_per_page : ℕ → ℕ
cells_per_page elem_len = page_size / cell_len elem_len

page_fits : (len : ℕ) → page_size / len * len ≤ page_size
page_fits len = grind arith

-- An element lies within its page.
on_page : (len k : ℕ) → 0 < page_size / len → k % (page_size / len) * len + len ≤ page_size
on_page len k some_fit =
    let per = page_size / len in
    let below : k % per < per = grind arith in
    let rows : (k % per + 1) * len ≤ per * len =
      mul_mono (k % per + 1) per len (omega (arith, below)) in
    let split : (k % per + 1) * len ≡ k % per * len + len = grind arith in
    omega (arith, rows, split, page_fits len)

module _ (buf len : ℕ) (some_fit : 0 < page_size / len) where
  -- Elements do not overlap.
  apart :
      (i j : ℕ)
      → i < j
      → address buf (page_size / len) len i + len ≤ address buf (page_size / len) len j
  apart i j lt =
      let per = page_size / len in
      let row : i / per ≤ j / per = grind arith in
      elim (dec_lt (i / per) (j / per)) [
        | yes later ↦
            let pages : (i / per + 1) * page_size ≤ j / per * page_size =
              mul_mono (i / per + 1) (j / per) page_size (omega (arith, later)) in
            omega (arith, pages, on_page len i some_fit)
        | no here ↦
            let same : i / per ≡ j / per = omega (arith, row, here) in
            let col : i % per < j % per = grind (arith, same) in
            let step : (i % per + 1) * len ≤ j % per * len =
              mul_mono (i % per + 1) (j % per) len (omega (arith, col)) in
            let split : (i % per + 1) * len ≡ i % per * len + len = grind arith in
            omega (arith, step, split, same)
      ]

  -- They lie within the pages of the buffer.
  inside :
      (pages k : ℕ)
      → k < pages * (page_size / len)
      → address buf (page_size / len) len k + len ≤ buf + pages * page_size
  inside pages k lt =
      let per = page_size / len in
      let row : k / per < pages = grind arith in
      let up : (k / per + 1) * page_size ≤ pages * page_size =
        mul_mono (k / per + 1) pages page_size (omega (arith, row)) in
      omega (arith, up, on_page len k some_fit)

-- What a datastore with the elements of the buffer at `buf` in its chunks is to be.
pub record Covered (nr_elems elem_len size buf : ℕ) (d : Datastore) : Type 0 where
  pub count : ℕ
  pub enough : nr_elems ≤ count
  pub uniform : Uniform size d.chunks
  pub made :
      oldest_first d.chunks
      ≡ addresses (address buf (cells_per_page elem_len) (cell_len elem_len)) 0 count
  pub apart :
      (i j : ℕ)
      → i < j
      → address buf (cells_per_page elem_len) (cell_len elem_len) i + cell_len elem_len
        ≤ address buf (cells_per_page elem_len) (cell_len elem_len) j
  pub inside :
      (k : ℕ)
      → k < count
      → address buf (cells_per_page elem_len) (cell_len elem_len) k + cell_len elem_len
        ≤ buf + div_up nr_elems (cells_per_page elem_len) * page_size
