-- ===== src/Mempool/Available.antt =====
-- How many elements `mempool_alloc` and `mempool_free` leave.
use horus_app_eval.Prelude.{
  ℕ, ◌+◌, ◌<◌, ◌≡◌, ◌⊎◌, refl, Option, none, some, arith, ap, length, ◌∙◌, inl, inr,
}
use horus_app_eval.Mempool.{Mempool, alloc, free}
use horus_app_eval.Mempool.Count.{cells, available, Allocated, alloc-Allocated, cells-free}

pub available-free : (m : Mempool) (x : ℕ) → available (free m x) ≡ available m + 1
unfolding available
available-free m x = omega (arith, ap length (cells-free m x))

-- how many elements `mempool_alloc` leaves
abbrev pub AllocCount : ℕ → Option ℕ × Mempool → Type 0
AllocCount n (none, m') = (n ≡ 0) × (available m' ≡ 0)
AllocCount n (some x, m') = n ≡ available m' + 1

to_AllocCount : (m : Mempool) (r : Option ℕ × Mempool) → Allocated m r → AllocCount (available m) r
unfolding available
to_AllocCount m (none, m') h =
    let e : length (cells m) ≡ 0 = ap length h.0 in
    (e, ap (λ (n : Mempool). length (cells n)) h.1 ∙ e)
to_AllocCount m (some x, m') h = omega (arith, ap length h)

pub alloc-AllocCount : (m : Mempool) → AllocCount (available m) (alloc m)
alloc-AllocCount m = to_AllocCount m (alloc m) (alloc-Allocated m)

alloc_room_cases :
    (n : ℕ) (r : Option ℕ × Mempool)
    → AllocCount n r
    → 0 < n
    → (c : ℕ) × (pool : Mempool) × (r ≡ (some c, pool)) × (n ≡ available pool + 1)
alloc_room_cases n (none, pool) h lt = absurd (omega (arith, h))
alloc_room_cases n (some c, pool) h lt = (c, pool, refl, h)

-- With a free element `mempool_alloc` does not return NULL.
pub alloc_room :
    (m : Mempool)
    → 0 < available m
    → (c : ℕ) × (pool : Mempool) × (alloc m ≡ (some c, pool)) × (available m ≡ available pool + 1)
alloc_room m lt = alloc_room_cases (available m) (alloc m) (alloc-AllocCount m) lt

alloc_cases_of :
    (m : Mempool) (r : Option ℕ × Mempool)
    → Allocated m r
    → ((r ≡ (none, m)) × (available m ≡ 0))
      ⊎ ((c : ℕ) × (pool : Mempool) × (r ≡ (some c, pool)) × (available m ≡ available pool + 1))
unfolding available
alloc_cases_of m (none, pool) h = inl (ap (λ (p : Mempool). (none, p)) h.1, ap length h.0)
alloc_cases_of m (some c, pool) h = inr (c, pool, refl, omega (arith, ap length h))

pub alloc-cases :
    (m : Mempool)
    → ((alloc m ≡ (none, m)) × (available m ≡ 0))
      ⊎ ((c : ℕ) × (pool : Mempool) × (alloc m ≡ (some c, pool))
          × (available m ≡ available pool + 1))
alloc-cases m = alloc_cases_of m (alloc m) (alloc-Allocated m)
