-- ===== src/Networker/Loop/Release.antt =====
-- The release of the returned requests: which mbufs and requests it gives back.
use horus_app_eval.Prelude.{
  ℕ, zero, suc, ◌+◌, ◌≤◌, ◌<◌, ◌≡◌, refl, sym, ap, ◌∙◌, arith, Option, none, some, List, [], ◌∷◌,
  ◌++◌, lt→ltb, ◌>>=◌,
}
use horus_app_eval.Mempool.{Mempool, free}
use horus_app_eval.Mempool.Count.{available, cells, cells-free, freed, freed-append}
use horus_app_eval.Mempool.Available.{available-free}
use horus_app_eval.Server.{Request}
use horus_app_eval.Networker.Loop.{NetworkerCore, mbuf_free, free_mbufs, release_slot, release}

-- a request that is whole: each of its packets has an mbuf
pub record IsWhole (r : Request) : Type 0 where
  pub short : r.pkts_length ≤ 8
  pub present : (j : ℕ) → j < r.pkts_length → (m : ℕ) × (r.mbufs j ≡ some m)

-- the slots from `i` on, `n` of them, hold whole requests
abbrev pub Returned : ℕ → ℕ → (ℕ → Option ℕ) → (ℕ → Request) → Type 0
Returned zero i reqs requests = Unit {0}
Returned (suc n) i reqs requests =
    ((r : ℕ) × (reqs i ≡ some r) × IsWhole (requests r)) × Returned n (i + 1) reqs requests

abbrev pub entry : Option ℕ → List ℕ → List ℕ
entry none l = l
entry (some m) l = m ∷ l

-- what `n` cells of an array hold, from the cell `i` on
abbrev pub slots : ℕ → ℕ → (ℕ → Option ℕ) → List ℕ
slots zero i a = []
slots (suc n) i a = entry (a i) (slots n (i + 1) a)

abbrev pub mbufs_in : Option ℕ → (ℕ → Request) → List ℕ
mbufs_in none requests = []
mbufs_in (some r) requests = slots (requests r).pkts_length 0 (requests r).mbufs

-- the mbufs of the requests in these slots
abbrev pub returned_mbufs : ℕ → ℕ → (ℕ → Option ℕ) → (ℕ → Request) → List ℕ
returned_mbufs zero i reqs requests = []
returned_mbufs (suc n) i reqs requests =
    mbufs_in (reqs i) requests ++ returned_mbufs n (i + 1) reqs requests

free_mbufs-cells :
    (n j : ℕ) (r : Request) (pool : Mempool)
    → j + n ≤ 8
    → ((k : ℕ) → k < j + n → (m : ℕ) × (r.mbufs k ≡ some m))
    → (pool' : Mempool) × (free_mbufs n j r pool ≡ some pool')
      × (cells pool' ≡ freed (slots n j r.mbufs) (cells pool))
unfolding free_mbufs mbuf_free
free_mbufs-cells zero j r pool short present = (pool, refl, refl)
free_mbufs-cells (suc n) j r pool short present =
    let (m, e) = present j (omega arith) in
    let (pool', e', same) =
      free_mbufs-cells n (j + 1) r (free pool m) (omega arith) (λ k lt. present k (omega arith)) in
    (
      pool',
      rw (lt→ltb j 8 (omega arith), e, ◌>>=◌) e',
      same
          ∙ ap (freed (slots n (j + 1) r.mbufs)) (cells-free pool m)
          ∙ ap (λ (o : Option ℕ). freed (entry o (slots n (j + 1) r.mbufs)) (cells pool)) (sym e),
    )

abbrev pub with_pools : NetworkerCore → Mempool → Mempool → NetworkerCore
with_pools c mbufs requests = record c {
  mbuf_pool = mbufs;
  net = record (c.net) { request_pool = requests };
}

-- No slot or request changes but for the two pools, which hold what was returned.
pub release-cells :
    (n i : ℕ) (c : NetworkerCore)
    → Returned n i c.pointers.reqs c.net.requests
    → (mbufs : Mempool) × (requests : Mempool) × (release n i c
        ≡ some (with_pools c mbufs requests))
      × (cells mbufs
          ≡ freed (returned_mbufs n i c.pointers.reqs c.net.requests) (cells c.mbuf_pool))
      × (cells requests ≡ freed (slots n i c.pointers.reqs) (cells c.net.request_pool))
      × (available requests ≡ available c.net.request_pool + n)
unfolding release release_slot
release-cells zero i c h = (c.mbuf_pool, c.net.request_pool, refl, refl, refl, omega arith)
release-cells (suc n) i c ((r, e, whole), rest) =
    let req = c.net.requests r in
    let (pool, run, same) =
      free_mbufs-cells req.pkts_length 0 req c.mbuf_pool (omega (arith, whole.short))
        (λ k lt. whole.present k (omega arith)) in
    let c1 = with_pools c pool (free c.net.request_pool r) in
    let (mbufs, requests, e', m_cells, r_cells, r_count) = release-cells n (i + 1) c1 rest in
    let later = returned_mbufs n (i + 1) c.pointers.reqs c.net.requests in
    (
      mbufs,
      requests,
      rw (e, ◌>>=◌, run) e',
      m_cells
          ∙ ap (freed later) same
          ∙ sym (freed-append (mbufs_in (some r) c.net.requests) later (cells c.mbuf_pool))
          ∙ ap (λ (o : Option ℕ). freed (mbufs_in o c.net.requests ++ later) (cells c.mbuf_pool))
              (sym e),
      r_cells
          ∙ ap (freed (slots n (i + 1) c.pointers.reqs)) (cells-free c.net.request_pool r)
          ∙ ap
              (λ (o : Option ℕ).
                freed (entry o (slots n (i + 1) c.pointers.reqs)) (cells c.net.request_pool))
              (sym e),
      omega (arith, r_count, available-free c.net.request_pool r),
    )
