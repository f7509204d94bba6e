-- ===== src/Net/Receive/Batch.antt =====
-- How many mbufs a batch has, and how many rounds it takes.
use horus_app_eval.Prelude.{
  ℕ, zero, suc, ◌+◌, ◌≤◌, ◌<◌, ◌≡◌, refl, arith, Bool, true, false, Option, some, List, [], ◌∷◌,
  ◌++◌, length, length-append, if◌then◌else◌, ◌>>=◌, Bool-cases, List-cases, inl, inr, ap, ◌∙◌,
  update,
}
use horus_app_eval.Mempool.{Mempool}
use horus_app_eval.Message.{eth_rx_max_batch}
use horus_app_eval.Net.Input.{Verdict, accepted, dropped, exits, eth_input}
use horus_app_eval.Net.Receive.{
  Rx, keep, recv_queue, recv_round, recv_rounds, goes_on, eth_process_recv,
}

abbrev count : Rx → ℕ
count r = length r.recv_mbufs

-- One queue gives one mbuf at most, and there is room for one.
record Took (r : Rx) (o : Option (Bool × Rx)) : Type 0 where
  pub got : Bool
  pub after : Rx
  pub runs : o ≡ some (got, after)
  pub one : count after ≡ count r + (if got then 1 else 0)

keep-Took :
    (m : ℕ) (v : Verdict × Mempool) (r : Rx) → count r < eth_rx_max_batch → Took r (keep m v r)
unfolding keep
keep-Took m (accepted, pool) r room = record {
  got = true;
  after = record r { mbuf_pool = pool; recv_mbufs = r.recv_mbufs ++ (m ∷ []) };
  runs = ground arith;
  one = length-append r.recv_mbufs (m ∷ []);
}
keep-Took m (dropped, pool) r room = record {
  got = false;
  after = record r { mbuf_pool = pool };
  runs = refl;
  one = omega arith;
}
keep-Took m (exits, pool) r room = record {
  got = false;
  after = record r { mbuf_pool = pool; exited = true };
  runs = refl;
  one = omega arith;
}

Took-of :
    {r r' : Rx} {o o' : Option (Bool × Rx)} → o ≡ o' → count r' ≡ count r → Took r' o' → Took r o
Took-of e same t = record {
  got = t.got;
  after = t.after;
  runs = e ∙ t.runs;
  one = t.one ∙ ap (λ (k : ℕ). k + (if t.got then 1 else 0)) same;
}

recv_queue-empty : (i : ℕ) (r : Rx) → r.queues i ≡ [] → recv_queue i r ≡ some (false, r)
unfolding recv_queue
recv_queue-empty i r e = ground (arith, e)

recv_queue-queued :
    (i : ℕ) (r : Rx) (m : ℕ) (ms : List ℕ)
    → r.queues i ≡ m ∷ ms
    → recv_queue i r
      ≡ keep m (eth_input r.mbuf_pool m (r.packets m)) (record r { queues = update r.queues i ms })
unfolding recv_queue
recv_queue-queued i r m ms e = ground (arith, e)

recv_queue-Took : (i : ℕ) (r : Rx) → count r < eth_rx_max_batch → Took r (recv_queue i r)
recv_queue-Took i r room = elim (List-cases (r.queues i)) [
  | inl e ↦ record { got = false; after = r; runs = recv_queue-empty i r e; one = omega arith }
  | inr (m, ms, e) ↦ Took-of (recv_queue-queued i r m ms e) refl (
      keep-Took m (eth_input r.mbuf_pool m (r.packets m))
        (record r { queues = update r.queues i ms }) room)
]

one_round :
    (r : Rx) (got : Bool) (after : Rx)
    → recv_queue 0 r ≡ some (got, after)
    → recv_round 1 0 false r ≡ some (got, after)
unfolding recv_round
one_round r got after e = rw (e, ◌>>=◌) refl

few :
    (got : Bool) (n n' : ℕ)
    → n < eth_rx_max_batch
    → n' ≡ n + (if got then 1 else 0)
    → n' ≤ eth_rx_max_batch
few got n n' room one = ground (arith, one)

fueled :
    (n : ℕ) (r : Rx) {r' : Rx}
    → count r < eth_rx_max_batch
    → eth_rx_max_batch ≤ n + count r
    → ((k : ℕ) → n ≡ suc k → recv_rounds (suc k) 1 r ≡ some r')
    → recv_rounds n 1 r ≡ some r'
fueled zero r room fuel step = absurd (omega arith)
fueled (suc k) r room fuel step = step k refl

-- a round of the outer loop that is the last, and one that is not
last_round :
    (n : ℕ) (r : Rx) (got : Bool) (after : Rx)
    → recv_queue 0 r ≡ some (got, after)
    → goes_on (got, after) ≡ false
    → recv_rounds (suc n) 1 r ≡ some after
unfolding recv_rounds
last_round n r got after e stops = rw (one_round r got after e, ◌>>=◌, stops) refl

next_round :
    (n : ℕ) (r : Rx) (got : Bool) (after : Rx)
    → recv_queue 0 r ≡ some (got, after)
    → goes_on (got, after) ≡ true
    → recv_rounds (suc n) 1 r ≡ recv_rounds n 1 after
unfolding recv_rounds
next_round n r got after e more = rw (one_round r got after e, ◌>>=◌, more) refl

goes_on-true :
    (got : Bool) (r : Rx) → goes_on (got, r) ≡ true → (got ≡ true) × (count r < eth_rx_max_batch)
unfolding goes_on
goes_on-true got r h = ground (arith, h)

Finishes : Rx → Type 0
Finishes r =
    (r' : Rx) × (count r' ≤ eth_rx_max_batch)
    × ((n : ℕ) → eth_rx_max_batch ≤ n + count r → recv_rounds n 1 r ≡ some r')

rounds-Finishes :
    (d : ℕ) (r : Rx) → count r < eth_rx_max_batch → eth_rx_max_batch ≤ d + count r → Finishes r
unfolding Finishes
rounds-Finishes zero r room enough = absurd (omega arith)
rounds-Finishes (suc d) r room enough =
    let t = recv_queue-Took 0 r room in
    elim (Bool-cases (goes_on (t.got, t.after))) [
      | inl more ↦
          let g = goes_on-true t.got t.after more in
          let grown = t.one ∙ ap (λ (b : Bool). count r + (if b then 1 else 0)) g.0 in
          let rest = rounds-Finishes d t.after g.1 (omega (arith, grown)) in
          (
            rest.0,
            rest.1,
            λ n fuel. fueled n r room fuel (λ k e.
                next_round k r t.got t.after t.runs more ∙ rest.2 k (omega (arith, grown, e))),
          )
      | inr stops ↦ (
        t.after,
        few t.got (count r) (count t.after) room t.one,
        λ n fuel. fueled n r room fuel (λ k e. last_round k r t.got t.after t.runs stops),
      )
    ]

-- With one receive queue `eth_process_recv` returns with at most six mbufs, none written past the end of
-- `recv_mbufs`, and six rounds of its loop are enough: more give the same.
pub eth_process_recv-batch :
    (r : Rx)
    → (r' : Rx) × (eth_process_recv 1 r ≡ some r')
      × (length r'.recv_mbufs ≤ eth_rx_max_batch)
      × ((n : ℕ) → eth_rx_max_batch ≤ n → recv_rounds n 1 (record r { recv_mbufs = [] }) ≡ some r')
unfolding eth_process_recv Finishes
eth_process_recv-batch r =
    let f =
      rounds-Finishes eth_rx_max_batch (record r { recv_mbufs = [] }) (omega arith) (omega arith) in
    (f.0, f.2 eth_rx_max_batch (omega arith), f.1, λ n enough. f.2 n (omega (arith, enough)))
