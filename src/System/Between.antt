-- ===== src/System/Between.antt =====
-- What a worker reads of its queue while `handle_networker` (dp/core/dispatcher.c) takes in a batch.
use horus_app_eval.Prelude.{
  ℕ, zero, suc, ◌+◌, ◌-◌, ◌<◌, ◌≤◌, ◌^◌, ◌≡◌, ◌≢◌, refl, sym, ap, ◌∙◌, true, arith, Option, some,
  >>=_some,
}
use mathlib.Core.Path.{subst}
use horus_app_eval.Message.{pkt_type_task_done_idle}
use horus_app_eval.Context.{Contexts, context_alloc}
use horus_app_eval.Server.{Server, NetworkerPointers}
use horus_app_eval.TaskQueue.{tskq_enqueue_tail, request_enqueue}
use horus_app_eval.Worker.{reply_type}
use horus_app_eval.Dispatcher.{admit, admit_all, count_new}
use horus_app_eval.System.{System, Reach}
use horus_app_eval.System.View.{Inv, holds, load_bound}
use horus_app_eval.System.Steps.Accept.{admit-Inv, admit_all-Inv}
use horus_app_eval.System.Steps.Work.{reply_type-idle}
use horus_app_eval.System.Safety.{IsFresh, reached}

-- One slot lengthens a queue or leaves it, and marks only a worker whose queue it lengthens.
admit-le :
    (i now c : ℕ) (s t : Server)
    → s.queue_length c + 1 < 2 ^ 32
    → admit i now s ≡ some t
    → s.queue_length c ≤ t.queue_length c
unfolding admit tskq_enqueue_tail request_enqueue
admit-le i now c s t small e = ground arith

admit-marks :
    (i now c : ℕ) (s t : Server)
    → s.queue_length c + 1 < 2 ^ 32
    → admit i now s ≡ some t
    → t.queue_length c ≡ s.queue_length c
    → t.worker_state c ≡ s.worker_state c
unfolding admit tskq_enqueue_tail request_enqueue
admit-marks i now c s t small e same = ground arith

admit-counts :
    (i now cont : ℕ) (s t : Server) (d : Contexts)
    → s.queue_length (s.networker_pointers.types i) + 1 < 2 ^ 32
    → context_alloc s.contexts ≡ (some cont, d)
    → admit i now s ≡ some t
    → t.queue_length (s.networker_pointers.types i)
      ≡ s.queue_length (s.networker_pointers.types i) + 1
unfolding admit tskq_enqueue_tail request_enqueue
admit-counts i now cont s t d small got e = ground arith

-- what slots do to the worker `c`
record Grown (c : ℕ) (s t : Server) : Type 0 where
  longer : s.queue_length c ≤ t.queue_length c
  marks : t.queue_length c ≡ s.queue_length c → t.worker_state c ≡ s.worker_state c
  pointers : t.networker_pointers ≡ s.networker_pointers

some_eq : {s t : Server} → ◌≡◌ {A = Option Server} (some s) (some t) → s ≡ t
some_eq h = cc

slots_left :
    (s t : Server) (i m : ℕ)
    → t.networker_pointers ≡ s.networker_pointers
    → i + suc m ≤ s.networker_pointers.cnt
    → i + 1 + m ≤ t.networker_pointers.cnt
slots_left s t i m same h = omega (arith, h, ap (λ (p : NetworkerPointers). p.cnt) same)

-- A queue length of a reachable state is far from the end of its word.
short_queue :
    {n cap room : ℕ} (s : System) (c : ℕ)
    → Inv n cap room s
    → c < n
    → s.server.queue_length c + 1 < 2 ^ 32
short_queue s c inv lt = omega (arith, (inv.core c lt).counted, load_bound s c inv lt)

admit_all-Grown :
    {n cap room : ℕ} (m i now c : ℕ) (s : System) (t : Server)
    → i + m ≤ s.server.networker_pointers.cnt
    → Inv n cap room s
    → c < n
    → admit_all m i now s.server ≡ some t
    → Grown c s.server t
unfolding admit_all
admit_all-Grown zero i now c s t slots inv lt e =
    subst (Grown c s.server) (some_eq e)
      (record { longer = omega arith; marks = λ _. refl; pointers = refl })
admit_all-Grown (suc m) i now c s t slots inv lt e =
    let (u, first, rest) = >>=_some (admit i now s.server) (admit_all m (i + 1) now) e in
    let (inv', same) = admit-Inv i now s u (omega arith) inv first in
    let later =
      admit_all-Grown m (i + 1) now c (record s { server = u }) t
        (slots_left s.server u i m same slots) inv' lt rest in
    let small = short_queue s c inv lt in
    let le = admit-le i now c s.server u small first in
    record {
      longer = omega (arith, le, later.longer);
      marks = λ unchanged.
          later.marks (omega (arith, le, later.longer, unchanged))
          ∙ admit-marks i now c s.server u small first (omega (arith, le, later.longer, unchanged));
      pointers = later.pointers ∙ same;
    }

-- The slots from `k` on, where all `n` come through.
admit_all-rest :
    (k m n i now : ℕ) (s v u : Server)
    → k + m ≡ n
    → admit_all k i now s ≡ some v
    → admit_all n i now s ≡ some u
    → admit_all m (i + k) now v ≡ some u
unfolding admit_all
admit_all-rest zero m n i now s v u total first all =
    let e : n ≡ m = omega arith in
    let f : i ≡ i + 0 = omega arith in
    subst (λ j. admit_all m j now v ≡ some u) f
      (subst (λ w. admit_all m i now w ≡ some u) (some_eq first)
        (subst (λ j. admit_all j i now s ≡ some u) e all))
admit_all-rest (suc k) m zero i now s v u total first all = absurd (omega arith)
admit_all-rest (suc k) m (suc n) i now s v u total first all =
    let (a, one, rest) = >>=_some (admit i now s) (admit_all k (i + 1) now) first in
    let (b, other, whole) = >>=_some (admit i now s) (admit_all n (i + 1) now) all in
    let f : i + 1 + k ≡ i + suc k = omega arith in
    subst (λ j. admit_all m j now v ≡ some u) f
      (admit_all-rest k m n (i + 1) now a v u (omega arith) rest
        (subst (λ w. admit_all n (i + 1) now w ≡ some u) (some_eq (sym other ∙ one)) whole))

zero_plus : (k : ℕ) → 0 + k ≡ k
zero_plus k = omega arith

-- The next slot is not for a worker whose queue is no longer at the end.
not_counted :
    {n cap room : ℕ} (m k now c cont : ℕ) (s : System) (u : Server) (cs : Contexts)
    → k + suc m ≤ s.server.networker_pointers.cnt
    → Inv n cap room s
    → c < n
    → admit_all (suc m) k now s.server ≡ some u
    → context_alloc s.server.contexts ≡ (some cont, cs)
    → u.queue_length c ≡ s.server.queue_length c
    → s.server.networker_pointers.types k ≢ c
unfolding admit_all
not_counted m k now c cont s u cs slots inv lt all got same this =
    let (w, first, rest) = >>=_some (admit k now s.server) (admit_all m (k + 1) now) all in
    let (inv', kept) = admit-Inv k now s w (omega arith) inv first in
    let later =
      admit_all-Grown m (k + 1) now c (record s { server = w }) u
        (slots_left s.server w k m kept slots) inv' lt rest in
    let one : w.queue_length c ≡ s.server.queue_length c + 1 =
      subst (λ x. w.queue_length x ≡ s.server.queue_length x + 1) this
        (admit-counts k now cont s.server w cs
          (subst (λ x. s.server.queue_length x + 1 < 2 ^ 32) (sym this) (short_queue s c inv lt))
          got first) in
    omega (arith, one, later.longer, same)

count_new-ne :
    (s : Server) (core c : ℕ) → core ≢ c → (count_new s core).queue_length c ≡ s.queue_length c
unfolding count_new
count_new-ne s core c ne = ground arith

module _ {n cap room : ℕ} {s t : System} (fresh : IsFresh n cap room s) (r : Reach n s t) where
  -- While `handle_networker` takes in a batch, for a worker at work: if its queue length is 1 when all slots
  -- are done, and its idle mark is set, then after each number of slots, and also once the next task is
  -- counted and not queued yet, its queue length is 1; after each number of slots its mark is the one at
  -- the end, and the reply that it makes is TASK_DONE_IDLE.
  pub reply_type-between :
      (now k : ℕ) (v u : Server) (c : ℕ)
      → c < n
      → t.busy c ≡ true
      → k ≤ t.server.networker_pointers.cnt
      → admit_all k 0 now t.server ≡ some v
      → admit_all t.server.networker_pointers.cnt 0 now t.server ≡ some u
      → u.queue_length c ≡ 1
      → 0 < u.worker_state c
      → (v.queue_length c ≡ 1)
        × ((cont : ℕ) (cs : Contexts)
            → k < t.server.networker_pointers.cnt
            → context_alloc v.contexts ≡ (some cont, cs)
            → (count_new (record v { contexts = cs }) (v.networker_pointers.types k)).queue_length c
              ≡ 1)
        × (v.worker_state c ≡ u.worker_state c)
        × (reply_type v c ≡ pkt_type_task_done_idle)
  reply_type-between now k v u c lt busy few first all last marked =
      let cnt = t.server.networker_pointers.cnt in
      let inv = reached fresh r in
      let between = admit_all-Inv k 0 now t v (omega (arith, few)) inv first in
      let before = admit_all-Grown k 0 now c t v (omega (arith, few)) inv lt first in
      let np = ap (λ (p : NetworkerPointers). p.cnt) before.pointers in
      let at_k : System = record t { server = v } in
      let rest : admit_all (cnt - k) k now v ≡ some u =
        subst (λ j. admit_all (cnt - k) j now v ≡ some u) (zero_plus k)
          (admit_all-rest k (cnt - k) cnt 0 now t.server v u (omega (arith, few)) first all) in
      let after =
        admit_all-Grown (cnt - k) k now c at_k u (omega (arith, few, np)) between lt rest in
      let w = between.core c lt in
      let one : v.queue_length c ≡ 1 =
        omega (arith, w.counted, ap holds (w.at_work busy).0, after.longer, last) in
      let mark : u.worker_state c ≡ v.worker_state c = after.marks (last ∙ sym one) in
      (
        one,
        (λ cont cs more got.
            let e : cnt - k ≡ suc (cnt - k - 1) = omega (arith, more) in
            count_new-ne (record v { contexts = cs }) (v.networker_pointers.types k) c
              (not_counted (cnt - k - 1) k now c cont at_k u cs (omega (arith, more, np)) between lt
                (subst (λ j. admit_all j k now v ≡ some u) e rest) got (last ∙ sym one))
            ∙ one),
        sym mark,
        reply_type-idle v c one (omega (arith, marked, mark)),
      )
