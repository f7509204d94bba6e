-- ===== src/Worker/Reply.antt =====
-- What a worker's round leaves in its response and its reply.
use horus_app_eval.Prelude.{ℕ, ◌+◌, ◌*◌, ◌<◌, ◌≤◌, ◌≡◌, ◌≢◌, refl, none, some, arith}
use horus_app_eval.Server.{Server, finished, preempted}
use horus_app_eval.Worker.{
  Worker, Outcome, no_data, interrupted, replied, Frame, IpTuple, parse_packet, run_request,
  finish_request, reply_tuple,
}

-- Unless the frame had no data, the response names the context that was handed out, and the request with
-- it; its flag says whether the work has come to its reply.
finish_request-own :
    (s : Server) (i : ℕ) (w : Worker) (o : Outcome)
    → o ≢ no_data
    → let r = (finish_request s i (run_request (s.dispatcher_requests i) w o)).responses i in
      (r.rnbl ≡ (s.dispatcher_requests i).rnbl)
      × (r.req ≡ (s.dispatcher_requests i).req)
      × (r.type ≡ (s.dispatcher_requests i).type)
      × (o ≡ replied → r.flag ≡ finished)
      × (o ≡ interrupted → r.flag ≡ preempted)
unfolding finish_request run_request
finish_request-own s i w no_data h = absurd (h refl)
finish_request-own s i w interrupted h =
    (ground arith, ground arith, ground arith, (λ bad. cc), λ e. ground arith)
finish_request-own s i w replied h =
    (ground arith, ground arith, ground arith, (λ e. ground arith), λ bad. cc)

-- `parse_packet` accepts a frame exactly when the UDP datagram lies within the mbuf; the reply then
-- goes back to the sender.
parse_packet-cases :
    (f : Frame)
    → ((14 + f.header_len * 4 + f.udp_len ≤ f.len)
        → (id : IpTuple) × (parse_packet f ≡ some (f.message, id))
          × ((reply_tuple id).dst_ip ≡ f.src_addr)
          × ((reply_tuple id).dst_port ≡ f.src_port)
          × ((reply_tuple id).src_ip ≡ f.dst_addr)
          × ((reply_tuple id).src_port ≡ f.dst_port))
      × (f.len < 14 + f.header_len * 4 + f.udp_len → parse_packet f ≡ none)
unfolding parse_packet reply_tuple
parse_packet-cases f = (
  (λ fits. (
    record {
      src_ip = f.src_addr;
      dst_ip = f.dst_addr;
      src_port = f.src_port;
      dst_port = f.dst_port;
    },
    ground arith,
    refl,
    refl,
    refl,
    refl,
  )),
  λ short. ground arith,
)
