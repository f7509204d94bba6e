-- ===== src/Lib.antt =====
-- A model of the Horus worker server (server_code/shinjuku-rocksdb) and of the client that loads it
-- (client_code/client), and what holds of them.
--
-- A server has one networker core, one dispatcher core and up to 16 worker cores. The networker parses
-- the packets of a batch, picks the worker that each is for, puts requests of several packets together,
-- and hands the batch over in `networker_pointers`. The dispatcher gives each request a context, queues
-- it for its worker, hands tasks to workers that are free and takes them back when they are finished or
-- preempted. A worker runs a task and answers the client with a reply that carries the length of its
-- queue, and with TASK_DONE_IDLE where the leaf switch is to take it for idle again.
--
--   Mempool, Mempool/Store   inc/ix/mempool.h, dp/core/mempool.c (mempool_alloc, mempool_free,
--                            mempool_create_datastore): free lists as lists of addresses
--   Context                  inc/ix/context.h (context_alloc, context_free)
--   Message, Server          inc/ix/dispatch.h: the header, and the objects that the cores share
--   TaskQueue                inc/ix/dispatch.h (tskq_enqueue_head, tskq_enqueue_tail, tskq_dequeue,
--                            request_enqueue, request_dequeue): queues as sequences over their pools
--   TaskQueue/Links          inc/ix/dispatch.h: the task queues with the pointers of struct task
--   Dispatcher               dp/core/dispatcher.c (handle_worker, handle_networker and what they call)
--   Networker                inc/ix/dispatch.h (rq_update)
--   Networker/Loop           dp/core/networker.c (do_networking, send_worker_id_ack)
--   Worker                   dp/core/worker.c (handle_request, finish_request, the reply of generic_work)
--   Search                   inc/ix/intersection.h (compute_intersection), dp/core/worker.c (search_work)
--   Net                      inc/ix/ethqueue.h (eth_send), inc/ix/byteorder.h
--   Net/Arp, Net/Arp/Update  dp/net/arp.c: the table of MAC addresses
--   Net/Udp                  inc/ix/transmit.h (ip_setup_header, udp_send_one)
--   Net/Input                dp/net/ip.c (eth_input, ip_input), dp/net/udp.c (udp_input)
--   Net/Receive              inc/ix/ethqueue.h (eth_recv, eth_process_recv)
--   Timers and its children  dp/core/timer.c, inc/ix/timer.h: the timer wheel
--   Configuration and its children
--                            dp/core/cfg.c, inc/ix/cfg.h (parse_conf_file and its handlers)
--   Client                   dpdk_client.c (generate_packet, process_packet), util.h of the client
--   System                   the three kinds of cores interleaved: a step is one handler's run, or
--                            one half of a worker's round
--
-- Workers and networker send by `udp_send_one`, which looks the destination up in the ARP table; frames
-- come in by `eth_input`. Each part stands for itself: `System` does not send.
--
-- Paths are those below server_code/shinjuku-rocksdb, and for the client below client_code/client.
-- Words are natural numbers with their wrap-around written out. Arrays are functions on the index; an
-- index past the end has a cell of its own, and where the index comes from a packet or from the
-- configuration the write is a fault. A fault, `none`, is a NULL dereference, such a write, or an
-- undefined shift. Loops are recursions on the rounds that are left, without fuel: `find_cell`
-- walks the queue, the loops of `handle_networker` count slots, those of the allocator count elements,
-- and `merge` is given as many rounds as its two lists have entries, since each round passes one.
-- The loop of `timer_run` alone has fuel: a round for each 16 microseconds that the clock is ahead.
--
-- Not modelled: the code of RocksDB, Dune, DPDK, GSL, libconfig and the C library, of which the
-- configuration takes what it finds in a file and in its strings as a parameter; the checksum and
-- the hash of addresses, machine instructions that are parameters; the handlers of timers, a record
-- of laws that is a parameter; keep-alives; numbers of floating point, as the factor 2.5 of an SLO;
-- the command line; TCP (lwIP), the drivers, paging and the sandbox; the plain Shinjuku variant; the
-- switch between contexts, of which only the outcome is seen; the memory of freed objects, which is
-- not read again but for `next` in request_dequeue, a word that mempool_free leaves alone; the order
-- of single stores within a handler, but for those of handle_networker that a reply may fall between.
-- In `System` the networker's batch is any that meets `Batch`: at most six slots, each with a
-- request for a configured worker. A worker's frame always has data there, since `eth_input` drops
-- the frames in which parse_packet finds none.
pub mod Prelude
pub mod Mempool
pub mod Context
pub mod Message
pub mod Server
pub mod TaskQueue
pub mod Dispatcher
pub mod Worker
pub mod Networker
pub mod Search
pub mod Net
pub mod Configuration
pub mod Client
pub mod Timers
pub mod System
pub mod Tests
