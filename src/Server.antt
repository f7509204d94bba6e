-- ===== src/Server.antt =====
-- The objects that the cores of the server share: inc/ix/dispatch.h. Arrays indexed by a core are
-- functions; an index past their end, which is undefined in C, has a cell of its own here.
use horus_app_eval.Prelude.{ℕ, Bool, Option, List}
use horus_app_eval.Mempool.{Mempool}
use horus_app_eval.Context.{Contexts}

-- `flag` of struct worker_response
pub data WorkerFlag : Type 0 where
  running finished preempted processed : WorkerFlag

-- `flag` of struct dispatcher_request
pub data RequestFlag : Type 0 where
  waiting active : RequestFlag

-- `category`: NOCONTENT, PACKET, CONTEXT
pub data Category : Type 0 where
  no_content packet context : Category

-- struct request; an mbuf is known by its address
pub record Request : Type 0 where
  pub pkts_length : ℕ
  pub type : ℕ
  pub mbufs : ℕ → Option ℕ

-- struct worker_response
pub record WorkerResponse : Type 0 where
  pub flag : WorkerFlag
  pub rnbl : ℕ
  pub req : Option ℕ
  pub timestamp : ℕ
  pub type : ℕ
  pub category : Category

-- struct dispatcher_request
pub record DispatcherRequest : Type 0 where
  pub flag : RequestFlag
  pub rnbl : ℕ
  pub req : Option ℕ
  pub type : ℕ
  pub category : Category
  pub timestamp : ℕ

-- struct networker_pointers_t
pub record NetworkerPointers : Type 0 where
  pub cnt : ℕ
  pub free_cnt : ℕ
  pub types : ℕ → ℕ
  pub reqs : ℕ → Option ℕ

-- struct task, at the address `cell`; a queue is the list that its `next` pointers make
pub record Task : Type 0 where
  pub cell : ℕ
  pub runnable : ℕ
  pub req : Option ℕ
  pub type : ℕ
  pub category : Category
  pub timestamp : ℕ

-- struct fini_request_cell, at the address `cell`
pub record FiniCell : Type 0 where
  pub cell : ℕ
  pub req : ℕ

pub record Server : Type 0 where
  pub queue_length : ℕ → ℕ
  pub worker_state : ℕ → ℕ
  pub tskq : ℕ → List Task
  pub task_pool : Mempool
  pub frqueue : List FiniCell
  pub fini_pool : Mempool
  pub contexts : Contexts
  pub requests : ℕ → Request
  pub responses : ℕ → WorkerResponse
  pub dispatcher_requests : ℕ → DispatcherRequest
  pub networker_pointers : NetworkerPointers
  pub timestamps : ℕ → ℕ
  pub preempt_check : ℕ → Bool
  pub queue_settings : ℕ → Bool
