-- ===== src/Net/Loop/Context.antt =====
-- libv/src/include/net.h, struct tscontext, and what a round of ts_worker_loop gets from outside.
use mustdb.Hmap.{Hmap}
use mustdb.Net.{Outcome, NetConn, Action}
use mustdb.Prelude.{ℕ, Bool, false, Option, none, some, List, ◌++◌, get_or, set, ◌==◌}

-- The last three are not in the struct: the memory of the connections, where a freed one is
-- `none`, the static counter of ts_accept, and the calls made so far. `wake_fd` is `none` for -1.
pub record TsContext : Type 0 where
  pub wake_fd : Option ℕ
  pub index : ℕ
  pub listen_fd : ℕ
  pub queuesize : ℕ
  pub nthreads : ℕ
  pub events : List ℕ
  pub pread_que : List ℕ
  pub ins_que : List (ℕ × List ℕ)
  pub attachs_que : List ℕ
  pub outs_que : List ℕ
  pub closes_que : List ℕ
  pub hmap : Hmap ℕ ℕ
  pub conns : List (Option NetConn)
  pub next_ctx_index : ℕ
  pub trace : List Action

-- the callbacks `process` and `opened` of the server, by what they do to the connection
pub record Callbacks : Type 0 where
  pub process : NetConn → List ℕ → NetConn
  pub opened : NetConn → NetConn
  pub closed : NetConn → NetConn

-- What the system answers while ts_accept handles one event: the two calls of fcntl are those of
-- setnonblock, `granted` is the malloc of conn_new, and the other two are those of hmap_insert,
-- where the calloc of a number of buckets may depend on that number.
pub record EventAnswers : Type 0 where
  pub accepted : Outcome ℕ
  pub get_flags : Outcome ℕ
  pub set_flags : Outcome ℕ
  pub added : Outcome ℕ
  pub granted : Bool
  pub grants_buckets : ℕ → Bool
  pub granted_node : Bool

pub record WriteAnswers : Type 0 where
  pub writes : List (Outcome ℕ)
  pub ctl_added : Outcome ℕ
  pub ctl_changed : Outcome ℕ

-- the answers by the position in the queue that is being served
pub record System : Type 0 where
  pub event_answers : ℕ → EventAnswers
  pub reads : ℕ → Outcome (List ℕ)
  pub write_answers : ℕ → WriteAnswers

abbrev pub is_fd : Option ℕ → ℕ → Bool
is_fd none fd = false
is_fd (some x) fd = fd == x

abbrev pub conn_at : TsContext → ℕ → Option NetConn
conn_at sctx a = get_or sctx.conns a none

abbrev pub put_conn : ℕ → NetConn → TsContext → TsContext
put_conn a conn sctx = record sctx { conns = set sctx.conns a (some conn) }

abbrev pub log : List Action → TsContext → TsContext
log actions sctx = record sctx { trace = sctx.trace ++ actions }
