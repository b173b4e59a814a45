-- ===== src/Net/Loop.antt =====
-- libv/src/net/net.c, the event loop of a worker: struct tscontext and one round of
-- ts_worker_loop. The arrays of a queue are the list of their entries, so that its length is the
-- counter; ins_que, inspkts_que and inspktlens_que are one list. A connection is an address, the
-- index of its memory. `none` is a use of freed memory, or a flush that needs more calls of write
-- than there are results.
mod Context
pub use Context.{
  TsContext, Callbacks, EventAnswers, WriteAnswers, System, is_fd, conn_at, put_conn, log,
}
use mustdb.Hmap.{Hmap, hmap_get_value, hmap_insert, hmap_delete}
use mustdb.Net.{
  eintr, eagain, ewouldblock, eexist, other_errno, Outcome, returned, failed, ◌>>=◌, NetConn,
  conn_new, flush_conn, setnonblock, Action, drained, sent, opened_callback, closed_callback,
  closed_fd, add_read, add_write, mod_read,
}
use mustdb.Prelude.{
  ℕ, suc, ◌+◌, ◌*◌, ◌%◌, Bool, true, false, not, Option, none, some, List, [], ◌∷◌, ◌++◌, length,
  get_or, set, ltb, ◌==◌, if◌then◌else◌, u64,
}

-- the queue that ts_accept puts a connection in
unfoldable pub enqueue : ℕ → NetConn → TsContext → TsContext
enqueue a conn sctx =
    if not (conn.bgctx == 0)
    then record sctx { attachs_que = sctx.attachs_que ++ (a ∷ []) }
    else if ltb 0 conn.outlen
    then record sctx { outs_que = sctx.outs_que ++ (a ∷ []) }
    else if conn.closed
    then record sctx { closes_que = sctx.closes_que ++ (a ∷ []) }
    else record sctx { pread_que = sctx.pread_que ++ (a ∷ []) }

-- an event of the listening socket
unfoldable pub accept_conn : EventAnswers → TsContext → TsContext
unfolding setnonblock add_read
accept_conn answers sctx = elim answers.accepted [
  | failed e ↦ sctx
  | returned conn_fd ↦
      if setnonblock answers.get_flags answers.set_flags
      then (let idx = sctx.next_ctx_index % sctx.nthreads in
          let (ok, actions) = add_read answers.added idx conn_fd in
          log (if ok then actions else actions ++ (closed_fd conn_fd ∷ []))
            (record sctx { next_ctx_index = u64 (sctx.next_ctx_index + 1) }))
      else log (closed_fd conn_fd ∷ []) sctx
]

-- The first event of a descriptor that has no connection. hmap_insert may fail, which the code
-- does not look at.
unfoldable pub open_conn : Callbacks → EventAnswers → ℕ → TsContext → TsContext
unfolding conn_new enqueue
open_conn callbacks answers fd sctx = elim (conn_new answers.granted fd sctx.index) [
  | none ↦ log (closed_fd fd ∷ []) sctx
  | some conn ↦
      let a = length sctx.conns in
      let opened = callbacks.opened conn in
      enqueue a opened (
        log (opened_callback fd ∷ []) (record sctx {
          conns = sctx.conns ++ (some opened ∷ []);
          hmap =
              (hmap_insert (answers.grants_buckets (u64 (sctx.hmap.nbuckets * 2)))
                answers.granted_node sctx.hmap fd a).1;
        }))
]

unfoldable pub accept_event : Callbacks → EventAnswers → ℕ → TsContext → Option TsContext
unfolding enqueue accept_conn open_conn
accept_event callbacks answers fd sctx =
    if is_fd sctx.wake_fd fd
    then some (log (drained fd ∷ []) sctx)
    else elim (hmap_get_value sctx.hmap fd) [
      | some a ↦ conn_at sctx a >>= λ conn. some (enqueue a conn sctx)
      | none ↦ some (
          if fd == sctx.listen_fd
          then accept_conn answers sctx
          else open_conn callbacks answers fd sctx)
    ]

-- the loop of ts_accept, from event `i` on
unfoldable pub ts_accept : Callbacks → System → ℕ → List ℕ → TsContext → Option TsContext
unfolding accept_event
ts_accept callbacks system i [] sctx = some sctx
ts_accept callbacks system i (fd ∷ fds) sctx =
    accept_event callbacks (system.event_answers i) fd sctx >>= λ s.
    ts_accept callbacks system (suc i) fds s

unfoldable pub handle_read : Outcome (List ℕ) → ℕ → TsContext → TsContext
handle_read (failed eagain) a sctx = sctx
handle_read (failed ewouldblock) a sctx = sctx
handle_read (failed eintr) a sctx = sctx
handle_read (failed eexist) a sctx = record sctx { closes_que = sctx.closes_que ++ (a ∷ []) }
handle_read (failed other_errno) a sctx = record sctx { closes_que = sctx.closes_que ++ (a ∷ []) }
handle_read (returned []) a sctx = record sctx { closes_que = sctx.closes_que ++ (a ∷ []) }
handle_read (returned (b ∷ pkt)) a sctx = record sctx {
  ins_que = sctx.ins_que ++ ((a, b ∷ pkt) ∷ []);
}

unfoldable pub ts_read : System → ℕ → List ℕ → TsContext → Option TsContext
unfolding handle_read
ts_read system i [] sctx = some sctx
ts_read system i (a ∷ que) sctx =
    conn_at sctx a >>= λ conn. ts_read system (suc i) que (handle_read (system.reads i) a sctx)

-- the queue that ts_process puts a connection in, if any
unfoldable pub after_process : ℕ → NetConn → TsContext → TsContext
after_process a conn sctx =
    if not (conn.bgctx == 0)
    then sctx
    else if ltb 0 conn.outlen
    then record sctx { outs_que = sctx.outs_que ++ (a ∷ []) }
    else if conn.closed
    then record sctx { closes_que = sctx.closes_que ++ (a ∷ []) }
    else sctx

unfoldable pub ts_process : Callbacks → List (ℕ × List ℕ) → TsContext → Option TsContext
unfolding after_process
ts_process callbacks [] sctx = some sctx
ts_process callbacks ((a, pkt) ∷ que) sctx = conn_at sctx a >>= λ conn.
    let changed = callbacks.process conn pkt in
    ts_process callbacks que (after_process a changed (put_conn a changed sctx))

-- what ts_write does with a connection once it is flushed
unfoldable pub after_flush : WriteAnswers → ℕ → NetConn → TsContext → TsContext
unfolding add_write mod_read
after_flush answers a conn sctx =
    if conn.closed
    then record (put_conn a conn sctx) { closes_que = sctx.closes_que ++ (a ∷ []) }
    else let (ok, actions) =
        (if ltb 0 conn.outlen
          then add_write answers.ctl_added answers.ctl_changed sctx.index conn.fd
          else mod_read answers.ctl_changed sctx.index conn.fd) in
      log actions (put_conn a (if ok then conn else record conn { closed = true }) sctx)

unfoldable pub ts_write : System → ℕ → List ℕ → TsContext → Option TsContext
unfolding flush_conn after_flush
ts_write system i [] sctx = some sctx
ts_write system i (a ∷ que) sctx = conn_at sctx a >>= λ conn.
    flush_conn (system.write_answers i).writes conn >>= λ r.
    ts_write system (suc i) que
      (after_flush (system.write_answers i) a r.0 (log (sent conn.fd r.1 ∷ []) sctx))

-- The connection is freed after the closed callback, which is taken to free at most what its own data
-- points to, as ev_closed does.
unfoldable pub ts_close : Callbacks → List ℕ → TsContext → Option TsContext
ts_close callbacks [] sctx = some sctx
ts_close callbacks (a ∷ que) sctx = conn_at sctx a >>= λ conn.
    let fd = (callbacks.closed conn).fd in
    ts_close callbacks que (
      log (closed_callback conn.fd ∷ closed_fd fd ∷ [])
        (record sctx { hmap = (hmap_delete sctx.hmap fd).1; conns = set sctx.conns a none }))

unfoldable pub ts_reset : TsContext → TsContext
ts_reset sctx = record sctx {
  pread_que = [];
  ins_que = [];
  closes_que = [];
  outs_que = [];
  attachs_que = [];
}

unfoldable pub ts_attach : TsContext → TsContext
ts_attach sctx = sctx

-- the body of the loop of ts_worker_loop, for the events that epoll_wait returned
unfoldable pub ts_round : Callbacks → System → List ℕ → TsContext → Option TsContext
unfolding ts_accept ts_read ts_process ts_write ts_close ts_reset ts_attach
ts_round callbacks system events sctx = do
  s1 ← ts_accept callbacks system 0 events (ts_attach (ts_reset (record sctx { events = events })))
  s2 ← ts_read system 0 s1.pread_que s1
  s3 ← ts_process callbacks s2.ins_que s2
  s4 ← ts_write system 0 s3.outs_que s3
  ts_close callbacks s4.closes_que s4

-- An iteration of ts_worker_loop: `stopping` as the loop test reads it, what epoll_wait returns,
-- and `stopping` as it is read after a failure.
pub record Iteration : Type 0 where
  pub stopping : Bool
  pub waited : Outcome (List ℕ)
  pub stopping_after : Bool
  pub system : System

-- The loop of ts_worker_loop; `true` is returned when it has ended, and `false` when it goes on.
unfoldable pub worker_iterations :
    Callbacks → List Iteration → TsContext → Option (Bool × TsContext)
unfolding ts_round
worker_iterations callbacks [] sctx = some (false, sctx)
worker_iterations callbacks (it ∷ its) sctx =
    if it.stopping then some (true, sctx) else elim it.waited [
      | failed eintr ↦ worker_iterations callbacks its sctx
      | failed _ ↦
          if it.stopping_after then some (true, sctx) else worker_iterations callbacks its sctx
      | returned events ↦
          ts_round callbacks it.system events sctx >>= λ s. worker_iterations callbacks its s
    ]

-- `granted` is the malloc of the array of events.
unfoldable pub ts_worker_loop :
    Bool → Callbacks → List Iteration → TsContext → Option (Bool × TsContext)
unfolding worker_iterations
ts_worker_loop granted callbacks its sctx =
    if granted then worker_iterations callbacks its sctx else some (true, sctx)

-- create_worker runs the loop in the thread that calls it; the outcomes are those of epoll_create1
-- and epoll_ctl. The index is set before the listening socket is added; `false` is -1, or a loop
-- that goes on.
unfoldable pub create_worker :
    Outcome ℕ
    → Outcome ℕ
    → Bool
    → Callbacks
    → List Iteration
    → ℕ
    → TsContext
    → Option (Bool × TsContext)
unfolding ts_worker_loop add_read
create_worker (failed e) added granted callbacks its index sctx = some (false, sctx)
create_worker (returned epfd) added granted callbacks its index sctx =
    ts_worker_loop granted callbacks its
      (log (add_read added index sctx.listen_fd).1 (record sctx { index = index }))
