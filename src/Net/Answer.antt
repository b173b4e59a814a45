-- ===== src/Net/Answer.antt =====
-- libv/src/net/net.c with the callbacks of conn.c: the first request of a client, from its event to
-- the answer.
use mustdb.Hmap.{hmap_get_value, hmap_insert}
use mustdb.Net.Conn.{ev_process, ev_callbacks, response}
use mustdb.Net.Flush.{flush_done}
use mustdb.Net.Loop.{
  TsContext, Callbacks, System, is_fd, conn_at, put_conn, log, enqueue, open_conn, accept_event,
  ts_accept, handle_read, ts_read, after_process, ts_process, after_flush, ts_write, ts_close,
  ts_reset, ts_attach, ts_round,
}
use mustdb.Net.Safety.{bind_some}
use mustdb.Net.{
  Outcome, returned, NetConn, conn_new, flush_conn, release_out, sent, opened_callback, ctl_mod,
  read_interest, mod_read,
}
use mustdb.Prelude.{
  ℕ, ◌*◌, ◌≡◌, refl, ap, ◌∙◌, arith, true, false, none, some, List, [], ◌∷◌, ◌++◌, length,
  length-append, set, get_or-set_self, ◌==◌, get_or-append_at, append_assoc, u64,
}

module _ (blocks : NetConn → ℕ) (system : System) (sctx : TsContext) (fd b : ℕ) (pkt : List ℕ)
    (rest : List (Outcome ℕ)) (x : ℕ) where
  callbacks : Callbacks
  callbacks = ev_callbacks (λ conn p. true) blocks

  made : NetConn
  made = record {
    fd = fd;
    closed = false;
    udata = 0;
    out = none;
    outlen = 0;
    outcap = 0;
    outoff = 0;
    bgctx = 0;
    ctx = sctx.index;
  }

  opened : NetConn
  opened = record made { udata = blocks made }

  answered : NetConn
  answered = ev_process true opened (b ∷ pkt)

  start : TsContext
  start = ts_attach (ts_reset (record sctx { events = fd ∷ [] }))

  a : ℕ
  a = length sctx.conns

  after_accept : TsContext
  after_accept = record start {
    pread_que = a ∷ [];
    conns = sctx.conns ++ (some opened ∷ []);
    hmap =
        (hmap_insert ((system.event_answers 0).grants_buckets (u64 (sctx.hmap.nbuckets * 2)))
          (system.event_answers 0).granted_node sctx.hmap fd a).1;
    trace = sctx.trace ++ (opened_callback fd ∷ []);
  }

  after_read : TsContext
  after_read = record after_accept { ins_que = (a, b ∷ pkt) ∷ [] }

  after_answer : TsContext
  after_answer = record after_read {
    conns = set after_read.conns a (some answered);
    outs_que = a ∷ [];
  }

  after_write : TsContext
  after_write =
      log (ctl_mod sctx.index fd read_interest ∷ [])
        (put_conn a (release_out answered) (log (sent fd response ∷ []) after_answer))

  accepts :
      is_fd sctx.wake_fd fd ≡ false
      → (fd == sctx.listen_fd) ≡ false
      → hmap_get_value sctx.hmap fd ≡ none
      → (system.event_answers 0).granted ≡ true
      → ts_accept callbacks system 0 (fd ∷ []) start ≡ some after_accept
  unfolding ts_accept accept_event open_conn conn_new enqueue callbacks made opened start a
      after_accept ts_attach ts_reset ev_callbacks
  accepts wake listen new granted = rw (wake, new, listen, granted) refl

  holds_opened : conn_at after_accept a ≡ some opened
  unfolding after_accept a
  holds_opened = get_or-append_at sctx.conns (some opened) none

  reads :
      system.reads 0 ≡ returned (b ∷ pkt)
      → ts_read system 0 after_accept.pread_que after_accept ≡ some after_read
  unfolding ts_read handle_read after_accept after_read start ts_attach ts_reset
  reads e = rw (holds_opened, e) refl

  processes : ts_process callbacks after_read.ins_que after_read ≡ some after_answer
  unfolding ts_process after_process after_answer after_read after_accept callbacks ev_callbacks
      answered ev_process start ts_attach ts_reset opened made
  processes = rw holds_opened refl

  holds_answered : conn_at after_answer a ≡ some answered
  unfolding after_answer after_read after_accept a
  holds_answered =
      get_or-set_self (sctx.conns ++ (some opened ∷ [])) (length sctx.conns) (some answered) none
        (omega (arith, length-append sctx.conns (some opened ∷ [])))

  answered_fd : answered.fd ≡ fd
  unfolding answered ev_process opened made
  answered_fd = refl

  flushes : flush_conn (returned 3 ∷ rest) answered ≡ some (release_out answered, response)
  unfolding flush_conn answered ev_process opened made
  flushes = rw (flush_done rest (record answered { outoff = 3 }) refl) refl

  put_back :
      (system.write_answers 0).ctl_changed ≡ returned x
      → after_flush
          (system.write_answers 0)
          a
          (release_out answered)
          (log (sent fd response ∷ []) after_answer)
        ≡ after_write
  unfolding after_flush mod_read after_write answered ev_process opened made after_answer after_read
      after_accept start ts_attach ts_reset
  put_back e = rw e refl

  writes :
      (system.write_answers 0).writes ≡ returned 3 ∷ rest
      → (system.write_answers 0).ctl_changed ≡ returned x
      → ts_write system 0 (a ∷ []) after_answer ≡ some after_write
  unfolding ts_write
  writes e f = bind_some _ holds_answered (
      bind_some _ (ap (λ (w : List (Outcome ℕ)). flush_conn w answered) e ∙ flushes)
        (ap some (put_back_fd f)))
    where
      put_back_fd :
          (system.write_answers 0).ctl_changed ≡ returned x
          → after_flush
              (system.write_answers 0)
              a
              (release_out answered)
              (log (sent answered.fd response ∷ []) after_answer)
            ≡ after_write
      put_back_fd f =
          ap
            (λ (d : ℕ).
              after_flush (system.write_answers 0) a (release_out answered)
                (log (sent d response ∷ []) after_answer))
            answered_fd
          ∙ put_back f

  writes_queue :
      (system.write_answers 0).writes ≡ returned 3 ∷ rest
      → (system.write_answers 0).ctl_changed ≡ returned x
      → ts_write system 0 after_answer.outs_que after_answer ≡ some after_write
  unfolding after_answer
  writes_queue e f = writes e f

  closes : ts_close callbacks after_write.closes_que after_write ≡ some after_write
  unfolding ts_close after_write after_answer after_read after_accept start ts_attach ts_reset
  closes = refl

  traced :
      after_write.trace
      ≡ sctx.trace
        ++ (opened_callback fd ∷ sent fd response ∷ ctl_mod sctx.index fd read_interest ∷ [])
  unfolding after_write after_answer after_read after_accept
  traced =
      append_assoc (sctx.trace ++ (opened_callback fd ∷ [])) (sent fd response ∷ [])
        (ctl_mod sctx.index fd read_interest ∷ [])
      ∙ append_assoc sctx.trace (opened_callback fd ∷ [])
          (sent fd response ∷ ctl_mod sctx.index fd read_interest ∷ [])

  -- The first request of a client is answered in the round of its event: where the descriptor is
  -- neither that of the wake event nor the listening one and has no connection yet, there is
  -- memory for the connection, read returns some bytes, write takes three, and the registration
  -- succeeds, a round over this event ends, and what it does after the calls so far is to call
  -- ev_opened, to send "Ok" with its newline, and to register the descriptor for reading again.
  pub ts_round-answers :
      is_fd sctx.wake_fd fd ≡ false
      → (fd == sctx.listen_fd) ≡ false
      → hmap_get_value sctx.hmap fd ≡ none
      → (system.event_answers 0).granted ≡ true
      → system.reads 0 ≡ returned (b ∷ pkt)
      → (system.write_answers 0).writes ≡ returned 3 ∷ rest
      → (system.write_answers 0).ctl_changed ≡ returned x
      → (s : TsContext) × (ts_round (ev_callbacks (λ conn p. true) blocks) system (fd ∷ []) sctx
          ≡ some s)
        × (s.trace
            ≡ sctx.trace
              ++ (opened_callback fd ∷ sent fd response ∷ ctl_mod sctx.index fd read_interest ∷ []))
  unfolding ts_round callbacks start
  ts_round-answers wake listen new granted read written changed = (
    after_write,
    bind_some _ (accepts wake listen new granted) (
        bind_some _ (reads read)
          (bind_some _ processes (bind_some _ (writes_queue written changed) closes))),
    traced,
  )
