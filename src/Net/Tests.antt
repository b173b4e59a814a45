-- ===== src/Net/Tests.antt =====
-- Runs of the server, and the theorems on it at a worker with one connection and at a server with
-- two workers.
use mustdb.Hash.{hmap_int_hash, murmurhash32}
use mustdb.Hmap.{hmap_init, hmap_get_value}
use mustdb.Hmap.Keys.{hmap_init_int}
use mustdb.Net.Answer.{ts_round-answers}
use mustdb.Net.Conn.{ev_callbacks, ev_callbacks-IsClient, response}
use mustdb.Net.Flush.{
  AreSsize, AreTemporary, IsProgress, uninterrupted, IsFlushed, flush_conn-IsFlushed,
}
use mustdb.Net.Loop.{
  TsContext, Callbacks, EventAnswers, WriteAnswers, System, Iteration, ts_round, ts_worker_loop,
}
use mustdb.Net.Progress.{AreGood, flush_all, flush_all_ends}
use mustdb.Net.Queues.{occurs, same_one, AreFew}
use mustdb.Net.Round.{IsClient, IsServed}
use mustdb.Net.Safety.{IsKept, init-IsKept, ts_round-IsKept}
use mustdb.Net.Worker.{AreServed, waited_events, ts_worker_loop-IsKept}
use mustdb.Net.{
  eintr, eagain, Outcome, returned, failed, NetConn, unsent, flush_conn, opened_callback, sent,
  ctl_mod, read_interest,
}
use mustdb.Prelude.{
  ℕ, ◌≤◌, ◌≡◌, refl, arith, Bool, true, false, ltb, none, some, List, [], ◌∷◌, ◌++◌,
}

-- two bytes to write
abbrev two_bytes : NetConn
two_bytes = record {
  fd = 7;
  closed = false;
  udata = 0;
  out = some (65 ∷ 66 ∷ []);
  outlen = 2;
  outcap = 2;
  outoff = 0;
  bgctx = 0;
  ctx = 0;
}

abbrev byte_by_byte : List (Outcome ℕ)
byte_by_byte = failed eintr ∷ returned 1 ∷ returned 1 ∷ []

abbrev one_byte : List (Outcome ℕ)
one_byte = failed eintr ∷ returned 1 ∷ failed eagain ∷ []

byte_by_byte_run : (r : NetConn) × (flush_conn byte_by_byte two_bytes ≡ some (r, 65 ∷ 66 ∷ []))
unfolding flush_conn
byte_by_byte_run = (_, refl)

flush_conn-IsFlushed_example :
    (r : NetConn × List ℕ) × (flush_conn byte_by_byte two_bytes ≡ some r)
    × IsFlushed two_bytes r.0 r.1
unfolding AreSsize uninterrupted
flush_conn-IsFlushed_example =
    flush_conn-IsFlushed byte_by_byte two_bytes (omega arith, (omega arith, tt)) (omega arith)
      (omega arith)

flush_all_ends_example :
    (s : NetConn × List ℕ) × (flush_all (one_byte ∷ one_byte ∷ []) two_bytes ≡ some s)
    × (s.0.outlen ≡ 0)
    × (s.0.out ≡ none)
    × (s.1 ≡ unsent two_bytes)
    × (s.0.closed ≡ two_bytes.closed)
unfolding AreGood AreSsize AreTemporary IsProgress uninterrupted
flush_all_ends_example =
    flush_all_ends (one_byte ∷ one_byte ∷ []) two_bytes
      (tt, tt, (omega arith, tt), omega arith, (tt, tt, (omega arith, tt), omega arith, tt))
      (omega arith) (omega arith) (omega arith)

abbrev callbacks : Callbacks
callbacks = ev_callbacks (λ conn p. true) (λ conn. 4096)

-- every event is answered well, but no array may have more than 1024 pointers
abbrev event_answers : EventAnswers
event_answers = record {
  accepted = returned 9;
  get_flags = returned 2;
  set_flags = returned 0;
  added = returned 0;
  granted = true;
  grants_buckets = λ n. ltb n 1024;
  granted_node = true;
}

abbrev write_answers : WriteAnswers
write_answers = record {
  writes = returned 2 ∷ byte_by_byte;
  ctl_added = returned 0;
  ctl_changed = returned 0;
}

abbrev system : System
system = record {
  event_answers = λ i. event_answers;
  reads = λ i. returned (80 ∷ 10 ∷ []);
  write_answers = λ i. write_answers;
}

abbrev idle : TsContext
idle = record {
  wake_fd = some 4;
  index = 0;
  listen_fd = 3;
  queuesize = 128;
  nthreads = 2;
  events = [];
  pread_que = [];
  ins_que = [];
  attachs_que = [];
  outs_que = [];
  closes_que = [];
  hmap = hmap_init_int;
  conns = [];
  next_ctx_index = 0;
  trace = [];
}

client : IsClient 3 callbacks
client = ev_callbacks-IsClient (λ conn p. true) (λ conn. 4096) 3 (omega arith)

served : IsServed 3 system
unfolding AreSsize uninterrupted
served = record {
  arrays = λ i m e. ground arith;
  sized = λ i. (omega arith, (omega arith, (omega arith, tt)));
  enough = λ i. omega arith;
}

kept : IsKept 3 idle
kept = init-IsKept 3 idle refl refl

-- a request of a new connection, and a call of the listening socket
abbrev some_events : List ℕ
some_events = 7 ∷ 3 ∷ []

distinct : (x : ℕ) → occurs x some_events ≤ 1
unfolding occurs same_one
distinct x = ground arith

ts_round-IsKept_example :
    (s : TsContext) × (ts_round callbacks system some_events idle ≡ some s)
    × IsKept 3 s
    × AreFew 2 s
ts_round-IsKept_example =
    ts_round-IsKept callbacks system some_events idle 3 client served (omega arith) distinct kept

abbrev two_iterations : List Iteration
two_iterations =
    record {
      stopping = false;
      waited = returned some_events;
      stopping_after = false;
      system = system;
    }
    ∷ record { stopping = true; waited = failed eintr; stopping_after = false; system = system }
    ∷ []

none_waited : (x : ℕ) → occurs x [] ≤ 1
unfolding occurs
none_waited x = omega arith

both_served : AreServed 3 two_iterations
unfolding AreServed waited_events
both_served = (served, distinct, (served, none_waited, tt))

ts_worker_loop-IsKept_example :
    (r : Bool × TsContext) × (ts_worker_loop true callbacks two_iterations idle ≡ some r)
    × IsKept 3 r.1
ts_worker_loop-IsKept_example =
    ts_worker_loop-IsKept true callbacks two_iterations idle 3 client both_served (omega arith) kept

-- the write takes the whole answer
abbrev quick_system : System
quick_system = record system {
  write_answers = λ i. record write_answers { writes = returned 3 ∷ [] };
}

not_known : hmap_get_value idle.hmap 7 ≡ none
unfolding hmap_get_value hmap_init_int hmap_init hmap_int_hash murmurhash32
not_known = refl

ts_round-answers_example :
    (s : TsContext) × (ts_round callbacks quick_system (7 ∷ []) idle ≡ some s)
    × (s.trace ≡ [] ++ (opened_callback 7 ∷ sent 7 response ∷ ctl_mod 0 7 read_interest ∷ []))
ts_round-answers_example =
    ts_round-answers (λ conn. 4096) quick_system idle 7 80 (10 ∷ []) [] 0 refl refl not_known refl
      refl refl refl
