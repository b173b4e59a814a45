-- ===== src/Net/Server/Tests.antt =====
-- Runs of a server with two workers, and the theorems on it.
use mustdb.Alloc.{pos}
use mustdb.Net.Server.Lifecycle.{wake_fds, threads_from, stop_wait_once}
use mustdb.Net.Server.Start.{
  ListenAnswers, NetListenOptions, StartAnswers, Started, started, abandoned, not_started,
  start_aborted, start_crashed, net_server_start,
}
use mustdb.Net.Server.Owned.{in_use, IsOwned}
use mustdb.Net.Server.Safety.{net_server_start-IsReleased}
use mustdb.Net.Server.Whole.{IsReleased}
use mustdb.Net.Server.Twice.{first_granted, init_tscontext-twice}
use mustdb.Net.Server.{
  Machine, zero_worker, InitAnswers, ThreadAnswers, NetServer, init_tscontext, free_tscontext,
  net_server_stop, net_server_wait, net_server_destroy,
}
use mustdb.Net.{other_errno, returned, failed}
use mustdb.Prelude.{◌<◌, ◌≡◌, refl, true, false, none, some, [], ◌∷◌, ◌++◌, replicate}

abbrev fresh : Machine
fresh = record { blocks = []; faults = 0; closed_fds = []; woken = []; joined_threads = [] }

abbrev two_workers : NetServer
two_workers = record {
  block = none;
  listen_fd = some 3;
  bound_port = some 4567;
  nthreads = 2;
  queuesize = 128;
  stopping = false;
  joined = false;
  threads = none;
  ctxs = none;
  workers = record zero_worker { wake_fd = some 5 } ∷ record zero_worker { wake_fd = some 7 } ∷ [];
  started_threads = 2;
}

stop_wait_once_example :
    let (stopped, m1) = net_server_stop two_workers fresh in
    let (ended, m2) = net_server_wait stopped m1 in
    (net_server_stop ended m2 ≡ (ended, m2))
    × (net_server_wait ended m2 ≡ (ended, m2))
    × (m2.woken ≡ fresh.woken ++ wake_fds two_workers.workers)
    × (m2.joined_threads ≡ fresh.joined_threads ++ threads_from 0 two_workers.started_threads)
stop_wait_once_example = stop_wait_once two_workers fresh refl refl

init_tscontext-twice_example :
    let ((ok, w), m1) = init_tscontext (first_granted (false ∷ []) true) fresh in
    m1.faults < (free_tscontext w m1).1.faults
unfolding init_tscontext
init_tscontext-twice_example = init_tscontext-twice (false ∷ []) true fresh refl

abbrev good_listen : ListenAnswers
good_listen = record {
  resolved = true;
  families = false ∷ true ∷ [];
  socketed = returned 3;
  reused = returned 0;
  get_flags = returned 2;
  set_flags = returned 0;
  bound = returned 0;
  listened = returned 0;
  named = returned 4567;
}

abbrev good_thread : ThreadAnswers
good_thread = record {
  epolled = returned 6;
  evented = returned 5;
  added_listen = returned 0;
  added_wake = returned 0;
  threaded = returned 0;
  events_granted = true;
}

abbrev good_init : InitAnswers
good_init = record { queues_granted = replicate 8 true; buckets_granted = true }

abbrev good_start : StartAnswers
good_start = record {
  server_granted = true;
  listen = good_listen;
  ctxs_granted = true;
  threads_granted = true;
  inits = λ i. good_init;
  creates = λ i. good_thread;
}

abbrev options : NetListenOptions
options = record {
  port = some (52 ∷ 53 ∷ 54 ∷ 55 ∷ []);
  nthreads = pos 1;
  queuesize = pos 0;
  callbacks_given = true;
}

abbrev machine_after : Started × Machine → Machine
machine_after (started server, m) = net_server_destroy server m
machine_after (abandoned server, m) = m
machine_after (not_started, m) = m
machine_after (start_aborted, m) = m
machine_after (start_crashed, m) = m

none_in_use : IsOwned (λ x. 0) fresh
unfolding IsOwned in_use
none_in_use x = refl

net_server_start-IsReleased_example :
    IsReleased 0 (net_server_start good_start (some options) true fresh)
net_server_start-IsReleased_example =
    net_server_start-IsReleased good_start (some options) true fresh (λ j. refl) none_in_use

-- started and destroyed, nothing is left, and no free is wrong
released :
    (machine_after (net_server_start good_start (some options) true fresh)).blocks
    ≡ replicate 13 false
unfolding net_server_start net_server_destroy
released = refl

no_faults : (machine_after (net_server_start good_start (some options) true fresh)).faults ≡ 0
unfolding net_server_start net_server_destroy
no_faults = refl

-- one queue of the only worker gets no memory: its seven others are freed twice
seven_faults :
    (machine_after (
      net_server_start
        (record good_start {
          inits = λ i. record { queues_granted = false ∷ replicate 7 true; buckets_granted = true };
        })
        (some options)
        true
        fresh)).faults
    ≡ 7
unfolding net_server_start net_server_destroy
seven_faults = refl

-- a thread that does not start: the blocks of the server stay in use, and no pointer leads there
abandoned_blocks :
    (machine_after (
      net_server_start
        (record good_start { creates = λ i. record good_thread { threaded = failed other_errno } })
        (some options)
        true
        fresh)).blocks
    ≡ replicate 12 true
unfolding net_server_start net_server_destroy
abandoned_blocks = refl
