-- ===== src/Net/Server/Whole.antt =====
-- libv/src/net/net.c: a server from net_server_start to net_server_destroy, by the memory it owns.
use mathlib.Core.Path.{subst}
use mustdb.Net.{Outcome, returned, failed}
use mustdb.Net.Server.Lifecycle.{wake_fds, wake_all-woken, threads_from, join_from-joined}
use mustdb.Net.Server.Owned.{in_use, held, IsOwned, allocate-IsOwned, release_all-IsOwned}
use mustdb.Net.Server.Release.{
  worker_holds, workers_hold, IsWhole, IsReady, AllWhole, AllReady, free_workers-IsOwned,
}
use mustdb.Net.Server.{
  Machine, Worker, free_workers, ThreadAnswers, ts_worker_loop_begin, create_worker_thread,
  NetServer, net_server_stop, net_server_wait, close_listen, net_server_destroy,
}
use mustdb.Net.Server.Start.{
  start_workers, StartAnswers, Started, started, abandoned, start_threads,
}
use mustdb.Prelude.{
  ℕ, suc, ◌+◌, ◌≡◌, ◌≢◌, refl, ◌∙◌, arith, Bool, true, false, Option, none, some, List, [], ◌∷◌,
  ◌++◌, if◌then◌else◌,
}

false≢true : false ≢ true
false≢true = cc

-- the array of the events is owned by the worker
ts_worker_loop_begin-IsOwned :
    (granted : Bool) (w : Worker) (m : Machine) (count : ℕ → ℕ)
    → w.events ≡ none
    → IsOwned (λ x. worker_holds x w + count x) m
    → let (running, m1) = ts_worker_loop_begin granted w m in
      IsOwned (λ x. worker_holds x running + count x) m1 × (m1.faults ≡ m.faults)
unfolding ts_worker_loop_begin worker_holds IsOwned held
ts_worker_loop_begin-IsOwned granted w m count idle owned =
    let (o, s) =
      allocate-IsOwned granted m (λ x. worker_holds x w + count x) (λ x. omega (arith, owned x)) in
    (λ x. omega (arith, o x, none_held x), s)
  where
    none_held : (x : ℕ) → held x (w.events ∷ []) ≡ 0
    none_held x = rw idle refl

-- what is owned by a worker whose thread has begun, and by all else
unfoldable IsRunning : (ℕ → ℕ) → ℕ → (Bool × Worker) × Machine → Type 0
IsRunning count faults ((ok, made), m) =
    ok ≡ true → IsOwned (λ x. worker_holds x made + count x) m × (m.faults ≡ faults) × IsWhole made

module _ (i : ℕ) (w : Worker) (m : Machine) (count : ℕ → ℕ) (ready : IsReady w)
    (owned : IsOwned (λ x. worker_holds x w + count x) m) where
  create_case :
      (epolled evented added_listen added_wake threaded : Outcome ℕ) (events_granted : Bool)
      → IsRunning count m.faults (
          create_worker_thread
            (record {
              epolled = epolled;
              evented = evented;
              added_listen = added_listen;
              added_wake = added_wake;
              threaded = threaded;
              events_granted = events_granted;
            })
            i
            w
            m)
  unfolding create_worker_thread IsRunning worker_holds IsOwned ts_worker_loop_begin
  create_case (failed e) q r s t g = λ bad. absurd (false≢true bad)
  create_case (returned p) (failed e) r s t g = λ bad. absurd (false≢true bad)
  create_case (returned p) (returned q) (failed e) s t g = λ bad. absurd (false≢true bad)
  create_case (returned p) (returned q) (returned r) (failed e) t g = λ bad. absurd (false≢true bad)
  create_case (returned p) (returned q) (returned r) (returned s) (failed e) g =
      λ bad. absurd (false≢true bad)
  create_case (returned p) (returned q) (returned r) (returned s) (returned t) g =
      let made = record w { wake_fd = some q; epfd = some p; index = i } in
      let (o, same) = ts_worker_loop_begin-IsOwned g made m count ready.1 (λ x. owned x) in
      λ _. (λ x. o x, same, ready.0)

  create_worker_thread-IsRunning :
      (answers : ThreadAnswers) → IsRunning count m.faults (create_worker_thread answers i w m)
  create_worker_thread-IsRunning answers =
      create_case answers.epolled answers.evented answers.added_listen answers.added_wake
        answers.threaded answers.events_granted

unfoldable AreStarted : (ℕ → ℕ) → ℕ → (Bool × List Worker × ℕ) × Machine → Type 0
AreStarted count faults ((ok, made, n), m) =
    ok ≡ true → IsOwned (λ x. workers_hold x made + count x) m × (m.faults ≡ faults) × AllWhole made

none-AreStarted :
    (m : Machine) (count : ℕ → ℕ)
    → IsOwned (λ x. workers_hold x [] + count x) m
    → AreStarted count m.faults ((true, [], 0), m)
unfolding AreStarted AllWhole
none-AreStarted m count owned = λ _. (owned, refl, tt)

add-AreStarted :
    (ok : Bool) (made : Worker) (ws : List Worker) (m1 : Machine)
    (rest : (Bool × List Worker × ℕ) × Machine) (count : ℕ → ℕ) (faults : ℕ)
    → IsRunning (λ x. workers_hold x ws + count x) faults ((ok, made), m1)
    → (IsOwned (λ x. workers_hold x ws + (worker_holds x made + count x)) m1
        → AreStarted (λ x. worker_holds x made + count x) m1.faults rest)
    → AreStarted count faults (
        if ok
        then ((rest.0.0, made ∷ rest.0.1, suc rest.0.2), rest.1)
        else ((false, made ∷ ws, 0), m1))
unfolding AreStarted IsRunning AllWhole workers_hold IsOwned
add-AreStarted true made ws m1 rest count faults first later = λ e.
    let (o1, s1, whole) = first refl in
    let (o2, s2, all) = later (λ x. omega (arith, o1 x)) e in
    (λ x. omega (arith, o2 x), s2 ∙ s1, (whole, all))
add-AreStarted false made ws m1 rest count faults first later = λ e. absurd (false≢true e)

start_workers-AreStarted :
    (answers : ℕ → ThreadAnswers) (i : ℕ) (ws : List Worker) (m : Machine) (count : ℕ → ℕ)
    → AllReady ws
    → IsOwned (λ x. workers_hold x ws + count x) m
    → AreStarted count m.faults (start_workers answers i ws m)
unfolding start_workers AllReady workers_hold IsOwned
start_workers-AreStarted answers i [] m count ready owned = none-AreStarted m count owned
start_workers-AreStarted answers i (w ∷ ws) m count ready owned =
    let ((ok, made), m1) = create_worker_thread (answers i) i w m in
    add-AreStarted ok made ws m1 (start_workers answers (suc i) ws m1) count m.faults
      (create_worker_thread-IsRunning i w m (λ x. workers_hold x ws + count x) ready.0
        (λ x. omega (arith, owned x)) (answers i))
      (λ o.
        start_workers-AreStarted answers (suc i) ws m1 (λ x. worker_holds x made + count x) ready.1
          o)

-- how often a block stands in the fields of a server and of its workers
unfoldable pub server_holds : ℕ → NetServer → ℕ
unfolding workers_hold held
server_holds x server =
    workers_hold x server.workers + held x (server.ctxs ∷ server.threads ∷ server.block ∷ [])

close_listen-same :
    (fd : Option ℕ) (m : Machine)
    → ((close_listen fd m).blocks ≡ m.blocks) × ((close_listen fd m).faults ≡ m.faults)
unfolding close_listen
close_listen-same none m = (refl, refl)
close_listen-same (some fd) m = (refl, refl)

net_server_destroy-releases :
    (server : NetServer) (m : Machine)
    → server.stopping ≡ false
    → server.joined ≡ false
    → AllWhole server.workers
    → IsOwned (λ x. server_holds x server) m
    → IsOwned (λ x. 0) (net_server_destroy server m)
      × ((net_server_destroy server m).faults ≡ m.faults)
unfolding net_server_destroy net_server_stop net_server_wait server_holds IsOwned in_use
net_server_destroy-releases server m running waiting whole owned =
    let woken = record m { woken = m.woken ++ wake_fds server.workers } in
    let joined = record woken {
      joined_threads = m.joined_threads ++ threads_from 0 server.started_threads;
    } in
    let (o1, s1) =
      free_workers-IsOwned server.workers joined
        (λ x. held x (server.ctxs ∷ server.threads ∷ server.block ∷ [])) whole owned in
    let m1 = free_workers server.workers joined in
    let (same_blocks, same_faults) = close_listen-same server.listen_fd m1 in
    let (o2, s2) =
      release_all-IsOwned (server.ctxs ∷ server.threads ∷ server.block ∷ [])
        (close_listen server.listen_fd m1) (λ x. 0) (rw same_blocks (λ x. omega (arith, o1 x))) in
    rw (running, waiting)
      (rw (wake_all-woken server.workers m, join_from-joined 0 server.started_threads woken)
        (o2, s2 ∙ same_faults ∙ s1))

-- A server that starts can be destroyed: no block is in use afterwards, and no free was wrong. What
-- does not start is not asked about.
unfoldable pub IsReleased : ℕ → Started × Machine → Type 0
IsReleased faults (started server, m) =
    IsOwned (λ x. 0) (net_server_destroy server m) × ((net_server_destroy server m).faults ≡ faults)
IsReleased faults (_, m) = Unit

-- what is owned by a server that has its workers
abbrev pub Ready : ℕ → NetServer → Machine → Type 0
Ready faults server m =
    (server.stopping ≡ false)
    × (server.joined ≡ false)
    × AllReady server.workers
    × IsOwned (λ x. server_holds x server) m
    × (m.faults ≡ faults)

-- the blocks of a server that are not those of its workers
abbrev rest_held : NetServer → ℕ → ℕ
rest_held server x = held x (server.ctxs ∷ server.threads ∷ server.block ∷ [])

threads-IsReleased :
    (faults : ℕ) (server : NetServer) (r : (Bool × List Worker × ℕ) × Machine)
    → server.stopping ≡ false
    → server.joined ≡ false
    → AreStarted (rest_held server) faults r
    → IsReleased faults (
      if r.0.0
          then started (record server { workers = r.0.1; started_threads = r.0.2 })
          else abandoned (record server { workers = r.0.1; started_threads = r.0.2 }),
      r.1,
    )
unfolding AreStarted IsOwned server_holds IsReleased
threads-IsReleased faults server ((true, ws, n), m1) running waiting made =
    let (owned, same, whole) = made refl in
    let ready = record server { workers = ws; started_threads = n } in
    let (o, s) = net_server_destroy-releases ready m1 running waiting whole (λ x. owned x) in
    (o, s ∙ same)
threads-IsReleased faults server ((false, ws, n), m1) running waiting made = tt

pub start_threads-IsReleased :
    (answers : StartAnswers) (faults : ℕ) (server : NetServer) (m : Machine)
    → Ready faults server m
    → IsReleased faults (start_threads answers server m)
unfolding start_threads server_holds IsOwned
start_threads-IsReleased answers faults server m (running, waiting, ready, owned, same) =
    threads-IsReleased faults server (start_workers answers.creates 0 server.workers m) running
      waiting
      (subst
        (λ (f : ℕ).
          AreStarted (rest_held server) f (start_workers answers.creates 0 server.workers m))
        same
        (start_workers-AreStarted answers.creates 0 server.workers m (rest_held server) ready
          (λ x. owned x)))
