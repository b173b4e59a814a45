-- ===== src/Net/Server/Safety.antt =====
-- libv/src/net/net.c: net_server_start, and net_server_destroy of what it hands out.
use mathlib.Core.Path.{subst}
use mustdb.Net.Queues.{either}
use mustdb.Net.Server.Owned.{in_use, held, IsOwned, held-cons, allocate-IsOwned}
use mustdb.Net.Server.Release.{workers_hold, AreSetUp, init_workers-AreSetUp}
use mustdb.Net.Server.Start.{
  init_workers, StartAnswers, NetListenOptions, not_started, start_aborted, start_crashed, Listened,
  listening, refused_listen, aborted, crashed, listen_tcp, positive_or, new_server, granted,
  start_threads, start_listening, net_server_start,
}
use mustdb.Net.Server.Whole.{server_holds, IsReleased, start_threads-IsReleased}
use mustdb.Net.Server.{Machine, allocate, Worker, zero_worker, NetServer, net_server_destroy}
use mustdb.Prelude.{
  ℕ, ◌+◌, ◌≡◌, refl, ◌∙◌, arith, Bool, true, false, not, ◌||◌, Option, none, some, List, [], ◌∷◌,
  replicate, if◌then◌else◌,
}

module _ (answers : StartAnswers) (faults : ℕ) where
  set_up-IsReleased :
      (placed : NetServer) (r : (Bool × List Worker) × Machine)
      → placed.stopping ≡ false
      → placed.joined ≡ false
      → AreSetUp (λ x. held x (placed.ctxs ∷ placed.threads ∷ placed.block ∷ [])) faults r
      → IsReleased faults (
          if r.0.0
          then start_threads answers (record placed { workers = r.0.1 }) r.1
          else (not_started, net_server_destroy (record placed { workers = r.0.1 }) r.1))
  unfolding AreSetUp IsReleased IsOwned server_holds
  set_up-IsReleased placed ((false, ws), m) running waiting set_up = tt
  set_up-IsReleased placed ((true, ws), m) running waiting set_up =
      let (owned, same, whole) = set_up refl in
      start_threads-IsReleased answers faults (record placed { workers = ws }) m
        (running, waiting, whole, owns ws m owned, same)
    where
      owns :
          (ws : List Worker) (m : Machine)
          → IsOwned
              (λ x. workers_hold x ws + held x (placed.ctxs ∷ placed.threads ∷ placed.block ∷ []))
              m
          → IsOwned (λ x. server_holds x (record placed { workers = ws })) m
      owns ws m owned = λ x. owned x

  start_listening-IsReleased :
      (server : NetServer) (m : Machine)
      → ((j : ℕ) → (answers.inits j).buckets_granted ≡ true)
      → server.stopping ≡ false
      → server.joined ≡ false
      → IsOwned (λ x. held x (server.block ∷ [])) m
      → m.faults ≡ faults
      → IsReleased faults (start_listening answers server m)
  unfolding start_listening IsOwned IsReleased
  start_listening-IsReleased server m tables running waiting owned same =
      let (ctxs, m1) = allocate answers.ctxs_granted m in
      let (threads, m2) = allocate answers.threads_granted m1 in
      let (o1, s1) =
        allocate-IsOwned answers.ctxs_granted m (λ x. held x (server.block ∷ [])) owned in
      let (o2, s2) =
        allocate-IsOwned answers.threads_granted m1
          (λ x. held x (ctxs ∷ []) + held x (server.block ∷ [])) o1 in
      let placed = record server {
        ctxs = ctxs;
        threads = threads;
        workers = if granted ctxs then replicate server.nthreads zero_worker else [];
      } in
      let all : (x : ℕ) → held x (ctxs ∷ threads ∷ server.block ∷ []) ≡ in_use m2 x = λ x. omega (
        arith,
        o2 x,
        held-cons x ctxs (threads ∷ server.block ∷ []),
        held-cons x threads (server.block ∷ []),
      ) in
      either (IsReleased faults) (not (granted ctxs) || not (granted threads)) tt (
        set_up-IsReleased placed (init_workers answers.inits 0 server.nthreads m2) running waiting (
          subst
            (λ (f : ℕ).
              AreSetUp (λ x. held x (ctxs ∷ threads ∷ server.block ∷ [])) f
                (init_workers answers.inits 0 server.nthreads m2))
            (s2 ∙ s1 ∙ same)
            (init_workers-AreSetUp answers.inits 0 server.nthreads m2
              (λ x. held x (ctxs ∷ threads ∷ server.block ∷ [])) tables all)))

  listened-IsReleased :
      (server : NetServer) (m : Machine) (result : Listened)
      → ((j : ℕ) → (answers.inits j).buckets_granted ≡ true)
      → server.stopping ≡ false
      → server.joined ≡ false
      → IsOwned (λ x. held x (server.block ∷ [])) m
      → m.faults ≡ faults
      → IsReleased faults (elim result [
        | refused_listen ↦ (not_started, net_server_destroy server m)
        | aborted ↦ (start_aborted, m)
        | crashed ↦ (start_crashed, m)
        | listening fd port ↦
            start_listening answers (record server { listen_fd = some fd; bound_port = port }) m
      ])
  unfolding IsReleased
  listened-IsReleased server m refused_listen tables running waiting owned same = tt
  listened-IsReleased server m aborted tables running waiting owned same = tt
  listened-IsReleased server m crashed tables running waiting owned same = tt
  listened-IsReleased server m (listening fd port) tables running waiting owned same =
      start_listening-IsReleased (record server { listen_fd = some fd; bound_port = port }) m tables
        running waiting owned same

-- Whatever memory and system calls do, when net_server_start hands out a server,
-- net_server_destroy of it leaves no block of memory in use, frees none twice and uses no NULL:
-- once each thread has begun, with or without its array of events, and before the server has
-- served a connection, where no block was in use before, and the table of each worker got its
-- memory.
pub net_server_start-IsReleased :
    (answers : StartAnswers) (opt : Option NetListenOptions) (out_given : Bool) (m : Machine)
    → ((j : ℕ) → (answers.inits j).buckets_granted ≡ true)
    → IsOwned (λ x. 0) m
    → IsReleased m.faults (net_server_start answers opt out_given m)
unfolding net_server_start IsReleased IsOwned
net_server_start-IsReleased answers none out_given m tables owned = tt
net_server_start-IsReleased answers (some opt) out_given m tables owned =
    let (block, m1) = allocate answers.server_granted m in
    let (o1, s1) = allocate-IsOwned answers.server_granted m (λ x. 0) owned in
    let server = new_server block (positive_or 1 opt.nthreads) (positive_or 128 opt.queuesize) in
    either (IsReleased m.faults) (not out_given || not opt.callbacks_given) tt (
      either (IsReleased m.faults) (not (granted block)) tt (
        listened-IsReleased answers m.faults server m1 (listen_tcp answers.listen opt.port) tables
          refl refl (λ x. omega (arith, o1 x)) s1))
