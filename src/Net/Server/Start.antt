-- ===== src/Net/Server/Start.antt =====
-- libv/src/net/net.c: listen_tcp, net_server_start and net_listen.
use mustdb.Alloc.{ℤ, pos, negsuc}
use mustdb.Net.{Outcome, returned, failed, setnonblock}
use mustdb.Net.Server.{
  Machine, allocate, Worker, zero_worker, InitAnswers, init_tscontext, NetServer,
  net_server_destroy, net_server_wait, ThreadAnswers, create_worker_thread,
}
use mustdb.Prelude.{
  ℕ, zero, suc, Bool, true, false, not, ◌&&◌, ◌||◌, Option, none, some, List, [], ◌∷◌, replicate,
  if◌then◌else◌,
}

-- what the system answers to listen_tcp; `families` tells of each address whether it is PF_INET
pub record ListenAnswers : Type 0 where
  pub resolved : Bool
  pub families : List Bool
  pub socketed : Outcome ℕ
  pub reused : Outcome ℕ
  pub get_flags : Outcome ℕ
  pub set_flags : Outcome ℕ
  pub bound : Outcome ℕ
  pub listened : Outcome ℕ
  pub named : Outcome ℕ

-- `refused` is -1; `aborted` is a call of abort, and `crashed` a use of NULL
pub data Listened : Type 0 where
  listening : ℕ → Option ℕ → Listened
  refused_listen aborted crashed : Listened

-- the loop that looks for an address of PF_INET
unfoldable pub find_inet : List Bool → Bool
find_inet [] = false
find_inet (true ∷ families) = true
find_inet (false ∷ families) = find_inet families

abbrev pub succeeds {ℓ} : {A : Type ℓ} → Outcome A → Bool
succeeds (returned a) = true
succeeds (failed e) = false

abbrev pub port_given : Option (List ℕ) → Bool
port_given none = false
port_given (some []) = false
port_given (some (b ∷ port)) = true

abbrev pub result_of {ℓ} : {A : Type ℓ} → Outcome A → Option A
result_of (returned a) = some a
result_of (failed e) = none

-- The port that getsockname tells is that of the result, `none` where it fails.
unfoldable pub listen_tcp : ListenAnswers → Option (List ℕ) → Listened
unfolding find_inet setnonblock
listen_tcp answers port =
    if not (port_given port)
    then refused_listen
    else if not answers.resolved
    then aborted
    else if not (find_inet answers.families)
    then crashed
    else elim answers.socketed [
      | failed e ↦ aborted
      | returned fd ↦
          if succeeds answers.reused
            && setnonblock answers.get_flags answers.set_flags
            && succeeds answers.bound
            && succeeds answers.listened
          then listening fd (result_of answers.named)
          else aborted
    ]

pub record NetListenOptions : Type 0 where
  pub port : Option (List ℕ)
  pub nthreads : ℤ
  pub queuesize : ℤ
  pub callbacks_given : Bool

unfoldable pub positive_or : ℕ → ℤ → ℕ
positive_or default (pos zero) = default
positive_or default (pos (suc n)) = suc n
positive_or default (negsuc n) = default

-- the loop over init_tscontext; the contexts after one that fails stay as calloc left them
unfoldable pub init_workers : (ℕ → InitAnswers) → ℕ → ℕ → Machine → (Bool × List Worker) × Machine
unfolding init_tscontext
init_workers answers i zero m = ((true, []), m)
init_workers answers i (suc n) m =
    let ((ok, w), m1) = init_tscontext (answers i) m in
    let ((rest_ok, ws), m2) = init_workers answers (suc i) n m1 in
    if ok then ((rest_ok, w ∷ ws), m2) else ((false, w ∷ replicate n zero_worker), m1)

-- the loop over create_worker_thread, with the number of threads started
unfoldable pub start_workers :
    (ℕ → ThreadAnswers) → ℕ → List Worker → Machine → (Bool × List Worker × ℕ) × Machine
unfolding create_worker_thread
start_workers answers i [] m = ((true, [], 0), m)
start_workers answers i (w ∷ ws) m =
    let ((ok, made), m1) = create_worker_thread (answers i) i w m in
    let ((rest_ok, rest, started), m2) = start_workers answers (suc i) ws m1 in
    if ok then ((rest_ok, made ∷ rest, suc started), m2) else ((false, made ∷ ws, 0), m1)

pub record StartAnswers : Type 0 where
  pub server_granted : Bool
  pub listen : ListenAnswers
  pub ctxs_granted : Bool
  pub threads_granted : Bool
  pub inits : ℕ → InitAnswers
  pub creates : ℕ → ThreadAnswers

-- `started` is 0 with the server in `*out`, and `not_started` is -1. `abandoned` is -1 too: the
-- server is still there, but no pointer to it is handed out.
pub data Started : Type 0 where
  started abandoned : NetServer → Started
  not_started start_aborted start_crashed : Started

abbrev pub new_server : Option ℕ → ℕ → ℕ → NetServer
new_server block nthreads queuesize = record {
  block = block;
  listen_fd = none;
  bound_port = none;
  nthreads = nthreads;
  queuesize = queuesize;
  stopping = false;
  joined = false;
  threads = none;
  ctxs = none;
  workers = [];
  started_threads = 0;
}

abbrev pub granted : Option ℕ → Bool
granted none = false
granted (some a) = true

-- net_server_start from the point where the workers have their memory
unfoldable pub start_threads : StartAnswers → NetServer → Machine → Started × Machine
unfolding start_workers
start_threads answers server m =
    let ((ok, workers, n), m1) = start_workers answers.creates 0 server.workers m in
    let ready = record server { workers = workers; started_threads = n } in
    (if ok then started ready else abandoned ready, m1)

-- net_server_start from the point where the server listens
unfoldable pub start_listening : StartAnswers → NetServer → Machine → Started × Machine
unfolding allocate init_workers start_threads net_server_destroy
start_listening answers server m =
    let (ctxs, m1) = allocate answers.ctxs_granted m in
    let (threads, m2) = allocate answers.threads_granted m1 in
    let placed = record server {
      ctxs = ctxs;
      threads = threads;
      workers = if granted ctxs then replicate server.nthreads zero_worker else [];
    } in
    if not (granted ctxs) || not (granted threads)
    then (not_started, net_server_destroy placed m2)
    else let ((ok, workers), m3) = init_workers answers.inits 0 server.nthreads m2 in
      let filled = record placed { workers = workers } in
      (if ok then start_threads answers filled m3 else (not_started, net_server_destroy filled m3))

unfoldable pub net_server_start :
    StartAnswers → Option NetListenOptions → Bool → Machine → Started × Machine
unfolding allocate listen_tcp positive_or start_listening net_server_destroy
net_server_start answers none out_given m = (not_started, m)
net_server_start answers (some opt) out_given m =
    if not out_given || not opt.callbacks_given
    then (not_started, m)
    else let (block, m1) = allocate answers.server_granted m in
      let server = new_server block (positive_or 1 opt.nthreads) (positive_or 128 opt.queuesize) in
      (if not (granted block)
        then (not_started, m1)
        else elim (listen_tcp answers.listen opt.port) [
          | refused_listen ↦ (not_started, net_server_destroy server m1)
          | aborted ↦ (start_aborted, m1)
          | crashed ↦ (start_crashed, m1)
          | listening fd port ↦
              start_listening answers (record server { listen_fd = some fd; bound_port = port }) m1
        ])

-- the port "4567"
abbrev pub net_listen_port : List ℕ
net_listen_port = 52 ∷ 53 ∷ 54 ∷ 55 ∷ []

-- whether net_listen returns 0; it may also abort or crash
unfoldable pub net_listen : StartAnswers → ℤ → Machine → Option Bool × Machine
unfolding net_server_start net_server_wait net_server_destroy
net_listen answers nthread m =
    let opt : NetListenOptions = record {
      port = some net_listen_port;
      nthreads = nthread;
      queuesize = pos 128;
      callbacks_given = true;
    } in
    let (result, m1) = net_server_start answers (some opt) true m in
    elim result [
      | started server ↦
          let (waited, m2) = net_server_wait server m1 in (some true, net_server_destroy waited m2)
      | abandoned server ↦ (some false, m1)
      | not_started ↦ (some false, m1)
      | start_aborted ↦ (none, m1)
      | start_crashed ↦ (none, m1)
    ]
