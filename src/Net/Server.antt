-- ===== src/Net/Server.antt =====
-- libv/src/net/net.c, the life of a server: net_server_start, net_server_stop, net_server_wait and
-- net_server_destroy. Memory is the blocks that malloc, calloc have given out, each in use or freed;
-- a descriptor or a pointer that may be -1 or NULL is an Option.
pub mod Start
pub mod Lifecycle
pub mod Twice
pub mod Owned
pub mod Release
pub mod Whole
pub mod Safety
mod Tests
use mustdb.Net.{Outcome, returned, failed}
use mustdb.Hmap.{hmap_default_nbuckets}
use mustdb.Prelude.{
  ℕ, zero, suc, ◌+◌, ◌≡◌, Bool, true, false, not, ◌&&◌, Option, none, some, List, [], ◌∷◌, ◌++◌,
  length, get_or, set, replicate, ltb, if◌then◌else◌,
}

-- `faults` counts the frees of blocks that are not in use and the uses of NULL; the others are the
-- descriptors closed, the wake descriptors that were written to, and the threads joined.
pub record Machine : Type 0 where
  pub blocks : List Bool
  pub faults : ℕ
  pub closed_fds : List ℕ
  pub woken : List ℕ
  pub joined_threads : List ℕ

unfoldable pub allocate : Bool → Machine → Option ℕ × Machine
allocate granted m =
    if granted
    then (some (length m.blocks), record m { blocks = m.blocks ++ (true ∷ []) })
    else (none, m)

unfoldable pub release : Option ℕ → Machine → Machine
release none m = m
release (some a) m =
    if get_or m.blocks a false
    then record m { blocks = set m.blocks a false }
    else record m { faults = m.faults + 1 }

unfoldable pub release_all : List (Option ℕ) → Machine → Machine
unfolding release
release_all [] m = m
release_all (p ∷ ps) m = release_all ps (release p m)

-- The fields of struct tscontext that its life depends on: the queues are those of malloc in
-- init_tscontext, and `nodes` are the nodes of the table.
pub record Worker : Type 0 where
  pub epfd : Option ℕ
  pub wake_fd : Option ℕ
  pub index : ℕ
  pub events : Option ℕ
  pub queues : List (Option ℕ)
  pub buckets : Option ℕ
  pub nbuckets : ℕ
  pub nodes : List (Option ℕ)
  pub hmap_ready : Bool

-- as calloc leaves it: the descriptors are 0, which is not -1
abbrev pub zero_worker : Worker
zero_worker = record {
  epfd = some 0;
  wake_fd = some 0;
  index = 0;
  events = none;
  queues = [];
  buckets = none;
  nbuckets = 0;
  nodes = [];
  hmap_ready = false;
}

-- hmap_deinit reads through `buckets` if it has a number of them
unfoldable pub missing_buckets : Option ℕ → ℕ → ℕ
missing_buckets none nbuckets = if ltb 0 nbuckets then 1 else 0
missing_buckets (some a) nbuckets = 0

-- the frees of free_tscontext, and hmap_deinit
unfoldable pub free_tscontext : Worker → Machine → Worker × Machine
unfolding release_all missing_buckets
free_tscontext w m =
    let m1 = release_all w.queues (release w.events m) in
    let m2 = record m1 { faults = m1.faults + missing_buckets w.buckets w.nbuckets } in
    (
      record w { buckets = none; nbuckets = 0; nodes = [] },
      release w.buckets (release_all w.nodes m2),
    )

-- as many allocations as there are answers
unfoldable pub allocate_all : List Bool → Machine → List (Option ℕ) × Machine
unfolding allocate
allocate_all [] m = ([], m)
allocate_all (g ∷ gs) m =
    let (p, m1) = allocate g m in let (ps, m2) = allocate_all gs m1 in (p ∷ ps, m2)

unfoldable pub all_granted : List (Option ℕ) → Bool
all_granted [] = true
all_granted (none ∷ ps) = false
all_granted (some a ∷ ps) = all_granted ps

-- The answers to the eight calls of malloc, and to the calloc of hmap_init_int. The worker is that
-- before the call with the fields that memset and the assignments give it; `false` is -1.
pub record InitAnswers : Type 0 where
  pub queues_granted : List Bool
  pub buckets_granted : Bool

unfoldable pub init_tscontext : InitAnswers → Machine → (Bool × Worker) × Machine
unfolding allocate_all all_granted free_tscontext
init_tscontext answers m =
    let (queues, m1) = allocate_all answers.queues_granted m in
    let w = record zero_worker { epfd = none; wake_fd = none; queues = queues } in
    if all_granted queues
    then (let (buckets, m2) = allocate answers.buckets_granted m1 in
        (
          (
            true,
            record w { buckets = buckets; nbuckets = hmap_default_nbuckets; hmap_ready = true },
          ),
          m2,
        ))
    else (let (freed, m2) = free_tscontext w m1 in ((false, freed), m2))

pub record NetServer : Type 0 where
  pub block : Option ℕ
  pub listen_fd : Option ℕ
  pub bound_port : Option ℕ
  pub nthreads : ℕ
  pub queuesize : ℕ
  pub stopping : Bool
  pub joined : Bool
  pub threads : Option ℕ
  pub ctxs : Option ℕ
  pub workers : List Worker
  pub started_threads : ℕ

unfoldable pub wake_all : List Worker → Machine → Machine
wake_all [] m = m
wake_all (w ∷ ws) m = wake_all ws (wake w.wake_fd)
  where
    wake : Option ℕ → Machine
    wake none = m
    wake (some fd) = record m { woken = m.woken ++ (fd ∷ []) }

-- `workers` are the contexts where `ctxs` is not NULL, and none else.
unfoldable pub net_server_stop : NetServer → Machine → NetServer × Machine
unfolding wake_all
net_server_stop server m =
    if server.stopping
    then (server, m)
    else (record server { stopping = true }, wake_all server.workers m)

unfoldable pub join_from : ℕ → ℕ → Machine → Machine
join_from i zero m = m
join_from i (suc n) m =
    join_from (suc i) n (record m { joined_threads = m.joined_threads ++ (i ∷ []) })

unfoldable pub net_server_wait : NetServer → Machine → NetServer × Machine
unfolding join_from
net_server_wait server m =
    if server.joined
    then (server, m)
    else (record server { joined = true }, join_from 0 server.started_threads m)

unfoldable pub free_workers : List Worker → Machine → Machine
unfolding free_tscontext
free_workers [] m = m
free_workers (w ∷ ws) m = free_workers ws (free_tscontext w m).1

unfoldable pub close_listen : Option ℕ → Machine → Machine
close_listen none m = m
close_listen (some fd) m = record m { closed_fds = m.closed_fds ++ (fd ∷ []) }

unfoldable pub net_server_destroy : NetServer → Machine → Machine
unfolding net_server_stop net_server_wait free_workers close_listen
net_server_destroy server m =
    let (stopped, m1) = net_server_stop server m in
    let (waited, m2) = net_server_wait stopped m1 in
    release_all (waited.ctxs ∷ waited.threads ∷ waited.block ∷ [])
      (close_listen waited.listen_fd (free_workers waited.workers m2))

unfoldable pub net_server_port : Option NetServer → Option ℕ
net_server_port none = none
net_server_port (some server) = server.bound_port

-- what the system answers to create_worker_thread, and to the malloc of the thread that it starts
pub record ThreadAnswers : Type 0 where
  pub epolled : Outcome ℕ
  pub evented : Outcome ℕ
  pub added_listen : Outcome ℕ
  pub added_wake : Outcome ℕ
  pub threaded : Outcome ℕ
  pub events_granted : Bool

-- ts_worker_loop up to its loop: where the array of the events gets no memory, the thread ends
unfoldable pub ts_worker_loop_begin : Bool → Worker → Machine → Worker × Machine
unfolding allocate
ts_worker_loop_begin granted w m =
    let (events, m1) = allocate granted m in (record w { events = events }, m1)

-- Whether it returns a descriptor, and the context as it leaves it, once the thread has begun.
unfoldable pub create_worker_thread :
    ThreadAnswers → ℕ → Worker → Machine → (Bool × Worker) × Machine
unfolding ts_worker_loop_begin
create_worker_thread answers index w m = elim answers.epolled [
  | failed e ↦ ((false, w), m)
  | returned epfd ↦ elim answers.evented [
    | failed e ↦ ((false, record w { wake_fd = none }), m)
    | returned wake_fd ↦
        let made = record w { wake_fd = some wake_fd; epfd = some epfd; index = index } in
        elim answers.added_listen [
          | failed e ↦ ((false, made), m)
          | returned _ ↦ elim answers.added_wake [
            | failed e ↦ ((false, made), m)
            | returned _ ↦ elim answers.threaded [
              | failed e ↦ ((false, made), record m { closed_fds = m.closed_fds ++ (epfd ∷ []) })
              | returned _ ↦
                  let (running, m1) = ts_worker_loop_begin answers.events_granted made m in
                  ((true, running), m1)
            ]
          ]
        ]
  ]
]
