-- ===== src/Net/Server/Release.antt =====
-- libv/src/net/net.c: the memory of a server that starts, serves nothing yet, and is destroyed.
use mathlib.Core.Path.{subst}
use mustdb.Net.Server.Owned.{
  in_use, held, IsOwned, allocate-IsOwned, release-IsOwned, allocate_all-IsOwned,
  release_all-IsOwned,
}
use mustdb.Net.Server.{
  Machine, allocate, release, release_all, allocate_all, all_granted, Worker, zero_worker,
  free_tscontext, missing_buckets, InitAnswers, init_tscontext, free_workers,
}
use mustdb.Net.Server.Twice.{begun, init_failed}
use mustdb.Net.Server.Start.{init_workers}
use mustdb.Hmap.{hmap_default_nbuckets}
use mustdb.Prelude.{
  ℕ, zero, suc, ◌+◌, length, ◌≡◌, ◌≢◌, refl, sym, ◌∙◌, arith, Bool, true, false, replicate, Option,
  none, some, List, [], ◌∷◌, if◌then◌else◌, Bool-cases, inl, inr, ◌⊎◌,
}

-- how often a block stands in the fields of a worker, and of several
unfoldable pub worker_holds : ℕ → Worker → ℕ
unfolding held
worker_holds x w =
    held x (w.events ∷ []) + held x w.queues + held x w.nodes + held x (w.buckets ∷ [])

unfoldable pub workers_hold : ℕ → List Worker → ℕ
unfolding worker_holds
workers_hold x [] = 0
workers_hold x (w ∷ ws) = worker_holds x w + workers_hold x ws

-- the table has buckets if it has a number of them
abbrev pub IsWhole : Worker → Type 0
IsWhole w = (w.nbuckets ≡ 0) ⊎ ((a : ℕ) × (w.buckets ≡ some a))

-- before its thread has begun, a worker has no array of events
abbrev pub IsReady : Worker → Type 0
IsReady w = IsWhole w × (w.events ≡ none)

whole-missing : (w : Worker) → IsWhole w → missing_buckets w.buckets w.nbuckets ≡ 0
unfolding missing_buckets
whole-missing w (inl e) = ground arith
whole-missing w (inr (a, e)) = rw e refl

pub free_tscontext-IsOwned :
    (w : Worker) (m : Machine) (count : ℕ → ℕ)
    → IsWhole w
    → IsOwned (λ x. worker_holds x w + count x) m
    → IsOwned count (free_tscontext w m).1 × ((free_tscontext w m).1.faults ≡ m.faults)
unfolding free_tscontext worker_holds IsOwned in_use
free_tscontext-IsOwned w m count whole owned =
    let (o1, s1) =
      release-IsOwned w.events m
        (λ x. held x w.queues + (held x w.nodes + (held x (w.buckets ∷ []) + count x)))
        (λ x. omega (arith, owned x)) in
    let m1 = release w.events m in
    let (o2, s2) =
      release_all-IsOwned w.queues m1 (λ x. held x w.nodes + (held x (w.buckets ∷ []) + count x))
        o1 in
    let m2 = release_all w.queues m1 in
    let m3 = record m2 { faults = m2.faults + missing_buckets w.buckets w.nbuckets } in
    let (o3, s3) = release_all-IsOwned w.nodes m3 (λ x. held x (w.buckets ∷ []) + count x) o2 in
    let (o4, s4) = release-IsOwned w.buckets (release_all w.nodes m3) count o3 in
    (o4, omega (arith, s1, s2, s3, s4, whole-missing w whole))

unfoldable pub AllWhole : List Worker → Type 0
AllWhole [] = Unit
AllWhole (w ∷ ws) = IsWhole w × AllWhole ws

unfoldable pub AllReady : List Worker → Type 0
AllReady [] = Unit
AllReady (w ∷ ws) = IsReady w × AllReady ws

pub free_workers-IsOwned :
    (ws : List Worker) (m : Machine) (count : ℕ → ℕ)
    → AllWhole ws
    → IsOwned (λ x. workers_hold x ws + count x) m
    → IsOwned count (free_workers ws m) × ((free_workers ws m).faults ≡ m.faults)
unfolding free_workers workers_hold IsOwned AllWhole
free_workers-IsOwned [] m count whole owned = (λ x. omega (arith, owned x), refl)
free_workers-IsOwned (w ∷ ws) m count whole owned =
    let (o1, s1) =
      free_tscontext-IsOwned w m (λ x. workers_hold x ws + count x) whole.0
        (λ x. omega (arith, owned x)) in
    let (o2, s2) = free_workers-IsOwned ws (free_tscontext w m).1 count whole.1 o1 in (o2, s2 ∙ s1)

-- the context that init_tscontext leaves when it returns 0
abbrev ready : List (Option ℕ) → Option ℕ → Worker
ready queues buckets = record (begun queues) {
  buckets = buckets;
  nbuckets = hmap_default_nbuckets;
  hmap_ready = true;
}

init_succeeded :
    (answers : InitAnswers) (m : Machine)
    → let (queues, m1) = allocate_all answers.queues_granted m in
      all_granted queues ≡ true
      → let (buckets, m2) = allocate answers.buckets_granted m1 in
        init_tscontext answers m ≡ ((true, ready queues buckets), m2)
unfolding init_tscontext
init_succeeded answers m e = rw e refl

-- what a worker owns once it is set up
unfoldable IsSetUp : (ℕ → ℕ) → ℕ → (Bool × Worker) × Machine → Type 0
IsSetUp count faults ((ok, w), m) =
    ok ≡ true → IsOwned (λ x. worker_holds x w + count x) m × (m.faults ≡ faults) × IsReady w

false≢true : false ≢ true
false≢true = cc

ready-IsSetUp :
    (buckets_granted : Bool) (queues : List (Option ℕ)) (m : Machine) (count : ℕ → ℕ) (faults : ℕ)
    → buckets_granted ≡ true
    → m.faults ≡ faults
    → let (buckets, m2) = allocate buckets_granted m in
      IsOwned (λ x. held x (buckets ∷ []) + (held x queues + count x)) m2
      → m2.faults ≡ m.faults
      → IsSetUp count faults ((true, ready queues buckets), m2)
unfolding IsSetUp worker_holds IsOwned held allocate
ready-IsSetUp true queues m count faults granted s1 o2 s2 =
    λ _. (λ x. omega (arith, o2 x), s2 ∙ s1, (inr (length m.blocks, refl), refl))
ready-IsSetUp false queues m count faults granted s1 o2 s2 = absurd (false≢true granted)

init_tscontext-IsSetUp :
    (answers : InitAnswers) (m : Machine) (count : ℕ → ℕ)
    → answers.buckets_granted ≡ true
    → IsOwned count m
    → IsSetUp count m.faults (init_tscontext answers m)
unfolding IsSetUp
init_tscontext-IsSetUp answers m count granted owned =
    let (queues, m1) = allocate_all answers.queues_granted m in
    let (o1, s1) = allocate_all-IsOwned answers.queues_granted m count owned in
    let (o2, s2) = allocate-IsOwned answers.buckets_granted m1 (λ x. held x queues + count x) o1 in
    elim (Bool-cases (all_granted queues)) [
      | inl all ↦
          subst (IsSetUp count m.faults) (sym (init_succeeded answers m all))
            (ready-IsSetUp answers.buckets_granted queues m1 count m.faults granted s1 o2 s2)
      | inr refused ↦
          subst (IsSetUp count m.faults) (sym (init_failed answers m refused))
            (λ e. absurd (false≢true e))
    ]

unfoldable pub AreSetUp : (ℕ → ℕ) → ℕ → (Bool × List Worker) × Machine → Type 0
AreSetUp count faults ((ok, ws), m) =
    ok ≡ true → IsOwned (λ x. workers_hold x ws + count x) m × (m.faults ≡ faults) × AllReady ws

none-AreSetUp :
    (m : Machine) (count : ℕ → ℕ) → IsOwned count m → AreSetUp count m.faults ((true, []), m)
unfolding AreSetUp workers_hold IsOwned AllReady
none-AreSetUp m count owned = λ _. (λ x. omega (arith, owned x), refl, tt)

-- one worker and those after it
add-AreSetUp :
    (ok : Bool) (w : Worker) (m : Machine) (rest : (Bool × List Worker) × Machine)
    (zeros : List Worker) (count : ℕ → ℕ) (faults : ℕ)
    → IsSetUp count faults ((ok, w), m)
    → (IsOwned (λ x. worker_holds x w + count x) m
        → AreSetUp (λ x. worker_holds x w + count x) m.faults rest)
    → AreSetUp count faults
        (if ok then ((rest.0.0, w ∷ rest.0.1), rest.1) else ((false, w ∷ zeros), m))
unfolding AreSetUp IsSetUp workers_hold IsOwned AllReady
add-AreSetUp true w m rest zeros count faults first later = λ e.
    let (o1, s1, whole) = first refl in
    let (o2, s2, all) = later o1 e in (λ x. omega (arith, o2 x), s2 ∙ s1, (whole, all))
add-AreSetUp false w m rest zeros count faults first later = λ e. absurd (false≢true e)

pub init_workers-AreSetUp :
    (answers : ℕ → InitAnswers) (i n : ℕ) (m : Machine) (count : ℕ → ℕ)
    → ((j : ℕ) → (answers j).buckets_granted ≡ true)
    → IsOwned count m
    → AreSetUp count m.faults (init_workers answers i n m)
unfolding init_workers
init_workers-AreSetUp answers i zero m count granted owned = none-AreSetUp m count owned
init_workers-AreSetUp answers i (suc n) m count granted owned =
    let ((ok, w), m1) = init_tscontext (answers i) m in
    add-AreSetUp ok w m1 (init_workers answers (suc i) n m1) (replicate n zero_worker) count
      m.faults (init_tscontext-IsSetUp (answers i) m count (granted i) owned)
      (λ o. init_workers-AreSetUp answers (suc i) n m1 (λ x. worker_holds x w + count x) granted o)
