-- ===== src/Net/Server/Twice.antt =====
-- libv/src/net/net.c: what happens to the memory of a worker that net_server_start could not set up.
use mustdb.Net.Server.{
  Machine, allocate, release, release_all, allocate_all, all_granted, Worker, zero_worker,
  free_tscontext, InitAnswers, init_tscontext, missing_buckets,
}
use mustdb.Prelude.{
  ℕ, zero, suc, ◌+◌, ◌<◌, ◌≤◌, ◌≡◌, ◌≢◌, refl, sym, ap, ◌∙◌, arith, Bool, true, false, Option, none,
  some, List, [], ◌∷◌, length, get_or, set, Bool-cases, inl, inr,
}

-- the block is freed
abbrev IsFreed : ℕ → Machine → Type 0
IsFreed a m = get_or m.blocks a false ≡ false

set-false :
    (bs : List Bool) (a b : ℕ) → get_or bs a false ≡ false → get_or (set bs b false) a false ≡ false
set-false [] a b e = e
set-false (x ∷ bs) zero zero e = refl
set-false (x ∷ bs) zero (suc b) e = e
set-false (x ∷ bs) (suc a) zero e = e
set-false (x ∷ bs) (suc a) (suc b) e = set-false bs a b e

set-here : (bs : List Bool) (a : ℕ) → get_or (set bs a false) a false ≡ false
set-here [] a = refl
set-here (x ∷ bs) zero = refl
set-here (x ∷ bs) (suc a) = set-here bs a

release-IsFreed : (p : Option ℕ) (a : ℕ) (m : Machine) → IsFreed a m → IsFreed a (release p m)
unfolding release
release-IsFreed none a m e = e
release-IsFreed (some b) a m e = elim (Bool-cases (get_or m.blocks b false)) [
  | inl live ↦ rw live (set-false m.blocks a b e)
  | inr dead ↦ rw dead e
]

release-IsFreed_here : (a : ℕ) (m : Machine) → IsFreed a (release (some a) m)
unfolding release
release-IsFreed_here a m = elim (Bool-cases (get_or m.blocks a false)) [
  | inl live ↦ rw live (set-here m.blocks a)
  | inr dead ↦ rw dead dead
]

release_all-IsFreed :
    (ps : List (Option ℕ)) (a : ℕ) (m : Machine) → IsFreed a m → IsFreed a (release_all ps m)
unfolding release_all
release_all-IsFreed [] a m e = e
release_all-IsFreed (p ∷ ps) a m e =
    release_all-IsFreed ps a (release p m) (release-IsFreed p a m e)

release_all-IsFreed_head :
    (a : ℕ) (ps : List (Option ℕ)) (m : Machine) → IsFreed a (release_all (some a ∷ ps) m)
unfolding release_all
release_all-IsFreed_head a ps m =
    release_all-IsFreed ps a (release (some a) m) (release-IsFreed_here a m)

release_more : (p : Option ℕ) (m : Machine) → m.faults ≤ (release p m).faults
unfolding release
release_more none m = omega arith
release_more (some a) m = ground arith

release_all_more : (ps : List (Option ℕ)) (m : Machine) → m.faults ≤ (release_all ps m).faults
unfolding release_all
release_all_more [] m = omega arith
release_all_more (p ∷ ps) m = omega (arith, release_more p m, release_all_more ps (release p m))

again_faults : (a : ℕ) (m : Machine) → IsFreed a m → m.faults < (release (some a) m).faults
unfolding release
again_faults a m e = rw e (omega arith)

-- the queues of a worker whose first block is freed already
twice :
    (a : ℕ) (ps : List (Option ℕ)) (m : Machine)
    → IsFreed a m
    → m.faults < (release_all (some a ∷ ps) m).faults
unfolding release_all
twice a ps m e = omega (arith, again_faults a m e, release_all_more ps (release (some a) m))

-- the context that init_tscontext fills before it looks at the results of malloc
abbrev pub begun : List (Option ℕ) → Worker
begun queues = record zero_worker { epfd = none; wake_fd = none; queues = queues }

plus_zero : (n : ℕ) → n + 0 ≡ n
plus_zero n = omega arith

free-begun :
    (queues : List (Option ℕ)) (m : Machine)
    → free_tscontext (begun queues) m ≡ (begun queues, release_all queues m)
unfolding free_tscontext release_all release missing_buckets
free-begun queues m =
    ap (λ (n : ℕ). (begun queues, record (release_all queues m) { faults = n }))
      (plus_zero (release_all queues m).faults)

pub init_failed :
    (answers : InitAnswers) (m : Machine)
    → let (queues, m1) = allocate_all answers.queues_granted m in
      all_granted queues ≡ false
      → init_tscontext answers m ≡ ((false, begun queues), release_all queues m1)
unfolding init_tscontext
init_failed answers m e =
    let (queues, m1) = allocate_all answers.queues_granted m in
    rw e (ap (λ (r : Worker × Machine). ((false, r.0), r.1)) (free-begun queues m1))

init_done :
    (answers : InitAnswers) (m : Machine)
    → all_granted (allocate_all answers.queues_granted m).0 ≡ true
    → (init_tscontext answers m).0.0 ≡ true
unfolding init_tscontext
init_done answers m e = rw e refl

-- the first malloc is granted
abbrev pub first_granted : List Bool → Bool → InitAnswers
first_granted gs buckets_granted = record {
  queues_granted = true ∷ gs;
  buckets_granted = buckets_granted;
}

first_queue :
    (gs : List Bool) (m : Machine)
    → (ps : List (Option ℕ)) × ((allocate_all (true ∷ gs) m).0 ≡ some (length m.blocks) ∷ ps)
unfolding allocate_all allocate
first_queue gs m = (_, refl)

-- When init_tscontext fails after its first malloc was granted, freeing the context once more, as
-- net_server_destroy does after net_server_start has failed, frees a block that is freed already.
pub init_tscontext-twice :
    (gs : List Bool) (buckets_granted : Bool) (m : Machine)
    → (init_tscontext (first_granted gs buckets_granted) m).0.0 ≡ false
    → let ((ok, w), m1) = init_tscontext (first_granted gs buckets_granted) m in
      m1.faults < (free_tscontext w m1).1.faults
init_tscontext-twice gs buckets_granted m failed =
    let answers = first_granted gs buckets_granted in
    let made = allocate_all (true ∷ gs) m in
    let (ps, first) = first_queue gs m in
    elim (Bool-cases (all_granted made.0)) [
      | inl all ↦ absurd (true≢false (sym (init_done answers m all) ∙ failed))
      | inr some_refused ↦
          rw (init_failed answers m some_refused, free-begun made.0 (release_all made.0 made.1))
            (rw first (freed_twice (length m.blocks) ps made.1))
    ]
  where
    true≢false : true ≢ false
    true≢false = cc

    freed_twice :
        (a : ℕ) (ps : List (Option ℕ)) (m : Machine)
        → (release_all (some a ∷ ps) m).faults
          < (release_all (some a ∷ ps) (release_all (some a ∷ ps) m)).faults
    freed_twice a ps m = twice a ps (release_all (some a ∷ ps) m) (release_all-IsFreed_head a ps m)
