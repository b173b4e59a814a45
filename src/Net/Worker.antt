-- ===== src/Net/Worker.antt =====
-- libv/src/net/net.c, ts_worker_loop over any number of iterations.
use mustdb.Net.Loop.{TsContext, Callbacks, Iteration, worker_iterations, ts_worker_loop}
use mustdb.Net.Queues.{occurs}
use mustdb.Net.Round.{IsClient, IsServed}
use mustdb.Net.Safety.{IsKept, ts_round-IsKept, bind_some}
use mustdb.Net.{eintr, eagain, ewouldblock, eexist, other_errno, Outcome, returned, failed}
use mustdb.Prelude.{
  ℕ, ◌^◌, ◌<◌, ◌≤◌, ◌≡◌, refl, Bool, true, false, if◌then◌else◌, Bool-cases, inl, inr, some, List,
  [], ◌∷◌,
}

-- the events of an iteration
unfoldable pub waited_events : Outcome (List ℕ) → List ℕ
waited_events (returned events) = events
waited_events (failed e) = []

-- what an iteration of the loop gets from outside
unfoldable pub AreServed : ℕ → List Iteration → Type 0
AreServed most [] = Unit
AreServed most (it ∷ its) =
    IsServed most it.system
    × ((x : ℕ) → occurs x (waited_events it.waited) ≤ 1)
    × AreServed most its

-- the loop runs from a context to one that is well kept
unfoldable Runs : Callbacks → ℕ → List Iteration → TsContext → Type 0
Runs callbacks most its sctx =
    (r : Bool × TsContext) × (worker_iterations callbacks its sctx ≡ some r) × IsKept most r.1

module _ (callbacks : Callbacks) (most : ℕ) (client : IsClient most callbacks)
    (below : most < 2 ^ 63) (it : Iteration) (its : List Iteration) (sctx : TsContext)
    (kept : IsKept most sctx)
    (rest : (s : TsContext) → IsKept most s → Runs callbacks most its s) where
  after_failure :
      (r : Bool × TsContext) × ((if it.stopping_after
          then some (true, sctx)
          else worker_iterations callbacks its sctx)
        ≡ some r)
      × IsKept most r.1
  unfolding Runs
  after_failure = elim (Bool-cases it.stopping_after) [
    | inl stops ↦ ((true, sctx), rw stops refl, kept)
    | inr runs ↦ rw runs (rest sctx kept)
  ]

  waited-Runs :
      (w : Outcome (List ℕ))
      → IsServed most it.system
      → ((x : ℕ) → occurs x (waited_events w) ≤ 1)
      → Runs callbacks most (record it { waited = w; stopping = false } ∷ its) sctx
  unfolding Runs worker_iterations waited_events
  waited-Runs (failed eintr) served _ = rest sctx kept
  waited-Runs (failed eagain) served _ = after_failure
  waited-Runs (failed ewouldblock) served _ = after_failure
  waited-Runs (failed eexist) served _ = after_failure
  waited-Runs (failed other_errno) served _ = after_failure
  waited-Runs (returned events) served once =
      let (s, ran, still, _) =
        ts_round-IsKept callbacks it.system events sctx most client served below once kept in
      let (r, goes_on, k) = rest s still in
      (r, bind_some (worker_iterations callbacks its) ran goes_on, k)

worker_iterations-IsKept :
    (callbacks : Callbacks) (its : List Iteration) (sctx : TsContext) (most : ℕ)
    → IsClient most callbacks
    → AreServed most its
    → most < 2 ^ 63
    → IsKept most sctx
    → (r : Bool × TsContext) × (worker_iterations callbacks its sctx ≡ some r) × IsKept most r.1
unfolding worker_iterations AreServed Runs
worker_iterations-IsKept callbacks [] sctx most client served below kept =
    ((false, sctx), refl, kept)
worker_iterations-IsKept callbacks (it ∷ its) sctx most client (served, distinct, later) below
      kept =
    elim (Bool-cases it.stopping) [
      | inl stops ↦ ((true, sctx), rw stops refl, kept)
      | inr runs ↦ rw runs (
          waited-Runs callbacks most client below it its sctx kept
            (λ s k. worker_iterations-IsKept callbacks its s most client later below k) it.waited
            served distinct)
    ]

-- However many iterations ts_worker_loop goes through, it never uses freed memory and each of its
-- rounds ends: the table stays well-formed and leads only to connections in memory with the
-- descriptor they are found under, and no connection has more than the given number of bytes of
-- output. This holds where the callbacks keep the descriptor and that bound, which is below 2^63,
-- epoll_wait reports no descriptor twice in an iteration, calloc refuses arrays of 2^61 pointers
-- and more, and each flush gets as many results of write as it can need.
pub ts_worker_loop-IsKept :
    (granted : Bool) (callbacks : Callbacks) (its : List Iteration) (sctx : TsContext) (most : ℕ)
    → IsClient most callbacks
    → AreServed most its
    → most < 2 ^ 63
    → IsKept most sctx
    → (r : Bool × TsContext) × (ts_worker_loop granted callbacks its sctx ≡ some r)
      × IsKept most r.1
unfolding ts_worker_loop
ts_worker_loop-IsKept true callbacks its sctx most client served below kept =
    worker_iterations-IsKept callbacks its sctx most client served below kept
ts_worker_loop-IsKept false callbacks its sctx most client served below kept =
    ((true, sctx), refl, kept)
