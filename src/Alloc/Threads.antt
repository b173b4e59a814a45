-- ===== src/Alloc/Threads.antt =====
-- src/utils/alloc.c, mem_should_fail under threads: each thread loads the countdown and takes one off
-- by compare-and-swap, which may fail although the value is the one loaded.
pub mod Safety
use mustdb.Alloc.{ℤ, pos, negsuc, mem_should_fail}
use mustdb.Prelude.{
  ℕ, zero, suc, ◌+◌, ◌≤◌, ◌<◌, ◌≡◌, ◌≢◌, refl, sym, ap, ◌∙◌, arith, Bool, true, false, Option, none,
  some, List, [], ◌∷◌, get_elem?, set, replicate, ◌==◌, ==_iff, ◌&&◌, not, if◌then◌else◌,
  Bool-cases, inl, inr, ◌⊎◌,
}

-- where a thread is: before the load, at the tests with the value it has, or returned
pub data Thread : Type 0 where
  ready : Thread
  loaded : ℤ → Thread
  passed refused : Thread

pub record Shared : Type 0 where
  pub fault_countdown : ℤ
  pub threads : List Thread

unfoldable pub same_value : ℤ → ℕ → Bool
same_value (pos m) n = m == n
same_value (negsuc m) n = false

-- One step of a thread, with the countdown it meets and leaves. `weak` is a failure of the
-- compare-and-swap for no reason.
unfoldable pub thread_step : Bool → ℤ → Thread → ℤ × Thread
unfolding same_value
thread_step weak c ready = (c, loaded c)
thread_step weak c (loaded (negsuc n)) = (c, passed)
thread_step weak c (loaded (pos zero)) = (c, refused)
thread_step weak c (loaded (pos (suc n))) =
    if same_value c (suc n) && not weak then (pos n, passed) else (c, loaded c)
thread_step weak c passed = (c, passed)
thread_step weak c refused = (c, refused)

unfoldable pub shared_step : Bool → ℕ → Thread → Shared → Shared
unfolding thread_step
shared_step weak i t s = record {
  fault_countdown = (thread_step weak s.fault_countdown t).0;
  threads = set s.threads i (thread_step weak s.fault_countdown t).1;
}

-- the states that `k` threads reach from a countdown of `n`, one step of one thread at a time
pub data Reachable (n k : ℕ) : Shared → Type 0 where
  start : Reachable n k (record { fault_countdown = pos n; threads = replicate k ready })
  step :
      {s : Shared} (weak : Bool) (i : ℕ) (t : Thread)
      → Reachable n k s
      → get_elem? s.threads i ≡ some t
      → Reachable n k (shared_step weak i t s)

abbrev pub one_passed : Thread → ℕ
one_passed passed = 1
one_passed _ = 0

abbrev pub one_refused : Thread → ℕ
one_refused refused = 1
one_refused _ = 0

-- how many threads an allocation was granted and refused
unfoldable pub count : (Thread → ℕ) → List Thread → ℕ
count one [] = 0
count one (t ∷ threads) = one t + count one threads

pub count-set :
    (one : Thread → ℕ) (threads : List Thread) (i : ℕ) (old new : Thread)
    → get_elem? threads i ≡ some old
    → count one (set threads i new) + one old ≡ count one threads + one new
unfolding count
count-set one [] i old new e = cc
count-set one (t ∷ threads) zero old new e = let same : t ≡ old = cc in rw same (omega arith)
count-set one (t ∷ threads) (suc i) old new e = omega (arith, count-set one threads i old new e)

pub count-replicate : (one : Thread → ℕ) (k : ℕ) → one ready ≡ 0 → count one (replicate k ready) ≡ 0
unfolding count
count-replicate one zero e = refl
count-replicate one (suc k) e = omega (arith, e, count-replicate one k e)
