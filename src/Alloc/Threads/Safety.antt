-- ===== src/Alloc/Threads/Safety.antt =====
-- How many threads pass mem_should_fail, by the interleavings of their steps.
use mustdb.Alloc.Threads.{
  Thread, ready, loaded, passed, refused, Shared, same_value, thread_step, shared_step, Reachable,
  start, step, one_passed, one_refused, count, count-set, count-replicate,
}
use mustdb.Alloc.{ℤ, pos, negsuc, mem_should_fail}
use mustdb.Prelude.{
  ℕ, zero, suc, ◌+◌, ◌≤◌, ◌<◌, ◌≡◌, refl, sym, arith, Bool, true, false, some, List, [], ◌∷◌,
  get_elem?, set, replicate, ◌==◌, ==_iff, ◌&&◌, not, if◌then◌else◌, Bool-cases, inl, inr,
}

-- what a thread has seen is no less than the countdown, which is 0 once a thread was refused
abbrev IsSound : ℕ → Thread → Type 0
IsSound m ready = Unit
IsSound m (loaded (pos n)) = m ≤ n
IsSound m (loaded (negsuc n)) = ⊥
IsSound m passed = Unit
IsSound m refused = m ≡ 0

AllSound : ℕ → List Thread → Type 0
AllSound m [] = Unit
AllSound m (t ∷ threads) = IsSound m t × AllSound m threads

weaken : (m n : ℕ) (t : Thread) → n ≤ m → IsSound m t → IsSound n t
weaken m n ready le w = w
weaken m n (loaded (pos k)) le w = omega arith
weaken m n (loaded (negsuc k)) le w = absurd w
weaken m n passed le w = w
weaken m n refused le w = omega arith

all-weaken : (m n : ℕ) (threads : List Thread) → n ≤ m → AllSound m threads → AllSound n threads
unfolding AllSound
all-weaken m n [] le w = w
all-weaken m n (t ∷ threads) le w = (weaken m n t le w.0, all-weaken m n threads le w.1)

all-get :
    (m : ℕ) (threads : List Thread) (i : ℕ) (t : Thread)
    → get_elem? threads i ≡ some t
    → AllSound m threads
    → IsSound m t
unfolding AllSound
all-get m [] i t e w = cc
all-get m (x ∷ threads) zero t e w = let same : x ≡ t = cc in rw (sym same) w.0
all-get m (x ∷ threads) (suc i) t e w = all-get m threads i t e w.1

all-set :
    (m : ℕ) (threads : List Thread) (i : ℕ) (t : Thread)
    → IsSound m t
    → AllSound m threads
    → AllSound m (set threads i t)
unfolding AllSound
all-set m [] i t sound w = w
all-set m (x ∷ threads) zero t sound w = (sound, w.1)
all-set m (x ∷ threads) (suc i) t sound w = (w.0, all-set m threads i t sound w.1)

all-ready : (m k : ℕ) → AllSound m (replicate k ready)
unfolding AllSound
all-ready m zero = tt
all-ready m (suc k) = (tt, all-ready m k)

abbrev IsCounted : ℕ → ℤ → List Thread → Type 0
IsCounted n (pos m) threads = (m + count one_passed threads ≡ n) × AllSound m threads
IsCounted n (negsuc m) threads = ⊥

and_left : (a b : Bool) → a && b ≡ true → a ≡ true
and_left true b e = refl
and_left false b e = e

-- a thread that does not pass leaves the countdown
stays :
    (n m : ℕ) (threads : List Thread) (i : ℕ) (old new : Thread)
    → one_passed old ≡ one_passed new
    → IsSound m new
    → get_elem? threads i ≡ some old
    → IsCounted n (pos m) threads
    → IsCounted n (pos m) (set threads i new)
stays n m threads i old new same sound e w = (
  omega (arith, count-set one_passed threads i old new e, same, w.0),
  all-set m threads i new sound w.1,
)

turn-IsCounted :
    (n : ℕ) (weak : Bool) (c : ℤ) (threads : List Thread) (i : ℕ) (t : Thread)
    → get_elem? threads i ≡ some t
    → IsCounted n c threads
    → IsCounted n (thread_step weak c t).0 (set threads i (thread_step weak c t).1)
unfolding thread_step same_value
turn-IsCounted n weak (negsuc m) threads i t e w = absurd w
turn-IsCounted n weak (pos m) threads i ready e w =
    stays n m threads i ready (loaded (pos m)) refl (omega arith) e w
turn-IsCounted n weak (pos m) threads i (loaded (negsuc k)) e w =
    absurd (all-get m threads i (loaded (negsuc k)) e w.1)
turn-IsCounted n weak (pos m) threads i (loaded (pos zero)) e w =
    let seen = all-get m threads i (loaded (pos zero)) e w.1 in
    stays n m threads i (loaded (pos zero)) refused refl (omega arith) e w
turn-IsCounted n weak (pos m) threads i (loaded (pos (suc k))) e w =
    elim (Bool-cases ((m == suc k) && not weak)) [
      | inl same ↦
          let equal : m ≡ suc k = (==_iff m (suc k)).0 (and_left (m == suc k) (not weak) same) in
          rw same (
            omega
                (arith, count-set one_passed threads i (loaded (pos (suc k))) passed e, equal, w.0),
            all-set k threads i passed tt (all-weaken m k threads (omega arith) w.1),
          )
      | inr differs ↦
          rw differs
            (stays n m threads i (loaded (pos (suc k))) (loaded (pos m)) refl (omega arith) e w)
    ]
turn-IsCounted n weak (pos m) threads i passed e w = stays n m threads i passed passed refl tt e w
turn-IsCounted n weak (pos m) threads i refused e w =
    stays n m threads i refused refused refl (all-get m threads i refused e w.1) e w

Reachable-IsCounted :
    (n k : ℕ) (s : Shared) → Reachable n k s → IsCounted n s.fault_countdown s.threads
unfolding shared_step
Reachable-IsCounted n k _ start = (omega (arith, count-replicate one_passed k refl), all-ready n k)
Reachable-IsCounted n k _ (step {s = s} weak i t r e) =
    turn-IsCounted n weak s.fault_countdown s.threads i t e (Reachable-IsCounted n k s r)

-- a refused thread has seen a countdown of 0
refused-none :
    (m : ℕ) (threads : List Thread) → 0 < count one_refused threads → AllSound m threads → m ≡ 0
unfolding count AllSound
refused-none m [] lt w = omega arith
refused-none m (ready ∷ threads) lt w = refused-none m threads (omega (arith, lt)) w.1
refused-none m (loaded c ∷ threads) lt w = refused-none m threads (omega (arith, lt)) w.1
refused-none m (passed ∷ threads) lt w = refused-none m threads (omega (arith, lt)) w.1
refused-none m (refused ∷ threads) lt w = w.0

-- No more threads pass than the countdown was set to.
pub passed-le : (n k : ℕ) (s : Shared) → Reachable n k s → count one_passed s.threads ≤ n
passed-le n k s r = at_most n s.fault_countdown s.threads (Reachable-IsCounted n k s r)
  where
    at_most :
        (n : ℕ) (c : ℤ) (threads : List Thread)
        → IsCounted n c threads
        → count one_passed threads ≤ n
    at_most n (pos m) threads w = omega (arith, w.0)
    at_most n (negsuc m) threads w = absurd w

-- However the threads that call mem_should_fail interleave, and however often the compare-and-
-- swap fails, once one thread was refused exactly as many have passed as the countdown was set
-- to.
pub passed-refused :
    (n k : ℕ) (s : Shared)
    → Reachable n k s
    → 0 < count one_refused s.threads
    → count one_passed s.threads ≡ n
passed-refused n k s r lt = exactly n s.fault_countdown s.threads (Reachable-IsCounted n k s r) lt
  where
    exactly :
        (n : ℕ) (c : ℤ) (threads : List Thread)
        → IsCounted n c threads
        → 0 < count one_refused threads
        → count one_passed threads ≡ n
    exactly n (pos m) threads w lt = omega (arith, w.0, refused-none m threads lt w.1)
    exactly n (negsuc m) threads w lt = absurd w

-- a thread that runs alone
abbrev pub alone : ℕ → ℤ → Thread → ℤ × Thread
alone zero c t = (c, t)
alone (suc n) c t = alone n (thread_step false c t).0 (thread_step false c t).1

-- the state in which a call of mem_should_fail with that result ends
abbrev pub returned : Bool → Thread
returned b = if b then refused else passed

-- Two steps of a thread that runs alone, without a spurious failure, return what mem_should_fail
-- returns and leave its countdown.
pub alone-mem_should_fail :
    (c : ℤ) → alone 2 c ready ≡ ((mem_should_fail c).1, returned (mem_should_fail c).0)
unfolding thread_step mem_should_fail same_value
alone-mem_should_fail (negsuc n) = refl
alone-mem_should_fail (pos zero) = refl
alone-mem_should_fail (pos (suc n)) = rw ((==_iff (suc n) (suc n)).1 refl) refl
