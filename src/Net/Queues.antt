-- ===== src/Net/Queues.antt =====
-- libv/src/net/net.c: which connections stand in the queues of a worker during a round.
use mustdb.Net.{NetConn}
use mustdb.Net.Loop.{TsContext}
use mustdb.Net.Table.{
  Holds, Holds-lt, IsTracked, put-IsTracked, delete-IsTracked, some_eq, none≢some,
}
use mustdb.Hmap.Buckets.{nat-cases}
use mustdb.Hmap.{hmap_delete}
use mustdb.Prelude.{
  ℕ, zero, suc, ◌+◌, ◌<◌, ◌≤◌, ◌≡◌, ◌≢◌, refl, sym, ap, ◌∙◌, arith, Bool, true, false, Option, none,
  some, List, [], ◌∷◌, ◌++◌, map, length, length-append, length-map, get_or, set, get_or-set_self,
  get_or-set_ne, ◌==◌, ==_iff, if◌then◌else◌, inl, inr,
}

unfoldable pub same_one : ℕ → ℕ → ℕ
same_one x y = if x == y then 1 else 0

-- how often a number stands in a list
unfoldable pub occurs : ℕ → List ℕ → ℕ
unfolding same_one
occurs x [] = 0
occurs x (y ∷ ys) = same_one x y + occurs x ys

pub occurs-nil : (x : ℕ) → occurs x [] ≡ 0
unfolding occurs
occurs-nil x = refl

pub occurs-cons : (x y : ℕ) (ys : List ℕ) → occurs x (y ∷ ys) ≡ same_one x y + occurs x ys
unfolding occurs
occurs-cons x y ys = refl

pub occurs-append : (x : ℕ) (xs ys : List ℕ) → occurs x (xs ++ ys) ≡ occurs x xs + occurs x ys
unfolding occurs
occurs-append x [] ys = omega arith
occurs-append x (y ∷ xs) ys = omega (arith, occurs-append x xs ys)

pub occurs-head : (x : ℕ) (xs : List ℕ) → occurs x (x ∷ xs) ≡ suc (occurs x xs)
unfolding occurs
occurs-head x xs = rw ((==_iff x x).1 refl) (omega arith)

pub occurs-tail : (x y : ℕ) (xs : List ℕ) → occurs x xs ≤ occurs x (y ∷ xs)
unfolding occurs
occurs-tail x y xs = omega arith

-- the connections of ins_que
unfoldable pub conns_of : List (ℕ × List ℕ) → List ℕ
conns_of [] = []
conns_of ((a, pkt) ∷ ins) = a ∷ conns_of ins

pub conns_of-append :
    (ins : List (ℕ × List ℕ)) (a : ℕ) (pkt : List ℕ)
    → conns_of (ins ++ ((a, pkt) ∷ [])) ≡ conns_of ins ++ (a ∷ [])
unfolding conns_of
conns_of-append [] a pkt = refl
conns_of-append ((b, p) ∷ ins) a pkt = ap (λ (t : List ℕ). b ∷ t) (conns_of-append ins a pkt)

pub length-conns_of : (ins : List (ℕ × List ℕ)) → length (conns_of ins) ≡ length ins
unfolding conns_of
length-conns_of [] = refl
length-conns_of ((a, pkt) ∷ ins) = ap suc (length-conns_of ins)

-- what counts the members of queues
pub ruleset counts =
    (occurs-nil, occurs-cons, occurs-append, conns_of-append, length-append, length-conns_of)

-- The connections of `pool` are in memory, with a descriptor that is not in `fds`, and none
-- stands there twice; no connection has more output than `most`.
pub record IsSound (most n : ℕ) (fds pool : List ℕ) (sctx : TsContext) : Type 0 where
  pub tracked : IsTracked sctx.hmap sctx.conns
  pub small : (a : ℕ) (conn : NetConn) → Holds sctx.conns a conn → conn.outlen ≤ most
  pub once : (a : ℕ) → occurs a pool ≤ 1
  pub live :
      (a : ℕ)
      → 0 < occurs a pool
      → (conn : NetConn) × Holds sctx.conns a conn × (occurs conn.fd fds ≡ 0)
  pub few : length pool + length fds ≤ n

-- The arrays of the queues have `n` places: pread_que, ins_que, attachs_que, outs_que, closes_que.
abbrev pub AreFew : ℕ → TsContext → Type 0
AreFew n sctx =
    (length sctx.pread_que ≤ n)
    × (length sctx.ins_que ≤ n)
    × (length sctx.attachs_que ≤ n)
    × (length sctx.outs_que ≤ n)
    × (length sctx.closes_que ≤ n)

-- what holds of both branches holds of the conditional
pub either {ℓ κ} :
    {A : Type ℓ} (P : A → Type κ) (b : Bool) {x y : A} → P x → P y → P (if b then x else y)
either P true p q = p
either P false p q = q

module _ {most n : ℕ} {fds pool : List ℕ} {sctx : TsContext}
    (s : IsSound most n fds pool sctx) where
  -- a pool with the same members, in a context with the same connections
  pub move-IsSound :
      (pool' : List ℕ) (sctx' : TsContext)
      → sctx'.hmap ≡ sctx.hmap
      → sctx'.conns ≡ sctx.conns
      → ((x : ℕ) → occurs x pool' ≤ occurs x pool)
      → length pool' ≤ length pool
      → IsSound most n fds pool' sctx'
  move-IsSound pool' sctx' h c fewer shorter = record {
    tracked = rw (h, c) s.tracked;
    small = rw c s.small;
    once = λ a. omega (arith, fewer a, s.once a);
    live = λ a in_pool. rw c (s.live a (omega (arith, fewer a)));
    few = omega (arith, s.few);
  }

  -- a connection that changes but keeps its descriptor
  pub put-IsSound :
      (a : ℕ) (old new : NetConn)
      → Holds sctx.conns a old
      → new.fd ≡ old.fd
      → new.outlen ≤ most
      → IsSound most n fds pool (record sctx { conns = set sctx.conns a (some new) })
  put-IsSound a old new holds same bounded = record {
    tracked = put-IsTracked s.tracked a old new holds same;
    small = λ b conn there. elim (nat-cases a b) [
      | inl e ↦
          let is_new : new ≡ conn =
            some_eq new conn
              (sym here ∙ ap (λ (i : ℕ). get_or (set sctx.conns a (some new)) i none) e ∙ there) in
          rw (sym is_new) bounded
      | inr ne ↦ s.small b conn (sym (get_or-set_ne sctx.conns a b (some new) none ne) ∙ there)
    ];
    once = s.once;
    live = λ b in_pool.
        let (conn, there, apart) = s.live b in_pool in
        elim (nat-cases a b) [
          | inl e ↦ (
            new,
            ap (λ (i : ℕ). get_or (set sctx.conns a (some new)) i none) (sym e) ∙ here,
            ap (λ (i : ℕ). occurs i fds)
                  (same
                    ∙ ap NetConn.fd (
                        some_eq old conn
                          (sym holds ∙ ap (λ (i : ℕ). get_or sctx.conns i none) e ∙ there)))
                ∙ apart,
          )
          | inr ne ↦ (conn, get_or-set_ne sctx.conns a b (some new) none ne ∙ there, apart)
        ];
    few = s.few;
  }
    where
      here : Holds (set sctx.conns a (some new)) a new
      here = get_or-set_self sctx.conns a (some new) none (Holds-lt sctx.conns a old holds)

module _ {most n a : ℕ} {pool : List ℕ} {sctx : TsContext}
    (s : IsSound most n [] (a ∷ pool) sctx) where
  -- the first connection of the queue that is being served
  pub first : (conn : NetConn) × Holds sctx.conns a conn
  first = let (conn, holds, _) = s.live a (omega (arith, occurs-head a pool)) in (conn, holds)

  -- its memory is freed, and it leaves the queue
  pub free-IsSound :
      (conn : NetConn)
      → Holds sctx.conns a conn
      → IsSound most n [] pool
          (record sctx { hmap = (hmap_delete sctx.hmap conn.fd).1; conns = set sctx.conns a none })
  free-IsSound conn holds = record {
    tracked = delete-IsTracked s.tracked a conn holds;
    small = λ b c there. elim (nat-cases a b) [
      | inl e ↦ absurd (
          none≢some c (
            sym (get_or-set_self sctx.conns a none none (Holds-lt sctx.conns a conn holds))
            ∙ ap (λ (i : ℕ). get_or (set sctx.conns a none) i none) e
            ∙ there))
      | inr ne ↦ s.small b c (sym (get_or-set_ne sctx.conns a b none none ne) ∙ there)
    ];
    once = λ b. omega (arith, s.once b, occurs-tail b a pool);
    live = λ b in_pool.
        let (c, there, apart) = s.live b (omega (arith, occurs-tail b a pool)) in
        (c, get_or-set_ne sctx.conns a b none none (others b in_pool) ∙ there, apart);
    few = omega (arith, s.few);
  }
    where
      others : (b : ℕ) → 0 < occurs b pool → a ≢ b
      others b in_pool e = absurd (omega (arith, s.once a, occurs-head a pool, here))
        where
          here : 0 < occurs a pool
          here = rw e in_pool
