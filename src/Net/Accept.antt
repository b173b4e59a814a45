-- ===== src/Net/Accept.antt =====
-- libv/src/net/net.c, the first phase of a round of ts_worker_loop: ts_accept.
use mustdb.Hmap.{hmap_get_value, hmap_insert}
use mustdb.Hmap.Buckets.{nat-cases}
use mustdb.Net.Loop.{TsContext, enqueue}
use mustdb.Net.Queues.{occurs, occurs-head, occurs-tail, same_one, counts, either, IsSound, AreFew}
use mustdb.Net.Table.{Holds, Holds-lt, insert-IsTracked, some_eq}
use mustdb.Net.{NetConn}
use mustdb.Prelude.{
  ℕ, zero, suc, ◌*◌, ◌^◌, ◌<◌, ◌≤◌, ◌≡◌, ◌≢◌, refl, sym, ap, ◌∙◌, arith, Bool, true, not, ltb, ◌==◌,
  Option, none, some, List, [], ◌∷◌, ◌++◌, length, get_or-append_lt, u64, inl, inr, ◌⊎◌,
}

-- the connections that ts_accept has put in queues
abbrev pub accepted_pool : TsContext → List ℕ
accepted_pool sctx = sctx.pread_que ++ (sctx.attachs_que ++ (sctx.outs_que ++ sctx.closes_que))

occurs-other : (x y : ℕ) (ys : List ℕ) → x ≢ y → occurs x (y ∷ ys) ≡ occurs x ys
unfolding occurs same_one
occurs-other x y ys ne = ground arith

holds-append :
    (conns : List (Option NetConn)) (new conn : NetConn) (b : ℕ)
    → Holds (conns ++ (some new ∷ [])) b conn
    → (new ≡ conn) ⊎ Holds conns b conn
holds-append [] new conn zero e = inl (some_eq new conn e)
holds-append [] new conn (suc b) e = inr e
holds-append (c ∷ conns) new conn zero e = inr e
holds-append (c ∷ conns) new conn (suc b) e = holds-append conns new conn b e

module _ {most n fd : ℕ} {fds pool : List ℕ} {sctx : TsContext}
    (s : IsSound most n (fd ∷ fds) pool sctx) where
  -- the event puts nothing in a queue
  pub skip-IsSound :
      (sctx' : TsContext)
      → sctx'.hmap ≡ sctx.hmap
      → sctx'.conns ≡ sctx.conns
      → IsSound most n fds pool sctx'
  skip-IsSound sctx' h c = record {
    tracked = rw (h, c) s.tracked;
    small = rw c s.small;
    once = s.once;
    live = λ a in_pool.
        let (conn, holds, apart) = s.live a in_pool in
        (conn, rw c holds, omega (arith, apart, occurs-tail conn.fd fd fds));
    few = omega (arith, s.few);
  }

  -- the event puts its connection in a queue
  queue-IsSound :
      (a : ℕ) (conn : NetConn) (pool' : List ℕ) (sctx' : TsContext)
      → Holds sctx.conns a conn
      → conn.fd ≡ fd
      → occurs fd fds ≡ 0
      → ((x : ℕ) → occurs x pool' ≤ occurs x (a ∷ pool))
      → length pool' ≤ suc (length pool)
      → sctx'.hmap ≡ sctx.hmap
      → sctx'.conns ≡ sctx.conns
      → IsSound most n fds pool' sctx'
  queue-IsSound a conn pool' sctx' holds same unique fewer shorter h c = record {
    tracked = rw (h, c) s.tracked;
    small = rw c s.small;
    once = λ x. elim (nat-cases x a) [
      | inl e ↦ rw e (omega (arith, fewer a, occurs-head a pool, not_yet))
      | inr ne ↦ omega (arith, fewer x, occurs-other x a pool ne, s.once x)
    ];
    live = λ x in_pool. elim (nat-cases x a) [
      | inl e ↦ (conn, rw (c, e) holds, ap (λ (f : ℕ). occurs f fds) same ∙ unique)
      | inr ne ↦
          let (other, there, apart) = s.live x (omega (arith, fewer x, occurs-other x a pool ne)) in
          (other, rw c there, omega (arith, apart, occurs-tail other.fd fd fds))
    ];
    few = omega (arith, s.few);
  }
    where
      not_yet : occurs a pool ≡ 0
      not_yet = elim (nat-cases (occurs a pool) 0) [
        | inl e ↦ e
        | inr ne ↦
            let (other, there, apart) = s.live a (omega (arith, ne)) in
            let is_it : conn ≡ other = some_eq conn other (sym holds ∙ there) in
            absurd (
              omega (
                arith,
                occurs-head fd fds,
                ap (λ (f : ℕ). occurs f (fd ∷ fds)) (sym same ∙ ap NetConn.fd is_it),
                apart,
              ))
      ]

  -- a new connection in memory
  pub add-IsSound :
      (granted_buckets granted : Bool) (conn : NetConn) (key : ℕ)
      → conn.fd ≡ key
      → (granted_buckets ≡ true → u64 (sctx.hmap.nbuckets * 2) < 2 ^ 61)
      → hmap_get_value sctx.hmap key ≡ none
      → conn.outlen ≤ most
      → IsSound most n (fd ∷ fds) pool (record sctx {
        conns = sctx.conns ++ (some conn ∷ []);
        hmap = (hmap_insert granted_buckets granted sctx.hmap key (length sctx.conns)).1;
      })
  add-IsSound granted_buckets granted conn key e fits new bounded = record {
    tracked = rw (sym e) (insert-IsTracked s.tracked granted_buckets granted conn fits (rw e new));
    small = λ b c there. elim (holds-append sctx.conns conn c b there) [
      | inl e ↦ rw (sym e) bounded
      | inr before ↦ s.small b c before
    ];
    once = s.once;
    live = λ b in_pool.
        let (c, there, apart) = s.live b in_pool in
        (
          c,
          get_or-append_lt sctx.conns (some conn ∷ []) b none (Holds-lt sctx.conns b c there)
              ∙ there,
          apart,
        );
    few = s.few;
  }

-- what an event leaves for the others
unfoldable pub Accepted : ℕ → ℕ → List ℕ → TsContext → TsContext → Type 0
Accepted most n fds before s =
    IsSound most n fds (accepted_pool s) s × AreFew n s × (s.ins_que ≡ before.ins_que)

module _ {most n : ℕ} where
  pub enqueue-IsSound :
      (a fd : ℕ) (fds : List ℕ) (conn : NetConn) (sctx : TsContext)
      → IsSound most n (fd ∷ fds) (accepted_pool sctx) sctx
      → AreFew n sctx
      → Holds sctx.conns a conn
      → conn.fd ≡ fd
      → occurs fd fds ≡ 0
      → Accepted most n fds sctx (enqueue a conn sctx)
  unfolding enqueue Accepted
  enqueue-IsSound a fd fds conn sctx s few holds same unique =
      let room : suc (length (accepted_pool sctx)) ≤ n = omega (arith, s.few) in
      either Fine (not (conn.bgctx == 0))
        (
          queue-IsSound s a conn _ _ holds same unique (λ x. simp counts (omega arith))
              (simp counts (omega arith)) refl refl,
          (few.0, few.1, simp counts (omega (arith, simp counts at room)), few.3, few.4),
          refl,
        )
        (either Fine (ltb 0 conn.outlen)
          (
            queue-IsSound s a conn _ _ holds same unique (λ x. simp counts (omega arith))
                (simp counts (omega arith)) refl refl,
            (few.0, few.1, few.2, simp counts (omega (arith, simp counts at room)), few.4),
            refl,
          )
          (either Fine conn.closed
            (
              queue-IsSound s a conn _ _ holds same unique (λ x. simp counts (omega arith))
                  (simp counts (omega arith)) refl refl,
              (few.0, few.1, few.2, few.3, simp counts (omega (arith, simp counts at room))),
              refl,
            )
            (
              queue-IsSound s a conn _ _ holds same unique (λ x. simp counts (omega arith))
                  (simp counts (omega arith)) refl refl,
              (simp counts (omega (arith, simp counts at room)), few.1, few.2, few.3, few.4),
              refl,
            )))
    where
      Fine : TsContext → Type 0
      Fine = Accepted most n fds sctx
