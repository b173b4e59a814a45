-- ===== src/Net/Round.antt =====
-- libv/src/net/net.c, one round of ts_worker_loop after ts_accept, phase by phase.
use mustdb.Net.Flush.{AreSsize, uninterrupted}
use mustdb.Net.Loop.{
  TsContext, Callbacks, System, put_conn, handle_read, ts_read, after_process, ts_process,
}
use mustdb.Net.Queues.{conns_of, counts, either, IsSound, AreFew, move-IsSound, put-IsSound, first}
use mustdb.Net.{eintr, eagain, ewouldblock, eexist, other_errno, Outcome, returned, failed, NetConn}
use mustdb.Prelude.{
  ℕ, suc, ◌^◌, ◌<◌, ◌≤◌, ◌≡◌, refl, arith, true, not, ltb, ◌==◌, some, List, [], ◌∷◌, ◌++◌,
}

-- What a server asks of its callbacks: they keep the descriptor, and leave at most `most` bytes
-- of output.
pub record IsClient (most : ℕ) (callbacks : Callbacks) : Type 0 where
  pub process_fd : (conn : NetConn) (pkt : List ℕ) → (callbacks.process conn pkt).fd ≡ conn.fd
  pub process_small :
      (conn : NetConn) (pkt : List ℕ)
      → conn.outlen ≤ most
      → (callbacks.process conn pkt).outlen ≤ most
  pub opened_fd : (conn : NetConn) → (callbacks.opened conn).fd ≡ conn.fd
  pub opened_small : (conn : NetConn) → conn.outlen ≤ most → (callbacks.opened conn).outlen ≤ most
  pub closed_fd : (conn : NetConn) → (callbacks.closed conn).fd ≡ conn.fd

-- What it asks of the system: no array of more than 2^61 pointers, results of write that are an
-- ssize_t, and as many of them as a flush can need.
pub record IsServed (most : ℕ) (system : System) : Type 0 where
  pub arrays : (i m : ℕ) → (system.event_answers i).grants_buckets m ≡ true → m < 2 ^ 61
  pub sized : (i : ℕ) → AreSsize (system.write_answers i).writes
  pub enough : (i : ℕ) → most ≤ uninterrupted (system.write_answers i).writes

module _ {most n a : ℕ} {pool : List ℕ} {sctx : TsContext}
    (s : IsSound most n [] (a ∷ pool) sctx) where
  -- the connection leaves the queues
  pub dropped-IsSound :
      (sctx' : TsContext)
      → sctx'.hmap ≡ sctx.hmap
      → sctx'.conns ≡ sctx.conns
      → IsSound most n [] pool sctx'
  dropped-IsSound sctx' h c =
      move-IsSound s pool sctx' h c (λ x. simp counts (omega arith)) (omega arith)

module _ {most n : ℕ} where
  close_read :
      (a : ℕ) (que : List ℕ) (sctx : TsContext)
      → IsSound most n []
          (a ∷ (que ++ (conns_of sctx.ins_que ++ (sctx.outs_que ++ sctx.closes_que))))
          sctx
      → AreFew n sctx
      → let s = record sctx { closes_que = sctx.closes_que ++ (a ∷ []) } in
        IsSound most n [] (que ++ (conns_of s.ins_que ++ (s.outs_que ++ s.closes_que))) s
        × AreFew n s
  close_read a que sctx s few = (
    move-IsSound s _ _ refl refl (λ x. simp counts (omega arith)) (simp counts (omega arith)),
    (few.0, few.1, few.2, few.3, simp counts (omega (arith, simp counts at s.few))),
  )

  handle_read-IsSound :
      (r : Outcome (List ℕ)) (a : ℕ) (que : List ℕ) (sctx : TsContext)
      → IsSound most n []
          (a ∷ (que ++ (conns_of sctx.ins_que ++ (sctx.outs_que ++ sctx.closes_que))))
          sctx
      → AreFew n sctx
      → let s = handle_read r a sctx in
        IsSound most n [] (que ++ (conns_of s.ins_que ++ (s.outs_que ++ s.closes_que))) s
        × AreFew n s
  unfolding handle_read
  handle_read-IsSound (failed eagain) a que sctx s few = (dropped-IsSound s sctx refl refl, few)
  handle_read-IsSound (failed ewouldblock) a que sctx s few =
      (dropped-IsSound s sctx refl refl, few)
  handle_read-IsSound (failed eintr) a que sctx s few = (dropped-IsSound s sctx refl refl, few)
  handle_read-IsSound (failed eexist) a que sctx s few = close_read a que sctx s few
  handle_read-IsSound (failed other_errno) a que sctx s few = close_read a que sctx s few
  handle_read-IsSound (returned []) a que sctx s few = close_read a que sctx s few
  handle_read-IsSound (returned (b ∷ pkt)) a que sctx s few = (
    move-IsSound s _ _ refl refl (λ x. simp counts (omega arith)) (simp counts (omega arith)),
    (few.0, simp counts (omega (arith, simp counts at s.few)), few.2, few.3, few.4),
  )

  pub ts_read-IsSound :
      (system : System) (i : ℕ) (que : List ℕ) (sctx : TsContext)
      → IsSound most n []
          (que ++ (conns_of sctx.ins_que ++ (sctx.outs_que ++ sctx.closes_que)))
          sctx
      → AreFew n sctx
      → (s : TsContext) × (ts_read system i que sctx ≡ some s)
        × IsSound most n [] (conns_of s.ins_que ++ (s.outs_que ++ s.closes_que)) s
        × AreFew n s
  unfolding ts_read
  ts_read-IsSound system i [] sctx s few = (sctx, refl, s, few)
  ts_read-IsSound system i (a ∷ que) sctx s few =
      let (conn, holds) = first s in
      let (sound, fewer) = handle_read-IsSound (system.reads i) a que sctx s few in
      rw holds
        (ts_read-IsSound system (suc i) que (handle_read (system.reads i) a sctx) sound fewer)

  after_process-IsSound :
      (a : ℕ) (conn : NetConn) (que : List ℕ) (sctx : TsContext)
      → IsSound most n [] (a ∷ (que ++ (sctx.outs_que ++ sctx.closes_que))) sctx
      → AreFew n sctx
      → let s = after_process a conn sctx in
        IsSound most n [] (que ++ (s.outs_que ++ s.closes_que)) s × AreFew n s
  unfolding after_process
  after_process-IsSound a conn que sctx s few =
      either Fine (not (conn.bgctx == 0)) (dropped-IsSound s sctx refl refl, few)
        (either Fine (ltb 0 conn.outlen)
          (
            move-IsSound s _ _ refl refl (λ x. simp counts (omega arith))
                (simp counts (omega arith)),
            (few.0, few.1, few.2, simp counts (omega (arith, simp counts at s.few)), few.4),
          )
          (either Fine conn.closed
            (
              move-IsSound s _ _ refl refl (λ x. simp counts (omega arith))
                  (simp counts (omega arith)),
              (few.0, few.1, few.2, few.3, simp counts (omega (arith, simp counts at s.few))),
            )
            (dropped-IsSound s sctx refl refl, few)))
    where
      Fine : TsContext → Type 0
      Fine s = IsSound most n [] (que ++ (s.outs_que ++ s.closes_que)) s × AreFew n s

  pub ts_process-IsSound :
      (callbacks : Callbacks) (client : IsClient most callbacks) (que : List (ℕ × List ℕ))
      (sctx : TsContext)
      → IsSound most n [] (conns_of que ++ (sctx.outs_que ++ sctx.closes_que)) sctx
      → AreFew n sctx
      → (s : TsContext) × (ts_process callbacks que sctx ≡ some s)
        × IsSound most n [] (s.outs_que ++ s.closes_que) s
        × AreFew n s
  unfolding ts_process conns_of
  ts_process-IsSound callbacks client [] sctx s few = (sctx, refl, s, few)
  ts_process-IsSound callbacks client ((a, pkt) ∷ que) sctx s few =
      let (conn, holds) = first s in
      let changed = callbacks.process conn pkt in
      let put =
        put-IsSound s a conn changed holds (client.process_fd conn pkt)
          (client.process_small conn pkt (s.small a conn holds)) in
      let (sound, fewer) =
        after_process-IsSound a changed (conns_of que) (put_conn a changed sctx) put few in
      rw holds (
        ts_process-IsSound callbacks client que (after_process a changed (put_conn a changed sctx))
          sound fewer)
