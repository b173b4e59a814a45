-- ===== src/Net/Finish.antt =====
-- libv/src/net/net.c, the last two phases of a round of ts_worker_loop: ts_write and ts_close.
use mustdb.Net.Flush.{IsFlushed, flush_conn-IsFlushed}
use mustdb.Net.Loop.{
  TsContext, Callbacks, System, WriteAnswers, log, after_flush, ts_write, ts_close,
}
use mustdb.Net.Queues.{
  counts, either, IsSound, AreFew, move-IsSound, put-IsSound, first, free-IsSound,
}
use mustdb.Net.Round.{IsClient, IsServed, dropped-IsSound}
use mustdb.Net.Table.{Holds}
use mustdb.Net.{NetConn, sent, closed_callback, closed_fd, add_write, mod_read}
use mustdb.Hmap.{hmap_delete}
use mustdb.Prelude.{
  ℕ, suc, ◌^◌, ◌<◌, ◌≤◌, ◌≡◌, refl, arith, Bool, true, ltb, none, some, List, [], ◌∷◌, ◌++◌, set,
  if◌then◌else◌, inl, inr,
}

module _ {most n : ℕ} where
  after_flush-IsSound :
      (answers : WriteAnswers) (a : ℕ) (old conn : NetConn) (que : List ℕ) (sctx : TsContext)
      → Holds sctx.conns a old
      → conn.fd ≡ old.fd
      → conn.outlen ≤ most
      → IsSound most n [] (a ∷ (que ++ sctx.closes_que)) sctx
      → AreFew n sctx
      → let s = after_flush answers a conn sctx in
        IsSound most n [] (que ++ s.closes_que) s × AreFew n s
  unfolding after_flush
  after_flush-IsSound answers a old conn que sctx holds same bounded s few =
      either Fine conn.closed
        (
          move-IsSound (put-IsSound s a old conn holds same bounded) _ _ refl refl
              (λ x. simp counts (omega arith)) (simp counts (omega arith)),
          (few.0, few.1, few.2, few.3, simp counts (omega (arith, simp counts at s.few))),
        )
        (
          dropped-IsSound (put-IsSound s a old changed holds changed_fd changed_small) _ refl refl,
          few,
        )
    where
      Fine : TsContext → Type 0
      Fine s = IsSound most n [] (que ++ s.closes_que) s × AreFew n s

      ok : Bool
      ok =
          (if ltb 0 conn.outlen
            then add_write answers.ctl_added answers.ctl_changed sctx.index conn.fd
            else mod_read answers.ctl_changed sctx.index conn.fd).0

      changed : NetConn
      changed = if ok then conn else record conn { closed = true }

      changed_fd : changed.fd ≡ old.fd
      changed_fd = either (λ (c : NetConn). c.fd ≡ old.fd) ok same same

      changed_small : changed.outlen ≤ most
      changed_small = either (λ (c : NetConn). c.outlen ≤ most) ok bounded bounded

  pub ts_write-IsSound :
      (system : System) (served : IsServed most system) (below : most < 2 ^ 63) (i : ℕ)
      (que : List ℕ) (sctx : TsContext)
      → IsSound most n [] (que ++ sctx.closes_que) sctx
      → AreFew n sctx
      → (s : TsContext) × (ts_write system i que sctx ≡ some s)
        × IsSound most n [] s.closes_que s
        × AreFew n s
  unfolding ts_write
  ts_write-IsSound system served below i [] sctx s few = (sctx, refl, s, few)
  ts_write-IsSound system served below i (a ∷ que) sctx s few =
      let (conn, holds) = first s in
      let bounded = s.small a conn holds in
      let ((after, bytes), runs, flushed) =
        flush_conn-IsFlushed (system.write_answers i).writes conn (served.sized i) (omega arith)
          (omega (arith, served.enough i)) in
      let logged = log (sent conn.fd bytes ∷ []) sctx in
      let (sound, fewer) =
        after_flush-IsSound (system.write_answers i) a conn after que logged holds flushed.same_fd
          (after_small conn after bytes bounded flushed)
          (move-IsSound s (a ∷ (que ++ sctx.closes_que)) logged refl refl (λ x. omega arith)
            (omega arith))
          few in
      rw (holds, runs)
        (ts_write-IsSound system served below (suc i) que
          (after_flush (system.write_answers i) a after logged) sound fewer)
    where
      after_small :
          (conn after : NetConn) (bytes : List ℕ)
          → conn.outlen ≤ most
          → IsFlushed conn after bytes
          → after.outlen ≤ most
      after_small conn after bytes bounded flushed = elim flushed.finished [
        | inl (e, _) ↦ omega arith
        | inr (_, _, e) ↦ omega arith
      ]

  pub ts_close-IsSound :
      (callbacks : Callbacks) (client : IsClient most callbacks) (que : List ℕ) (sctx : TsContext)
      → IsSound most n [] que sctx
      → AreFew n sctx
      → (s : TsContext) × (ts_close callbacks que sctx ≡ some s)
        × IsSound most n [] [] s
        × AreFew n s
  unfolding ts_close
  ts_close-IsSound callbacks client [] sctx s few = (sctx, refl, s, few)
  ts_close-IsSound callbacks client (a ∷ que) sctx s few =
      let (conn, holds) = first s in
      let freed = free-IsSound s conn holds in
      let next =
        log (closed_callback conn.fd ∷ closed_fd conn.fd ∷ []) (record sctx {
          hmap = (hmap_delete sctx.hmap conn.fd).1;
          conns = set sctx.conns a none;
        }) in
      rw (holds, client.closed_fd conn)
        (ts_close-IsSound callbacks client que next
          (move-IsSound freed que next refl refl (λ x. omega arith) (omega arith)) few)
