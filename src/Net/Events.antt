-- ===== src/Net/Events.antt =====
-- libv/src/net/net.c, ts_accept event by event.
use mustdb.Hmap.{hmap_get_value}
use mustdb.Net.Accept.{accepted_pool, Accepted, skip-IsSound, add-IsSound, enqueue-IsSound}
use mustdb.Net.Loop.{
  TsContext, Callbacks, System, EventAnswers, is_fd, log, enqueue, accept_conn, open_conn,
  accept_event, ts_accept,
}
use mustdb.Net.Queues.{occurs, occurs-head, occurs-tail, either, IsSound, AreFew, move-IsSound}
use mustdb.Net.Round.{IsClient, IsServed}
use mustdb.Net.{Outcome, returned, failed, NetConn, conn_new, setnonblock, drained}
use mustdb.Prelude.{
  ℕ, suc, ◌*◌, ◌^◌, ◌<◌, ◌≤◌, ◌≡◌, refl, ◌∙◌, arith, Bool, true, false, ◌==◌, none, some, List, [],
  ◌∷◌, length, get_or-append_at, u64, Option-cases, Bool-cases, inl, inr, ◌⊎◌,
}

module _ {most n : ℕ} where
  skipped :
      (fd : ℕ) (fds : List ℕ) (sctx s : TsContext)
      → IsSound most n (fd ∷ fds) (accepted_pool sctx) sctx
      → AreFew n sctx
      → s.hmap ≡ sctx.hmap
      → s.conns ≡ sctx.conns
      → accepted_pool s ≡ accepted_pool sctx
      → AreFew n s
      → s.ins_que ≡ sctx.ins_que
      → Accepted most n fds sctx s
  unfolding Accepted
  skipped fd fds sctx s sound few h c p few' ins = (rw p (skip-IsSound sound s h c), few', ins)

  accept_conn-Accepted :
      (answers : EventAnswers) (fd : ℕ) (fds : List ℕ) (sctx : TsContext)
      → IsSound most n (fd ∷ fds) (accepted_pool sctx) sctx
      → AreFew n sctx
      → Accepted most n fds sctx (accept_conn answers sctx)
  unfolding accept_conn
  accept_conn-Accepted answers fd fds sctx s few = by_outcome answers.accepted
    where
      by_outcome :
          (r : Outcome ℕ)
          → Accepted most n fds sctx (accept_conn (record answers { accepted = r }) sctx)
      by_outcome (failed e) = skipped fd fds sctx sctx s few refl refl refl few refl
      by_outcome (returned conn_fd) =
          either (Accepted most n fds sctx) (setnonblock answers.get_flags answers.set_flags)
            (skipped fd fds sctx _ s few refl refl refl few refl)
            (skipped fd fds sctx _ s few refl refl refl few refl)

  open_conn-Accepted :
      (callbacks : Callbacks) (client : IsClient most callbacks) (answers : EventAnswers) (fd : ℕ)
      (fds : List ℕ) (sctx : TsContext)
      → ((m : ℕ) → answers.grants_buckets m ≡ true → m < 2 ^ 61)
      → hmap_get_value sctx.hmap fd ≡ none
      → occurs fd fds ≡ 0
      → IsSound most n (fd ∷ fds) (accepted_pool sctx) sctx
      → AreFew n sctx
      → Accepted most n fds sctx (open_conn callbacks answers fd sctx)
  unfolding open_conn conn_new Accepted
  open_conn-Accepted callbacks client answers fd fds sctx arrays new unique s few =
      by_memory answers.granted
    where
      by_memory :
          (granted : Bool)
          → Accepted most n fds sctx
              (open_conn callbacks (record answers { granted = granted }) fd sctx)
      by_memory false = skipped fd fds sctx _ s few refl refl refl few refl
      by_memory true =
          let conn : NetConn = record {
            fd = fd;
            closed = false;
            udata = 0;
            out = none;
            outlen = 0;
            outcap = 0;
            outoff = 0;
            bgctx = 0;
            ctx = sctx.index;
          } in
          let opened = callbacks.opened conn in
          let same = client.opened_fd conn in
          let added =
            add-IsSound s (answers.grants_buckets (u64 (sctx.hmap.nbuckets * 2)))
              answers.granted_node opened fd same (arrays (u64 (sctx.hmap.nbuckets * 2))) new
              (client.opened_small conn (omega arith)) in
          enqueue-IsSound (length sctx.conns) fd fds opened _
            (move-IsSound added _ _ refl refl (λ x. omega arith) (omega arith)) few
            (get_or-append_at sctx.conns (some opened) none) same unique

  accept_event-Accepted :
      (callbacks : Callbacks) (client : IsClient most callbacks) (answers : EventAnswers) (fd : ℕ)
      (fds : List ℕ) (sctx : TsContext)
      → ((m : ℕ) → answers.grants_buckets m ≡ true → m < 2 ^ 61)
      → occurs fd fds ≡ 0
      → IsSound most n (fd ∷ fds) (accepted_pool sctx) sctx
      → AreFew n sctx
      → (s : TsContext) × (accept_event callbacks answers fd sctx ≡ some s)
        × Accepted most n fds sctx s
  unfolding accept_event
  accept_event-Accepted callbacks client answers fd fds sctx arrays unique s few =
      elim (Bool-cases (is_fd sctx.wake_fd fd)) [
        | inl wakes ↦ (
          log (drained fd ∷ []) sctx,
          rw wakes refl,
          skipped fd fds sctx _ s few refl refl refl few refl,
        )
        | inr other ↦ by_table other (Option-cases (hmap_get_value sctx.hmap fd))
      ]
    where
      by_table :
          is_fd sctx.wake_fd fd ≡ false
          → (hmap_get_value sctx.hmap fd ≡ none)
            ⊎ ((a : ℕ) × (hmap_get_value sctx.hmap fd ≡ some a))
          → (s : TsContext) × (accept_event callbacks answers fd sctx ≡ some s)
            × Accepted most n fds sctx s
      by_table other (inl absent) = elim (Bool-cases (fd == sctx.listen_fd)) [
        | inl listens ↦ (
          accept_conn answers sctx,
          rw (other, absent, listens) refl,
          accept_conn-Accepted answers fd fds sctx s few,
        )
        | inr fresh ↦ (
          open_conn callbacks answers fd sctx,
          rw (other, absent, fresh) refl,
          open_conn-Accepted callbacks client answers fd fds sctx arrays absent unique s few,
        )
      ]
      by_table other (inr (a, found)) =
          let (conn, holds, same) = s.tracked.linked fd a found in
          (
            enqueue a conn sctx,
            rw (other, found, holds) refl,
            enqueue-IsSound a fd fds conn sctx s few holds same unique,
          )

  pub ts_accept-Accepted :
      (callbacks : Callbacks) (client : IsClient most callbacks) (system : System)
      (served : IsServed most system) (i : ℕ) (fds : List ℕ) (sctx : TsContext)
      → ((x : ℕ) → occurs x fds ≤ 1)
      → IsSound most n fds (accepted_pool sctx) sctx
      → AreFew n sctx
      → (s : TsContext) × (ts_accept callbacks system i fds sctx ≡ some s)
        × Accepted most n [] sctx s
  unfolding ts_accept Accepted
  ts_accept-Accepted callbacks client system served i [] sctx distinct s few =
      (sctx, refl, (s, few, refl))
  ts_accept-Accepted callbacks client system served i (fd ∷ fds) sctx distinct s few =
      let (s1, runs, (sound, fewer, same)) =
        accept_event-Accepted callbacks client (system.event_answers i) fd fds sctx
          (served.arrays i) (omega (arith, distinct fd, occurs-head fd fds)) s few in
      let (s2, runs2, (sound2, fewer2, same2)) =
        ts_accept-Accepted callbacks client system served (suc i) fds s1
          (λ x. omega (arith, distinct x, occurs-tail x fd fds)) sound fewer in
      (s2, rw runs runs2, (sound2, fewer2, same2 ∙ same))
