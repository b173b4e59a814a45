-- ===== src/Net/Safety.antt =====
-- libv/src/net/net.c, a whole round of ts_worker_loop.
use mustdb.Hmap.Keys.{hmap_init_int}
use mustdb.Net.Accept.{accepted_pool, Accepted}
use mustdb.Net.Finish.{ts_write-IsSound, ts_close-IsSound}
use mustdb.Net.Events.{ts_accept-Accepted}
use mustdb.Net.Loop.{TsContext, Callbacks, System, ts_reset, ts_attach, ts_round}
use mustdb.Net.Queues.{occurs, conns_of, counts, IsSound, AreFew, move-IsSound}
use mustdb.Net.Round.{IsClient, IsServed, ts_read-IsSound, ts_process-IsSound}
use mustdb.Net.Table.{Holds, IsTracked, empty-IsTracked, none≢some}
use mustdb.Net.{NetConn, ◌>>=◌}
use mustdb.Prelude.{
  ℕ, ◌^◌, ◌<◌, ◌≤◌, ◌≡◌, refl, sym, ap, ◌∙◌, arith, Option, none, some, List, [], ◌++◌, length,
  get_or,
}

pub bind_some :
    {A B : Type 0} (f : A → Option B) {o : Option A} {a : A} {r : Option B}
    → o ≡ some a
    → f a ≡ r
    → (o >>= f) ≡ r
bind_some f e rest = ap (λ o. o >>= f) e ∙ rest

-- what holds of a worker between two rounds: its table, and at most `most` bytes of output for
-- each connection
pub record IsKept (most : ℕ) (sctx : TsContext) : Type 0 where
  pub tracked : IsTracked sctx.hmap sctx.conns
  pub small : (a : ℕ) (conn : NetConn) → Holds sctx.conns a conn → conn.outlen ≤ most

-- the context of a worker that has served nothing yet
pub init-IsKept :
    (most : ℕ) (sctx : TsContext) → sctx.hmap ≡ hmap_init_int → sctx.conns ≡ [] → IsKept most sctx
init-IsKept most sctx h c = record {
  tracked = rw (h, c) empty-IsTracked;
  small = λ a conn there.
      absurd (none≢some conn (sym (ap (λ (l : List (Option NetConn)). get_or l a none) c) ∙ there));
}

-- A round of ts_worker_loop ends without a use of freed memory, keeps the table of the worker and
-- the bound on the output, and none of the five queues gets more entries than there are events,
-- so that the arrays are large enough. This holds for distinct events, callbacks that keep the
-- descriptor and the bound, which is below 2^63, a calloc that refuses arrays of 2^61 pointers
-- and more, and enough results of write.
pub ts_round-IsKept :
    (callbacks : Callbacks) (system : System) (events : List ℕ) (sctx : TsContext) (most : ℕ)
    → IsClient most callbacks
    → IsServed most system
    → most < 2 ^ 63
    → ((x : ℕ) → occurs x events ≤ 1)
    → IsKept most sctx
    → (s : TsContext) × (ts_round callbacks system events sctx ≡ some s)
      × IsKept most s
      × AreFew (length events) s
unfolding ts_round Accepted ts_reset ts_attach conns_of
ts_round-IsKept callbacks system events sctx most client served below distinct kept =
    let start = ts_attach (ts_reset (record sctx { events = events })) in
    let few : AreFew (length events) start =
      (omega arith, omega arith, omega arith, omega arith, omega arith) in
    let (s1, runs1, (sound1, few1, none_read)) =
      ts_accept-Accepted callbacks client system served 0 events start distinct begun few in
    let (s2, runs2, sound2, few2) =
      ts_read-IsSound system 0 s1.pread_que s1 (to_read s1 none_read sound1) few1 in
    let (s3, runs3, sound3, few3) = ts_process-IsSound callbacks client s2.ins_que s2 sound2 few2 in
    let (s4, runs4, sound4, few4) =
      ts_write-IsSound system served below 0 s3.outs_que s3 sound3 few3 in
    let (s5, runs5, sound5, few5) =
      ts_close-IsSound callbacks client s4.closes_que s4 sound4 few4 in
    (
      s5,
      bind_some _ runs1 (bind_some _ runs2 (bind_some _ runs3 (bind_some _ runs4 runs5))),
      record { tracked = sound5.tracked; small = sound5.small },
      few5,
    )
  where
    begun :
        IsSound most
          (length events)
          events
          []
          (ts_attach (ts_reset (record sctx { events = events })))
    begun = record {
      tracked = kept.tracked;
      small = kept.small;
      once = λ a. simp counts (omega arith);
      live = λ a in_pool. absurd (omega (arith, simp counts at in_pool));
      few = omega arith;
    }

    nothing : (s : TsContext) → s.ins_que ≡ [] → conns_of s.ins_que ≡ []
    nothing s none_read = ap conns_of none_read

    to_read :
        (s : TsContext)
        → s.ins_que ≡ []
        → IsSound most (length events) [] (accepted_pool s) s
        → IsSound most
            (length events)
            []
            (s.pread_que ++ (conns_of s.ins_que ++ (s.outs_que ++ s.closes_que)))
            s
    to_read s none_read sound = rw (nothing s none_read) (
        move-IsSound sound _ s refl refl (λ x. simp counts (omega arith))
          (simp counts (omega arith)))
