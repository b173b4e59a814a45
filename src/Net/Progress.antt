-- ===== src/Net/Progress.antt =====
-- libv/src/net/net.c, flush_conn called again each time the socket can be written, as ts_write
-- does for a connection with output left.
use mustdb.Net.Flush.{
  AreSsize, AreTemporary, IsProgress, uninterrupted, IsFlushed, flush_conn-moves,
}
use mustdb.Net.{Outcome, ◌>>=◌, NetConn, unsent, flush_conn}
use mustdb.Prelude.{
  ℕ, ◌+◌, ◌-◌, ◌^◌, ◌≤◌, ◌<◌, ◌≡◌, refl, sym, ap, ◌∙◌, arith, Option, none, some, List, [], ◌∷◌,
  ◌++◌, length, ltb, lt→ltb, if◌then◌else◌, inl, inr,
}

-- the calls of flush_conn, one for each time the socket is ready, while there is output left
unfoldable pub flush_all : List (List (Outcome ℕ)) → NetConn → Option (NetConn × List ℕ)
unfolding flush_conn
flush_all [] conn = some (conn, [])
flush_all (results ∷ attempts) conn =
    if ltb 0 conn.outlen
    then (flush_conn results conn >>= λ r. flush_all attempts r.0 >>= λ s. some (s.0, r.1 ++ s.1))
    else some (conn, [])

-- every attempt is answered as a socket does that stays open and takes a byte when it is ready
unfoldable pub AreGood : List (List (Outcome ℕ)) → ℕ → Type 0
AreGood [] outlen = Unit
AreGood (results ∷ attempts) outlen =
    IsProgress results
    × AreTemporary results
    × AreSsize results
    × (outlen ≤ uninterrupted results)
    × AreGood attempts outlen

flush_all_idle :
    (attempts : List (List (Outcome ℕ))) (conn : NetConn)
    → conn.outlen ≡ 0
    → flush_all attempts conn ≡ some (conn, [])
unfolding flush_all
flush_all_idle [] conn e = refl
flush_all_idle (results ∷ attempts) conn e = rw e refl

all_sent :
    (conn after : NetConn) (bytes : List ℕ)
    → IsFlushed conn after bytes
    → after.outlen ≡ 0
    → bytes ++ [] ≡ unsent conn
all_sent conn after bytes flushed e =
    ap (λ (t : List ℕ). bytes ++ t) (sym nothing) ∙ flushed.in_order
  where
    nothing : unsent after ≡ []
    nothing =
        let none_left : after.outlen - after.outoff ≡ 0 = omega (arith, e) in rw none_left refl

-- A connection with output left, below 2^63, is flushed after at most as many attempts as there
-- are bytes left, if in each of them the first call of write that is not interrupted takes a byte
-- and no call fails for good: all the bytes have gone out in order, the connection has no buffer
-- any more, and the flag that closes the connection is as it was.
pub flush_all_ends :
    (attempts : List (List (Outcome ℕ))) (conn : NetConn)
    → AreGood attempts conn.outlen
    → conn.outlen < 2 ^ 63
    → conn.outlen ≤ conn.outoff + length attempts
    → conn.outoff < conn.outlen
    → (s : NetConn × List ℕ) × (flush_all attempts conn ≡ some s)
      × (s.0.outlen ≡ 0)
      × (s.0.out ≡ none)
      × (s.1 ≡ unsent conn)
      × (s.0.closed ≡ conn.closed)
unfolding flush_all AreGood
flush_all_ends [] conn good narrow enough more = absurd (omega arith)
flush_all_ends (results ∷ attempts) conn (moves, temporary, sized, calls, good) narrow enough more =
    let (r, runs, flushed, open_still, moved) =
      flush_conn-moves results conn sized narrow (omega arith) temporary moves in
    rw (lt→ltb 0 conn.outlen (omega arith), runs)
      (elim flushed.finished [
        | inl (e, freed) ↦ (
          (r.0, r.1 ++ []),
          rw (flush_all_idle attempts r.0 e) refl,
          e,
          freed,
          all_sent conn r.0 r.1 flushed e,
          open_still,
        )
        | inr (le, lt, same) ↦
            let (s, rest, empty, freed, bytes, still) =
              flush_all_ends attempts r.0 (rw same good) (rw same narrow)
                (elim moved [ inl (e, _) ↦ absurd (omega arith) | inr further ↦ omega arith ]) lt in
            (
              (s.0, r.1 ++ s.1),
              rw rest refl,
              empty,
              freed,
              ap (λ (t : List ℕ). r.1 ++ t) bytes ∙ flushed.in_order,
              still ∙ open_still,
            )
      ])
