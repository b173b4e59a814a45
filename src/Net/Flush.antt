-- ===== src/Net/Flush.antt =====
-- libv/src/net/net.c, flush_conn: which bytes go to the socket, and what is left.
use native.Mathlib.Nat.{mod-eq_of_lt}
use mustdb.Net.{
  eintr, eagain, ewouldblock, eexist, other_errno, Outcome, returned, failed, NetConn, contents,
  unsent, release_out, flush_conn,
}
use mustdb.Prelude.{
  ℕ, zero, suc, ◌+◌, ◌-◌, ◌^◌, ◌≤◌, ◌<◌, ◌≡◌, refl, sym, ap, ◌∙◌, arith, Bool, true, false, none,
  some, List, [], ◌∷◌, ◌++◌, append_assoc, take, drop, take-append-drop, drop-take, drop-drop, ltb,
  ltb→lt, lt→ltb, u64, Bool-cases, inl, inr, ◌⊎◌,
}

-- a result of write is at most what an ssize_t holds
unfoldable pub AreSsize : List (Outcome ℕ) → Type 0
AreSsize [] = Unit
AreSsize (returned n ∷ results) = (n < 2 ^ 63) × AreSsize results
AreSsize (failed e ∷ results) = AreSsize results

-- how many of the calls were not interrupted
unfoldable pub uninterrupted : List (Outcome ℕ) → ℕ
uninterrupted [] = 0
uninterrupted (failed eintr ∷ results) = uninterrupted results
uninterrupted (_ ∷ results) = suc (uninterrupted results)

-- no call fails for good
unfoldable pub AreTemporary : List (Outcome ℕ) → Type 0
AreTemporary [] = Unit
AreTemporary (failed eexist ∷ results) = ⊥
AreTemporary (failed other_errno ∷ results) = ⊥
AreTemporary (_ ∷ results) = AreTemporary results

-- the first call that is not interrupted takes a byte
unfoldable pub IsProgress : List (Outcome ℕ) → Type 0
IsProgress (failed eintr ∷ results) = IsProgress results
IsProgress (returned (suc n) ∷ results) = Unit
IsProgress _ = ⊥

-- what flush_conn promises of the connection after it and the bytes that went to the socket
pub record IsFlushed (before after : NetConn) (bytes : List ℕ) : Type 0 where
  pub same_fd : after.fd ≡ before.fd
  pub in_order : bytes ++ unsent after ≡ unsent before
  pub finished :
      ((after.outlen ≡ 0) × (after.out ≡ none))
      ⊎ ((before.outoff ≤ after.outoff)
          × (after.outoff < after.outlen)
          × (after.outlen ≡ before.outlen))

advance : ℕ → NetConn → NetConn
advance n conn = record conn { outoff = u64 (conn.outoff + n) }

unsent-advance :
    (conn : NetConn) (n : ℕ)
    → conn.outoff + n < 2 ^ 64
    → take n (unsent conn) ++ unsent (advance n conn) ≡ unsent conn
unfolding advance
unsent-advance conn n narrow =
    let same : u64 (conn.outoff + n) ≡ conn.outoff + n = mod-eq_of_lt narrow in
    let bytes = contents conn.out in
    rw same (
      ap (λ (t : List ℕ). take n (unsent conn) ++ t)
        (sym (
          drop-take n (conn.outlen - conn.outoff) (conn.outlen - (conn.outoff + n))
            (drop conn.outoff bytes) (omega arith)
          ∙ ap (take (conn.outlen - (conn.outoff + n)))
              (drop-drop n conn.outoff (conn.outoff + n) bytes refl)))
      ∙ take-append-drop n (unsent conn))

-- what is proved of a call by one induction
unfoldable Ends : List (Outcome ℕ) → NetConn → Type 0
Ends results conn =
    (r : NetConn × List ℕ) × (flush_conn results conn ≡ some r)
    × IsFlushed conn r.0 r.1
    × (AreTemporary results → r.0.closed ≡ conn.closed)
    × (IsProgress results → ((r.0.outlen ≡ 0) × (r.0.out ≡ none)) ⊎ (conn.outoff < r.0.outoff))

pub flush_done :
    (results : List (Outcome ℕ)) (conn : NetConn)
    → ltb conn.outoff conn.outlen ≡ false
    → flush_conn results conn ≡ some (release_out conn, [])
unfolding flush_conn
flush_done [] conn e = rw e refl
flush_done (failed eintr ∷ results) conn e = rw e refl
flush_done (failed eagain ∷ results) conn e = rw e refl
flush_done (failed ewouldblock ∷ results) conn e = rw e refl
flush_done (failed eexist ∷ results) conn e = rw e refl
flush_done (failed other_errno ∷ results) conn e = rw e refl
flush_done (returned zero ∷ results) conn e = rw e refl
flush_done (returned (suc n) ∷ results) conn e = rw e refl

-- only a connection with bytes left to write is of interest
while_more :
    (results : List (Outcome ℕ)) (conn : NetConn)
    → (conn.outoff < conn.outlen → Ends results conn)
    → Ends results conn
unfolding Ends
while_more results conn more = elim (Bool-cases (ltb conn.outoff conn.outlen)) [
  | inl lt ↦ more (ltb→lt conn.outoff conn.outlen lt)
  | inr done ↦ (
    (release_out conn, []),
    flush_done results conn done,
    record { same_fd = refl; in_order = rw (nothing_left done) refl; finished = inl (refl, refl) },
    (λ _. refl),
    (λ _. inl (refl, refl)),
  )
]
  where
    nothing_left : ltb conn.outoff conn.outlen ≡ false → conn.outlen - conn.outoff ≡ 0
    nothing_left e = ground arith

-- the loop stops with output left
stopped :
    (results : List (Outcome ℕ)) (conn : NetConn) (closed : Bool)
    → conn.outoff < conn.outlen
    → flush_conn results conn ≡ some (record conn { closed = closed }, [])
    → (AreTemporary results → closed ≡ conn.closed)
    → (IsProgress results → ⊥)
    → Ends results conn
unfolding Ends
stopped results conn closed lt runs same idle = (
  (record conn { closed = closed }, []),
  runs,
  record { same_fd = refl; in_order = refl; finished = inr (omega arith, lt, refl) },
  same,
  λ p. absurd (idle p),
)

advance-IsFlushed :
    (conn after : NetConn) (n : ℕ) (bytes : List ℕ)
    → conn.outoff + n < 2 ^ 64
    → IsFlushed (advance n conn) after bytes
    → IsFlushed conn after (take n (unsent conn) ++ bytes)
unfolding advance
advance-IsFlushed conn after n bytes narrow rest = record {
  same_fd = rest.same_fd;
  in_order =
      append_assoc (take n (unsent conn)) bytes (unsent after)
      ∙ ap (λ (t : List ℕ). take n (unsent conn) ++ t) rest.in_order
      ∙ unsent-advance conn n narrow;
  finished = elim rest.finished [ inl e ↦ inl e | inr (le, lt, e) ↦ inr (later le, lt, e) ];
}
  where
    later : u64 (conn.outoff + n) ≤ after.outoff → conn.outoff ≤ after.outoff
    later le =
        let same : u64 (conn.outoff + n) ≡ conn.outoff + n = mod-eq_of_lt narrow in omega arith

flush_conn_lem :
    (results : List (Outcome ℕ)) (conn : NetConn)
    → AreSsize results
    → conn.outlen < 2 ^ 63
    → conn.outlen ≤ conn.outoff + uninterrupted results
    → Ends results conn
unfolding AreSsize uninterrupted flush_conn Ends advance AreTemporary IsProgress
flush_conn_lem [] conn sized narrow enough = while_more [] conn (λ lt. absurd (omega arith))
flush_conn_lem (failed eintr ∷ results) conn sized narrow enough =
    while_more (failed eintr ∷ results) conn
      λ lt. rw (lt→ltb conn.outoff conn.outlen lt) (flush_conn_lem results conn sized narrow enough)
flush_conn_lem (failed eagain ∷ results) conn sized narrow enough =
    while_more (failed eagain ∷ results) conn λ lt.
      stopped (failed eagain ∷ results) conn conn.closed lt
        (rw (lt→ltb conn.outoff conn.outlen lt) refl) (λ _. refl) (λ bad. bad)
flush_conn_lem (failed ewouldblock ∷ results) conn sized narrow enough =
    while_more (failed ewouldblock ∷ results) conn λ lt.
      stopped (failed ewouldblock ∷ results) conn conn.closed lt
        (rw (lt→ltb conn.outoff conn.outlen lt) refl) (λ _. refl) (λ bad. bad)
flush_conn_lem (failed eexist ∷ results) conn sized narrow enough =
    while_more (failed eexist ∷ results) conn λ lt.
      stopped (failed eexist ∷ results) conn true lt (rw (lt→ltb conn.outoff conn.outlen lt) refl)
        (λ bad. absurd bad) (λ bad. bad)
flush_conn_lem (failed other_errno ∷ results) conn sized narrow enough =
    while_more (failed other_errno ∷ results) conn λ lt.
      stopped (failed other_errno ∷ results) conn true lt
        (rw (lt→ltb conn.outoff conn.outlen lt) refl) (λ bad. absurd bad) (λ bad. bad)
flush_conn_lem (returned zero ∷ results) conn sized narrow enough =
    while_more (returned zero ∷ results) conn λ lt.
      stopped (returned zero ∷ results) conn conn.closed lt
        (rw (lt→ltb conn.outoff conn.outlen lt) refl) (λ _. refl) (λ bad. bad)
flush_conn_lem (returned (suc n) ∷ results) conn sized narrow enough =
    while_more (returned (suc n) ∷ results) conn λ lt.
      let wide : conn.outoff + suc n < 2 ^ 64 = omega (arith, sized.0) in
      let same : u64 (conn.outoff + suc n) ≡ conn.outoff + suc n = mod-eq_of_lt wide in
      let (r, runs, flushed, steady, _) =
        flush_conn_lem results (advance (suc n) conn) sized.1 narrow (rw same (omega arith)) in
      (
        (r.0, take (suc n) (unsent conn) ++ r.1),
        rw (lt→ltb conn.outoff conn.outlen lt, runs) refl,
        advance-IsFlushed conn r.0 (suc n) r.1 wide flushed,
        steady,
        λ _. elim flushed.finished [
          | inl e ↦ inl e
          | inr (le, _, _) ↦ inr (omega (arith, same, le))
        ],
      )

-- flush_conn of a connection with an output below 2^63 ends when at most as many calls of write
-- are not interrupted as there are bytes left, and what write took, followed by what is left, is
-- what was left before; afterwards the connection has no buffer and no length of output, or the
-- offset has not moved back and is still inside the output.
pub flush_conn-IsFlushed :
    (results : List (Outcome ℕ)) (conn : NetConn)
    → AreSsize results
    → conn.outlen < 2 ^ 63
    → conn.outlen ≤ conn.outoff + uninterrupted results
    → (r : NetConn × List ℕ) × (flush_conn results conn ≡ some r) × IsFlushed conn r.0 r.1
unfolding Ends
flush_conn-IsFlushed results conn sized narrow enough =
    let (r, runs, flushed, _, _) = flush_conn_lem results conn sized narrow enough in
    (r, runs, flushed)

-- a call that gets a byte through moves on, and does not close the connection
pub flush_conn-moves :
    (results : List (Outcome ℕ)) (conn : NetConn)
    → AreSsize results
    → conn.outlen < 2 ^ 63
    → conn.outlen ≤ conn.outoff + uninterrupted results
    → AreTemporary results
    → IsProgress results
    → (r : NetConn × List ℕ) × (flush_conn results conn ≡ some r)
      × IsFlushed conn r.0 r.1
      × (r.0.closed ≡ conn.closed)
      × (((r.0.outlen ≡ 0) × (r.0.out ≡ none)) ⊎ (conn.outoff < r.0.outoff))
unfolding Ends
flush_conn-moves results conn sized narrow enough good moves =
    let (r, runs, flushed, steady, moved) = flush_conn_lem results conn sized narrow enough in
    (r, runs, flushed, steady good, moved moves)
