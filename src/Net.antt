-- ===== src/Net.antt =====
-- libv/src/net/net.c and libv/src/include/net.h: connections, their output buffers, and the calls
-- that register them with epoll. What a system call returns is an argument: its result, or the
-- errno it fails with. A pointer that may be NULL is an Option, or an address that is 0 then.
pub mod Flush
pub mod Progress
pub mod Loop
pub mod Table
pub mod Queues
pub mod Round
pub mod Finish
pub mod Accept
pub mod Events
pub mod Safety
pub mod Worker
pub mod Conn
pub mod Server
pub mod Answer
mod Tests
use mustdb.Prelude.{
  ℕ, zero, suc, ◌+◌, ◌-◌, ◌%◌, ◌^◌, Bool, true, false, Option, none, some, List, [], ◌∷◌, ◌++◌,
  take, drop, ltb, ◌==◌, if◌then◌else◌, u64,
}

pub data Errno : Type 0 where
  eintr eagain ewouldblock eexist other_errno : Errno

pub data Outcome {ℓ} (A : Type ℓ) : Type ℓ where
  returned : A → Outcome A
  failed : Errno → Outcome A

infixl 5 ◌>>=◌
abbrev pub ◌>>=◌ {ℓ κ} : {A : Type ℓ} {B : Type κ} → Option A → (A → Option B) → Option B
none >>= f = none
some a >>= f = f a

-- `bgctx` and `udata` are addresses, `ctx` is the index of the worker.
pub record NetConn : Type 0 where
  pub fd : ℕ
  pub closed : Bool
  pub udata : ℕ
  pub out : Option (List ℕ)
  pub outlen : ℕ
  pub outcap : ℕ
  pub outoff : ℕ
  pub bgctx : ℕ
  pub ctx : ℕ

unfoldable pub conn_new : Bool → ℕ → ℕ → Option NetConn
conn_new granted fd ctx =
    if granted
    then some (record {
      fd = fd;
      closed = false;
      udata = 0;
      out = none;
      outlen = 0;
      outcap = 0;
      outoff = 0;
      bgctx = 0;
      ctx = ctx;
    })
    else none

unfoldable pub net_conn_setudata : Option NetConn → ℕ → Option NetConn
net_conn_setudata none udata = none
net_conn_setudata (some conn) udata = some (record conn { udata = udata })

unfoldable pub net_conn_udata : Option NetConn → ℕ
net_conn_udata none = 0
net_conn_udata (some conn) = conn.udata

-- the bytes that an output pointer leads to
abbrev pub contents : Option (List ℕ) → List ℕ
contents none = []
contents (some bytes) = bytes

-- what the loop of flush_conn has still to write
abbrev pub unsent : NetConn → List ℕ
unsent conn = take (conn.outlen - conn.outoff) (drop conn.outoff (contents conn.out))

-- the end of flush_conn, where the loop has nothing left to write
abbrev pub release_out : NetConn → NetConn
release_out conn = record conn { out = none; outlen = 0; outcap = 0; outoff = 0 }

-- The results of the calls of write, in turn. Also returned are the bytes that write has taken;
-- `none` when the results run out before the function returns.
unfoldable pub flush_conn : List (Outcome ℕ) → NetConn → Option (NetConn × List ℕ)
flush_conn [] conn = if ltb conn.outoff conn.outlen then none else some (release_out conn, [])
flush_conn (failed eintr ∷ results) conn =
    let again = flush_conn results conn in
    if ltb conn.outoff conn.outlen then again else some (release_out conn, [])
flush_conn (failed eagain ∷ results) conn =
    if ltb conn.outoff conn.outlen then some (conn, []) else some (release_out conn, [])
flush_conn (failed ewouldblock ∷ results) conn =
    if ltb conn.outoff conn.outlen then some (conn, []) else some (release_out conn, [])
flush_conn (failed eexist ∷ results) conn =
    if ltb conn.outoff conn.outlen
    then some (record conn { closed = true }, [])
    else some (release_out conn, [])
flush_conn (failed other_errno ∷ results) conn =
    if ltb conn.outoff conn.outlen
    then some (record conn { closed = true }, [])
    else some (release_out conn, [])
flush_conn (returned zero ∷ results) conn =
    if ltb conn.outoff conn.outlen then some (conn, []) else some (release_out conn, [])
flush_conn (returned (suc n) ∷ results) conn =
    let again = flush_conn results (record conn { outoff = u64 (conn.outoff + suc n) }) >>= λ r.
    some (r.0, take (suc n) (unsent conn) ++ r.1) in
    if ltb conn.outoff conn.outlen then again else some (release_out conn, [])

-- setnonblock, by the two calls of fcntl
unfoldable pub setnonblock : Outcome ℕ → Outcome ℕ → Bool
setnonblock (failed e) set = false
setnonblock (returned flags) (failed e) = false
setnonblock (returned flags) (returned x) = true

-- what a descriptor is registered for
pub data Interest : Type 0 where
  read_interest exclusive_read_interest write_interest read_write_interest : Interest

-- calls of epoll_ctl, of close, and of the callback `closed`, as they are made
pub data Action : Type 0 where
  ctl_add ctl_mod : ℕ → ℕ → Interest → Action
  drained : ℕ → Action
  sent : ℕ → List ℕ → Action
  opened_callback closed_callback closed_fd : ℕ → Action

-- Each of these returns whether it returned 0, and the calls it made; `epoll` is the worker whose
-- epoll instance it works on.
unfoldable pub add_read : Outcome ℕ → ℕ → ℕ → Bool × List Action
add_read (returned _) epoll fd = (true, ctl_add epoll fd read_interest ∷ [])
add_read (failed e) epoll fd = (false, ctl_add epoll fd read_interest ∷ [])

unfoldable pub add_listen_read : Outcome ℕ → ℕ → ℕ → Bool × List Action
add_listen_read (returned _) epoll fd = (true, ctl_add epoll fd exclusive_read_interest ∷ [])
add_listen_read (failed e) epoll fd = (false, ctl_add epoll fd exclusive_read_interest ∷ [])

unfoldable pub mod_read : Outcome ℕ → ℕ → ℕ → Bool × List Action
mod_read (returned _) epoll fd = (true, ctl_mod epoll fd read_interest ∷ [])
mod_read (failed e) epoll fd = (false, ctl_mod epoll fd read_interest ∷ [])

unfoldable pub mod_read_write : Outcome ℕ → ℕ → ℕ → Bool × List Action
mod_read_write (returned _) epoll fd = (true, ctl_mod epoll fd read_write_interest ∷ [])
mod_read_write (failed e) epoll fd = (false, ctl_mod epoll fd read_write_interest ∷ [])

-- the first outcome is that of EPOLL_CTL_ADD, the second that of EPOLL_CTL_MOD if it is called
unfoldable pub add_write : Outcome ℕ → Outcome ℕ → ℕ → ℕ → Bool × List Action
unfolding mod_read_write
add_write (returned _) changed epoll fd = (true, ctl_add epoll fd write_interest ∷ [])
add_write (failed eexist) changed epoll fd =
    let result = mod_read_write changed epoll fd in
    (result.0, ctl_add epoll fd write_interest ∷ result.1)
add_write (failed _) changed epoll fd = (false, ctl_add epoll fd write_interest ∷ [])
