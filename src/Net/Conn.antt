-- ===== src/Net/Conn.antt =====
-- libv/src/net/conn.c and libv/src/include/conn.h: the callbacks of the server of net_listen. An
-- allocation that fails is `granted = false`, or `none` for the block; `none` as a result is a
-- use of NULL.
use mustdb.Net.Loop.{Callbacks}
use mustdb.Net.Round.{IsClient}
use mustdb.Net.{NetConn, net_conn_setudata, net_conn_udata}
use mustdb.Prelude.{
  ℕ, ◌≤◌, ◌≡◌, refl, Bool, true, false, Option, none, some, List, [], ◌∷◌, length, ◌==◌,
  if◌then◌else◌,
}

-- `bytes` is the field data of struct buf, an address that is 0 for NULL
pub record Buf : Type 0 where
  pub bytes : ℕ
  pub len : ℕ
  pub cap : ℕ

-- struct Conn; `conn5` is the connection it belongs to
pub record Conn : Type 0 where
  pub fd : ℕ
  pub packet : Buf
  pub conn5 : ℕ

abbrev empty_buf : Buf
empty_buf = record { bytes = 0; len = 0; cap = 0 }

-- the block that is freed, if any, and the buffer afterwards
unfoldable pub buf_clear : Buf → Option ℕ × Buf
buf_clear buf = (if buf.cap == 0 then none else some buf.bytes, empty_buf)

-- "Ok\n"
abbrev pub response : List ℕ
response = 79 ∷ 107 ∷ 10 ∷ []

unfoldable pub ev_process : Bool → NetConn → List ℕ → NetConn
ev_process granted conn p =
    if granted
    then record conn {
      out = some response;
      outlen = length response;
      outcap = length response;
      outoff = 0;
    }
    else record conn { closed = true }

-- `block` is the address that malloc returns
unfoldable pub ev_opened : Option ℕ → ℕ → NetConn → Option (Conn × Option NetConn)
unfolding net_conn_setudata
ev_opened none conn5 conn = none
ev_opened (some block) conn5 conn =
    some (record { fd = 0; packet = empty_buf; conn5 = conn5 }, net_conn_setudata (some conn) block)

-- `heap` is the struct Conn at an address; the blocks that are freed are returned
unfoldable pub ev_closed : (ℕ → Option Conn) → NetConn → Option (List (Option ℕ))
unfolding net_conn_udata buf_clear
ev_closed heap conn = elim (heap (net_conn_udata (some conn))) [
  | none ↦ none
  | some c ↦ some ((buf_clear c.packet).0 ∷ some (net_conn_udata (some conn)) ∷ [])
]

-- The callbacks as a server calls them, where malloc gives each struct Conn the address that
-- `blocks` has for the descriptor: memory for it is taken to be there, since ev_opened passes the
-- result of malloc to memset in any case.
-- ev_closed only frees what the data of the connection leads to.
unfoldable pub ev_callbacks : (NetConn → List ℕ → Bool) → (NetConn → ℕ) → Callbacks
unfolding ev_process
ev_callbacks granted blocks = record {
  process = λ conn p. ev_process (granted conn p) conn p;
  opened = λ conn. record conn { udata = blocks conn };
  closed = λ conn. conn;
}

ev_process_small :
    (granted : Bool) (conn : NetConn) (p : List ℕ) (most : ℕ)
    → 3 ≤ most
    → conn.outlen ≤ most
    → (ev_process granted conn p).outlen ≤ most
unfolding ev_process
ev_process_small true conn p most wide le = wide
ev_process_small false conn p most wide le = le

ev_process_fd :
    (granted : Bool) (conn : NetConn) (p : List ℕ) → (ev_process granted conn p).fd ≡ conn.fd
unfolding ev_process
ev_process_fd true conn p = refl
ev_process_fd false conn p = refl

-- so a server may have them
pub ev_callbacks-IsClient :
    (granted : NetConn → List ℕ → Bool) (blocks : NetConn → ℕ) (most : ℕ)
    → 3 ≤ most
    → IsClient most (ev_callbacks granted blocks)
unfolding ev_callbacks
ev_callbacks-IsClient granted blocks most wide = record {
  process_fd = λ conn p. ev_process_fd (granted conn p) conn p;
  process_small = λ conn p le. ev_process_small (granted conn p) conn p most wide le;
  opened_fd = λ conn. refl;
  opened_small = λ conn le. le;
  closed_fd = λ conn. refl;
}
