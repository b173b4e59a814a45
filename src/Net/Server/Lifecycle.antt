-- ===== src/Net/Server/Lifecycle.antt =====
-- libv/src/net/net.c: stopping a server and waiting for it, once and again.
use mustdb.Net.Server.{
  Machine, Worker, NetServer, wake_all, net_server_stop, join_from, net_server_wait,
}
use mustdb.Prelude.{
  ℕ, zero, suc, ◌≡◌, refl, sym, ap, ◌∙◌, false, Option, none, some, List, [], ◌∷◌, ◌++◌, append-nil,
  append_assoc,
}

-- the descriptors that wake the workers
unfoldable pub wake_fds : List Worker → List ℕ
wake_fds [] = []
wake_fds (w ∷ ws) = wake_fd w.wake_fd (wake_fds ws)
  where
    wake_fd : Option ℕ → List ℕ → List ℕ
    wake_fd none fds = fds
    wake_fd (some fd) fds = fd ∷ fds

-- the numbers of `n` threads from `i` on
unfoldable pub threads_from : ℕ → ℕ → List ℕ
threads_from i zero = []
threads_from i (suc n) = i ∷ threads_from (suc i) n

pub wake_all-woken :
    (ws : List Worker) (m : Machine) → wake_all ws m ≡ record m { woken = m.woken ++ wake_fds ws }
unfolding wake_all wake_fds
wake_all-woken [] m = ap (λ (l : List ℕ). record m { woken = l }) (sym (append-nil m.woken))
wake_all-woken (w ∷ ws) m = by_fd w.wake_fd (wake_all-woken ws)
  where
    by_fd :
        (fd : Option ℕ)
        → ((m : Machine) → wake_all ws m ≡ record m { woken = m.woken ++ wake_fds ws })
        → wake_all (record w { wake_fd = fd } ∷ ws) m
          ≡ record m { woken = m.woken ++ wake_fds (record w { wake_fd = fd } ∷ ws) }
    by_fd none rest = rest m
    by_fd (some fd) rest =
        rest (record m { woken = m.woken ++ (fd ∷ []) })
        ∙ ap (λ (l : List ℕ). record m { woken = l }) (append_assoc m.woken (fd ∷ []) (wake_fds ws))

pub join_from-joined :
    (i n : ℕ) (m : Machine)
    → join_from i n m ≡ record m { joined_threads = m.joined_threads ++ threads_from i n }
unfolding join_from threads_from
join_from-joined i zero m =
    ap (λ (l : List ℕ). record m { joined_threads = l }) (sym (append-nil m.joined_threads))
join_from-joined i (suc n) m =
    join_from-joined (suc i) n (record m { joined_threads = m.joined_threads ++ (i ∷ []) })
    ∙ ap (λ (l : List ℕ). record m { joined_threads = l })
        (append_assoc m.joined_threads (i ∷ []) (threads_from (suc i) n))

-- Stopping a running server, and waiting for it for the first time, wakes each worker once and
-- joins each thread that was started once, and doing either again changes nothing.
pub stop_wait_once :
    (server : NetServer) (m : Machine)
    → server.stopping ≡ false
    → server.joined ≡ false
    → let (stopped, m1) = net_server_stop server m in
      let (ended, m2) = net_server_wait stopped m1 in
      (net_server_stop ended m2 ≡ (ended, m2))
      × (net_server_wait ended m2 ≡ (ended, m2))
      × (m2.woken ≡ m.woken ++ wake_fds server.workers)
      × (m2.joined_threads ≡ m.joined_threads ++ threads_from 0 server.started_threads)
unfolding net_server_stop net_server_wait
stop_wait_once server m running waiting =
    rw (running, waiting)
      (
        refl,
        refl,
        ap Machine.woken (join_from-joined 0 server.started_threads (wake_all server.workers m))
            ∙ ap Machine.woken (wake_all-woken server.workers m),
        ap Machine.joined_threads
              (join_from-joined 0 server.started_threads (wake_all server.workers m))
            ∙ ap (λ (l : List ℕ). l ++ threads_from 0 server.started_threads)
                (ap Machine.joined_threads (wake_all-woken server.workers m)),
      )
