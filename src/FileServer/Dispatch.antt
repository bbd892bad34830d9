-- ===== src/FileServer/Dispatch.antt =====
-- How task_7/homework/src/server registers a client and tells its events apart. The server's FIFO
-- is watched with tag 0, and a client with the number of its entry.
use sem.Base.{ℕ, suc, ◌≡◌, true, some, ◌∷◌, set, take}
use sem.Text.{Bytes}
use sem.FileServer.Table.{ClientInfo, Server, again, Os, find_free_client_slot}
use sem.FileServer.Registration.{read_pending, greet, open_rx, open_tx, register_new_client}

abbrev pub entry : ℕ → ℕ → ℕ → Bytes → Bytes → ClientInfo
entry i tx rx tx_path rx_path = record {
  client_id = some i;
  tx_fd = some tx;
  rx_fd = some rx;
  tx_path = take 255 tx_path;
  rx_path = take 255 rx_path;
  is_active = true;
}

-- The kernel grants all that a registration asks for, and the client has sent nothing yet.
pub record Grants (os : Os) (tx_path rx_path : Bytes) (tx rx clock : ℕ) : Type 0 where
  pub opens_tx : os.opens clock tx_path ≡ some tx
  pub opens_rx : os.opens (suc clock) rx_path ≡ some rx
  pub adds : os.epoll_adds (suc (suc clock)) ≡ true
  pub acknowledges : os.writes (suc (suc (suc clock))) ≡ true
  pub reads_nothing : os.reads (suc (suc (suc (suc clock)))) ≡ again

-- A registration that the kernel grants, when a free entry is found, fills that entry, keeps both
-- descriptors open, has the reading one watched under the number of the entry, and succeeds; but
-- for the clock, all else stays as it was.
pub register_new_client_granted :
    (os : Os) (tx_path rx_path : Bytes) (tx rx i : ℕ) (s : Server)
    → Grants os tx_path rx_path tx rx s.clock
    → find_free_client_slot s ≡ some i
    → register_new_client os tx_path rx_path s ≡ (
      record s {
        clients = set s.clients i (entry i tx rx tx_path rx_path);
        fds = rx ∷ tx ∷ s.fds;
        watched = (rx, i) ∷ s.watched;
        clock = suc (suc (suc (suc (suc s.clock))));
      },
      true,
    )
unfolding register_new_client open_tx open_rx greet read_pending
register_new_client_granted os t r tx rx i s g e = rw (
  e, register_new_client, g.opens_tx, open_tx, g.opens_rx, open_rx, g.adds, g.acknowledges,
  g.reads_nothing,
)
