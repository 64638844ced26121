-- ===== src/Client/Lifetime.antt =====
-- `tcp_config_get_default`, `tcp_client_create` and `tcp_client_destroy` of src/network/tcp_client.c: the
-- memory and the descriptor of a client.
use fast_ring.Prelude.{
  ℕ, ◌≡◌, refl, ap, ◌∙◌, inl, inr, true, false, Option, none, some, if◌then◌else◌, codes,
}
use fast_ring.Memory.{Allocator, Allocates, live-free}
use fast_ring.Sockets.{Sockets}
use fast_ring.Client.{TcpConfig, Client, connect, disconnect}
use fast_ring.Client.Descriptors.{connect-Connects, disconnect-connect}

-- What `tcp_config_get_default` writes.
abbrev pub default_config : TcpConfig
default_config = record {
  server_ip = codes "127.0.0.1";
  server_port = 8080;
  send_timeout_ms = 5000;
  recv_timeout_ms = 5000;
  buffer_size = 65536;
  keep_alive = true;
}

-- `tcp_config_get_default`
unfoldable pub tcp_config_get_default : Option TcpConfig → Option TcpConfig
tcp_config_get_default none = none
tcp_config_get_default (some config) = some default_config

-- `struct tcp_client` in memory: its address, and that of its send buffer.
pub record Owned : Type 0 where
  pub address : ℕ
  pub send_buffer : Option ℕ
  pub client : Client

-- `sizeof(tcp_client_t)` on a 64-bit platform
abbrev pub client_size : ℕ
client_size = 64

-- The configuration that a new client takes.
unfoldable pub chosen_config : Option TcpConfig → TcpConfig
chosen_config (some config) = config
chosen_config none = default_config

module _ (a : Allocator) where
  open a use {Heap, live, calloc, malloc, free, calloc_lem, malloc_lem}

  -- What `tcp_client_create` does with the send buffer,
  unfoldable pub with_buffer : TcpConfig → ℕ → Option ℕ × Heap → Option Owned × Heap
  with_buffer config p (none, h) = (none, free h p)
  with_buffer config p (some b, h) = (
    some (record {
      address = p;
      send_buffer = some b;
      client = record { config = config; socket_fd = none; connected = false; block_sequence = 0 };
    }),
    h,
  )

  -- and with the client.
  unfoldable pub with_client : Option TcpConfig → Option ℕ × Heap → Option Owned × Heap
  with_client config (none, h) = (none, h)
  with_client config (some p, h) =
      with_buffer (chosen_config config) p (malloc h (chosen_config config).buffer_size)

  -- `tcp_client_create`
  unfoldable pub create : Heap → Option TcpConfig → Option Owned × Heap
  create h config = with_client config (calloc h client_size)

  module _ (s : Sockets) where
    open s use {Net, is_open}

    -- The release of the send buffer, if there is one.
    unfoldable pub free_buffer : Heap → Option ℕ → Heap
    free_buffer h none = h
    free_buffer h (some b) = free h b

    -- The connection at `tcp_client_destroy`
    unfoldable pub hang_up : Client → Net → Net
    hang_up c n = if c.connected then (disconnect s c n).2 else n

    -- `tcp_client_destroy`
    unfoldable pub destroy : Heap → Net → Option Owned → Heap × Net
    destroy h n none = (h, n)
    destroy h n (some t) = (free (free_buffer h t.send_buffer) t.address, hang_up t.client n)

    -- An attempt to connect a client, if one was made.
    unfoldable pub connected_once : Option Owned → Net → Option Owned × Net
    connected_once none n = (none, n)
    connected_once (some t) n =
        let (err, c, n') = connect s t.client n in (some (record t { client = c }), n')

    -- A client has nothing open but its connection, which is closed on release.
    hang_up-open :
        (n : Net) (c : Client) (q : ℕ)
        → c.connected ≡ false
        → is_open (hang_up (connect s c n).1 (connect s c n).2) q ≡ is_open n q
    unfolding hang_up
    hang_up-open n c q down =
        let c' = (connect s c n).1 in
        let n' = (connect s c n).2 in
        elim (connect-Connects s n c down) [
          | inl (e, up, rest) ↦
              ap (λ b. is_open (if b then (disconnect s c' n').2 else n') q) up
              ∙ disconnect-connect s n c q down e
          | inr (e, down_still, gone, same) ↦
              ap (λ b. is_open (if b then (disconnect s c' n').2 else n') q) down_still ∙ same q
        ]

    -- What is left after a client is made, connected once and destroyed.
    abbrev pub Leaves : Heap → Net → Option Owned × Heap → Type 0
    Leaves before n (made, h) =
        let (t, n') = connected_once made n in
        let (h', n'') = destroy h n' t in
        ((q : ℕ) → live h' q ≡ live before q) × ((q : ℕ) → is_open n'' q ≡ is_open n q)

    with_buffer-Leaves :
        (before h : Heap) (n : Net) (config : TcpConfig) (p : ℕ) (r : Option ℕ × Heap)
        → Allocates (live before) (live h) (some p)
        → Allocates (live h) (live r.1) r.0
        → Leaves before n (with_buffer config p r)
    unfolding with_buffer connected_once destroy free_buffer
    with_buffer-Leaves before h n config p (none, h') taken same =
        (λ q. live-free a before h' p q (taken.0, λ q. same q ∙ taken.1 q), λ q. refl)
    with_buffer-Leaves before h n config p (some b, h') taken more = (
      λ q. live-free a before (free h' b) p q (taken.0, λ q. live-free a h h' b q more ∙ taken.1 q),
      λ q. hang_up-open n _ q refl,
    )

    with_client-Leaves :
        (before : Heap) (n : Net) (config : Option TcpConfig) (r : Option ℕ × Heap)
        → Allocates (live before) (live r.1) r.0
        → Leaves before n (with_client config r)
    unfolding with_client connected_once destroy
    with_client-Leaves before n config (none, h) same = (same, λ q. refl)
    with_client-Leaves before n config (some p, h) taken =
        with_buffer-Leaves before h n (chosen_config config) p
          (malloc h (chosen_config config).buffer_size) taken
          (malloc_lem h (chosen_config config).buffer_size)

    -- A client made, connected once and destroyed leaves the heap and the open descriptors as they were,
    -- whichever allocations and connections fail.
    pub destroy-connect :
        (h : Heap) (n : Net) (config : Option TcpConfig) → Leaves h n (create h config)
    unfolding create
    destroy-connect h n config =
        with_client-Leaves h n config (calloc h client_size) (calloc_lem h client_size)

-- A new client has no connection.
abbrev pub IsOffline : Option Owned → Type 0
IsOffline none = Unit {0}
IsOffline (some t) = t.client.connected ≡ false

module _ (a : Allocator) where
  with_buffer-IsOffline :
      (config : TcpConfig) (p : ℕ) (r : Option ℕ × a.Heap) → IsOffline (with_buffer a config p r).0
  unfolding with_buffer
  with_buffer-IsOffline config p (none, h) = tt
  with_buffer-IsOffline config p (some b, h) = refl

  with_client-IsOffline :
      (config : Option TcpConfig) (r : Option ℕ × a.Heap) → IsOffline (with_client a config r).0
  unfolding with_client
  with_client-IsOffline config (none, h) = tt
  with_client-IsOffline config (some p, h) = with_buffer-IsOffline (chosen_config config) p _

  pub create-IsOffline : (h : a.Heap) (config : Option TcpConfig) → IsOffline (create a h config).0
  unfolding create
  create-IsOffline h config = with_client-IsOffline config _
