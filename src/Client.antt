-- ===== src/Client.antt =====
-- src/network/tcp_client.c on a client that exists, on the POSIX side of its conditionals, over the
-- socket calls of `Sockets`. `send_all` takes fuel for its loop: `none` where it has not ended.
pub mod Streams
pub mod Descriptors
pub mod Lifetime
mod Tests
use fast_ring.Prelude.{
  ℕ, zero, suc, ◌+◌, ◌-◌, ◌*◌, ◌/◌, ◌%◌, ◌^◌, Bool, true, false, Option, none, some, List, [], ltb,
  ◌==◌, if◌then◌else◌, sub64, u32_mod, length, drop,
}
use fast_ring.Types.{AdcError, ok, error_network, error_timeout, error_invalid_param}
use fast_ring.Sockets.{
  Sockets, Transfer, moved, again, failed, SocketOption, so_sndbuf, tcp_nodelay, so_keepalive,
  so_sndtimeo, so_rcvtimeo,
}

-- `tcp_config_t`; the address is the characters before the terminating zero.
pub record TcpConfig : Type 0 where
  pub server_ip : List ℕ
  pub server_port : ℕ
  pub send_timeout_ms : ℕ
  pub recv_timeout_ms : ℕ
  pub buffer_size : ℕ
  pub keep_alive : Bool

-- `struct tcp_client`; `none` in `socket_fd` is −1. The send buffer is only made and released, and
-- stands in `Lifetime`.
pub record Client : Type 0 where
  pub config : TcpConfig
  pub socket_fd : Option ℕ
  pub connected : Bool
  pub block_sequence : ℕ

-- `(int)len` where a `size_t` is expected: the low word, its sign extended.
abbrev pub int_size : ℕ → ℕ
int_size len = let low = len % u32_mod in if ltb low (2 ^ 31) then low else low + (2 ^ 64 - u32_mod)

-- A `struct timeval` from milliseconds, as a socket option.
abbrev pub timeout : (ℕ → ℕ → SocketOption) → ℕ → SocketOption
timeout option ms = option (ms / 1000) (ms % 1000 * 1000)

-- `tcp_client_is_connected`
pub is_connected : Option Client → Bool
is_connected none = false
is_connected (some c) = c.connected

module _ (s : Sockets) where
  open s use {Net, Address, socket, setsockopt, inet_pton, close, recv}

  -- The options that `tcp_client_connect` sets on a new socket, in order.
  unfoldable pub set_options : Net → Option ℕ → TcpConfig → Net
  set_options n d config =
      let n1 = setsockopt n d (so_sndbuf config.buffer_size) in
      let n2 = setsockopt n1 d (tcp_nodelay 1) in
      let n3 = if config.keep_alive then setsockopt n2 d (so_keepalive 1) else n2 in
      let n4 = setsockopt n3 d (timeout so_sndtimeo config.send_timeout_ms) in
      setsockopt n4 d (timeout so_rcvtimeo config.recv_timeout_ms)

  -- What follows the attempt to connect,
  unfoldable pub with_connection : Client → Bool × Net → AdcError × Client × Net
  with_connection c (true, n) = (ok, record c { connected = true }, n)
  with_connection c (false, n) = (error_network, record c { socket_fd = none }, close n c.socket_fd)

  -- the reading of the address,
  unfoldable pub with_address : Client → Net → Option Address → AdcError × Client × Net
  with_address c n none = (error_network, record c { socket_fd = none }, close n c.socket_fd)
  with_address c n (some a) = with_connection c (s.connect n c.socket_fd a c.config.server_port)

  -- and the making of the socket.
  unfoldable pub with_socket : Client → Option ℕ × Net → AdcError × Client × Net
  with_socket c (none, n) = (error_network, record c { socket_fd = none }, n)
  with_socket c (some d, n) =
      with_address (record c { socket_fd = some d }) (set_options n (some d) c.config)
        (inet_pton c.config.server_ip)

  -- `tcp_client_connect`
  unfoldable pub connect : Client → Net → AdcError × Client × Net
  connect c n = if c.connected then (ok, c, n) else with_socket c (socket n)

  -- `tcp_client_disconnect`
  pub disconnect : Client → Net → AdcError × Client × Net
  disconnect c n =
      if c.connected
      then (ok, record c { socket_fd = none; connected = false }, close n c.socket_fd)
      else (ok, c, n)

  -- What `tcp_client_send` does with the result of `send`. The option is what goes through `sent`.
  pub with_sent : Client → Transfer × Net → AdcError × Option ℕ × Client × Net
  with_sent c (moved k, n) = (ok, some k, c, n)
  with_sent c (again, n) = (error_timeout, some 0, c, n)
  with_sent c (failed, n) = (error_network, none, record c { connected = false }, n)

  -- `tcp_client_send` of `len` bytes from `bytes` on
  unfoldable pub send : Client → Net → List ℕ → ℕ → AdcError × Option ℕ × Client × Net
  send c n bytes len =
      if len == 0
      then (error_invalid_param, none, c, n)
      else if c.connected
      then with_sent c (s.send n c.socket_fd bytes (int_size len))
      else (error_network, none, c, n)

  -- The rest of a round of `tcp_client_send_all`, after `tcp_client_send`; `sent` was 0 before it.
  unfoldable pub send_round :
      (Client → Net → List ℕ → ℕ → Option (AdcError × Client × Net))
      → List ℕ
      → ℕ
      → AdcError × Option ℕ × Client × Net
      → Option (AdcError × Client × Net)
  send_round next bytes remaining (ok, some (suc k), c, n) =
      next c n (drop (suc k) bytes) (sub64 remaining (suc k))
  send_round next bytes remaining (ok, _, c, n) =
      some (error_network, record c { connected = false }, n)
  send_round next bytes remaining (err, sent, c, n) = some (err, c, n)

  -- Its loop, with `remaining` bytes to send from `bytes` on.
  unfoldable pub send_loop : ℕ → Client → Net → List ℕ → ℕ → Option (AdcError × Client × Net)
  send_loop zero c n bytes remaining = none
  send_loop (suc fuel) c n bytes remaining = elim (remaining == 0) [
    | true ↦ some (ok, c, n)
    | false ↦ send_round (send_loop fuel) bytes remaining (send c n bytes remaining)
  ]

  -- `tcp_client_send_all`
  unfoldable pub send_all : ℕ → Client → Net → List ℕ → ℕ → Option (AdcError × Client × Net)
  send_all fuel c n bytes len =
      if len == 0
      then some (error_invalid_param, c, n)
      else if c.connected
      then send_loop fuel c n bytes len
      else some (error_network, c, n)

  -- What `tcp_client_receive` does with the result of `recv`. The option is what goes through
  -- `received`.
  pub with_received : Client → Transfer × List ℕ × Net → AdcError × Option ℕ × List ℕ × Client × Net
  with_received c (moved zero, bytes, n) =
      (error_network, none, bytes, record c { connected = false }, n)
  with_received c (moved (suc k), bytes, n) = (ok, some (suc k), bytes, c, n)
  with_received c (again, bytes, n) = (error_timeout, some 0, bytes, c, n)
  with_received c (failed, bytes, n) =
      (error_network, none, bytes, record c { connected = false }, n)

  -- `tcp_client_receive` into a buffer of `len` bytes
  pub receive : Client → Net → ℕ → AdcError × Option ℕ × List ℕ × Client × Net
  receive c n len =
      if len == 0
      then (error_invalid_param, none, [], c, n)
      else if c.connected
      then with_received c (recv n c.socket_fd (int_size len))
      else (error_network, none, [], c, n)
