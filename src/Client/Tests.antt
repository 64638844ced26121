-- ===== src/Client/Tests.antt =====
-- Runs of the TCP client over connections whose answers are given beforehand.
use fast_ring.Prelude.{ℕ, ◌≡◌, refl, arith, true, false, none, some, List, [], ◌∷◌}
use fast_ring.Types.{ok, error_network, error_timeout}
use fast_ring.Loopback.{Wires, accept, busy, broken, loopback}
use fast_ring.Client.{
  TcpConfig, Client, connect, send, send_all, send_loop, send_round, with_sent, with_socket,
  with_address, with_connection, set_options,
}
use fast_ring.Client.Streams.{Delivers, send_all-Delivers}
use fast_ring.Tally.{tally}
use fast_ring.Client.Lifetime.{create, Leaves, destroy-connect}
use fast_ring.Client.Descriptors.{Leaks, send-Leaks}

abbrev settings : TcpConfig
settings = record {
  server_ip = 49 ∷ [];
  server_port = 8080;
  send_timeout_ms = 5000;
  recv_timeout_ms = 5000;
  buffer_size = 65536;
  keep_alive = true;
}

abbrev fresh : Client
fresh = record { config = settings; socket_fd = none; connected = false; block_sequence = 0 }

abbrev online : Client
online = record { config = settings; socket_fd = some 1; connected = true; block_sequence = 0 }

-- Descriptor 0 is another's; the first answers to `send` take two bytes and then none in time.
abbrev slow : Wires
slow = record { opened = true ∷ true ∷ []; output = []; answers = accept 2 ∷ busy ∷ [] }

abbrev cut : Wires
cut = record { opened = true ∷ true ∷ []; output = []; answers = broken ∷ [] }

abbrev message : List ℕ
message = 1 ∷ 2 ∷ 3 ∷ 4 ∷ []

-- A timeout in the middle of a message leaves a part of it on a connection that is kept.
send_all-slow :
    send_all loopback 5 online slow message 4
    ≡ some (
      error_timeout,
      online,
      record { opened = true ∷ true ∷ []; output = 1 ∷ 2 ∷ []; answers = [] },
    )
unfolding send_all send_loop send_round send with_sent
send_all-slow = refl

send_all-Delivers_example :
    Delivers loopback online 1 slow message (send_all loopback 5 online slow message 4)
send_all-Delivers_example =
    send_all-Delivers loopback online 1 refl refl 5 slow message (omega arith) (omega arith)
      (omega arith)

connect-slow : (connect loopback fresh slow).0 ≡ ok
unfolding connect with_socket with_address with_connection set_options
connect-slow = refl

send-cut : (send loopback online cut message 4).0 ≡ error_network
unfolding send with_sent
send-cut = refl

send-Leaks_example :
    Leaks loopback 1 (
      connect loopback
        (send loopback online cut message 4).2
        (send loopback online cut message 4).3)
send-Leaks_example =
    send-Leaks loopback cut online 1 message 4 (omega arith) refl refl refl send-cut

destroy-connect_example : Leaves (tally 5) loopback [] slow (create (tally 5) [] (some settings))
destroy-connect_example = destroy-connect (tally 5) loopback [] slow (some settings)
