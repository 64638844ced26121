-- ===== src/Client/Descriptors.antt =====
-- Which descriptors src/network/tcp_client.c leaves open.
use fast_ring.Prelude.{
  ℕ, ◌≡◌, ◌≢◌, ◌⊎◌, inl, inr, refl, ap, ◌∙◌, arith, Bool, true, false, not, ◌&&◌, ◌||◌, Option,
  none, some, List, ◌==◌, if◌then◌else◌, ◌<◌,
}
use fast_ring.Types.{AdcError, ok, error_network}
use fast_ring.Sockets.{Sockets, Transfer, moved, again, failed}
use fast_ring.Client.{
  Client, TcpConfig, set_options, with_connection, with_address, with_socket, connect, disconnect,
  with_sent, send, int_size,
}

module _ (s : Sockets) where
  open s use {
    Net, Address, is_open, socket, setsockopt, inet_pton, close, socket_lem, socket-none,
    setsockopt_lem, connect_lem, send-open, close_lem,
  }

  -- What an attempt to connect leaves: a connection on one new descriptor, or none and an error.
  abbrev pub Connects : Net → AdcError × Client × Net → Type 0
  Connects n (err, c, n') =
      ((err ≡ ok)
        × (c.connected ≡ true)
        × ((d : ℕ) × (c.socket_fd ≡ some d)
            × (is_open n d ≡ false)
            × ((q : ℕ) → is_open n' q ≡ ((q == d) || is_open n q))))
      ⊎ ((err ≡ error_network)
          × (c.connected ≡ false)
          × (c.socket_fd ≡ none)
          × ((q : ℕ) → is_open n' q ≡ is_open n q))

  set_options-open :
      (n : Net) (d : Option ℕ) (config : TcpConfig) (q : ℕ)
      → is_open (set_options s n d config) q ≡ is_open n q
  unfolding set_options
  set_options-open n d config q =
      elim config.keep_alive
        as (λ k. is_open (set_options s n d (record config { keep_alive = k })) q ≡ is_open n q) [
          | true ↦
              rw (setsockopt_lem, setsockopt_lem, setsockopt_lem, setsockopt_lem, setsockopt_lem)
                refl
          | false ↦ rw (setsockopt_lem, setsockopt_lem, setsockopt_lem, setsockopt_lem) refl
        ]

  -- From a new socket on.
  module _ (n : Net) (c : Client) (down : c.connected ≡ false) (d : ℕ)
      (new : is_open n d ≡ false) where
    with_connection-Connects :
        (r : Bool × Net)
        → ((q : ℕ) → is_open r.1 q ≡ ((q == d) || is_open n q))
        → Connects n (with_connection s (record c { socket_fd = some d }) r)
    unfolding with_connection
    with_connection-Connects (true, n') opened = inl (refl, refl, (d, refl, new, opened))
    with_connection-Connects (false, n') opened =
        inr (refl, down, refl, λ q. ground (arith, close_lem n' d q, opened q, new))

    with_address-Connects :
        (n' : Net) (a : Option Address)
        → ((q : ℕ) → is_open n' q ≡ ((q == d) || is_open n q))
        → Connects n (with_address s (record c { socket_fd = some d }) n' a)
    unfolding with_address
    with_address-Connects n' none opened =
        inr (refl, down, refl, λ q. ground (arith, close_lem n' d q, opened q, new))
    with_address-Connects n' (some a) opened =
        with_connection-Connects _
          (λ q. connect_lem n' (some d) a c.config.server_port q ∙ opened q)

  with_socket-Connects :
      (n : Net) (c : Client) (r : Option ℕ × Net)
      → c.connected ≡ false
      → socket n ≡ r
      → Connects n (with_socket s c r)
  unfolding with_socket
  with_socket-Connects n c (none, n') down e = inr (refl, down, refl, socket-none n n' e)
  with_socket-Connects n c (some d, n') down e =
      with_address-Connects n c down d (socket_lem n n' d e).0 _ _
        (λ q. set_options-open n' (some d) c.config q ∙ (socket_lem n n' d e).1 q)

  -- `tcp_client_connect` on a client without connection either connects, on exactly one new open
  -- descriptor, or reports an error and leaves no descriptor open that was not, and none in the
  -- client.
  pub connect-Connects : (n : Net) (c : Client) → c.connected ≡ false → Connects n (connect s c n)
  unfolding connect
  connect-Connects n c down = rw opened (with_socket-Connects n c (socket n) down refl)
    where
      opened : connect s c n ≡ with_socket s c (socket n)
      opened = ap (λ b. if b then (ok, c, n) else with_socket s c (socket n)) down

  disconnect-closes :
      (n : Net) (c : Client) (d q : ℕ)
      → c.connected ≡ true
      → c.socket_fd ≡ some d
      → is_open (disconnect s c n).2 q ≡ (not (q == d) && is_open n q)
  unfolding disconnect
  disconnect-closes n c d q up held =
      ap (λ (out : AdcError × Client × Net). is_open out.2 q) closed
      ∙ ap (λ fd. is_open (close n fd) q) held
      ∙ close_lem n d q
    where
      closed :
          disconnect s c n
          ≡ (ok, record c { socket_fd = none; connected = false }, close n c.socket_fd)
      closed =
          ap
            (λ b.
              if b
              then (ok, record c { socket_fd = none; connected = false }, close n c.socket_fd)
              else (ok, c, n))
            up

  -- `tcp_client_disconnect` after a `tcp_client_connect` that reported success leaves open what was
  -- open before both.
  pub disconnect-connect :
      (n : Net) (c : Client) (q : ℕ)
      → c.connected ≡ false
      → (connect s c n).0 ≡ ok
      → is_open (disconnect s (connect s c n).1 (connect s c n).2).2 q ≡ is_open n q
  disconnect-connect n c q down success = elim (connect-Connects n c down) [
    | inl (e, up, (d, held, new, opened)) ↦
        disconnect-closes (connect s c n).2 (connect s c n).1 d q up held
        ∙ ground (arith, opened q, new)
    | inr (e, down_still, gone, same) ↦ absurd (ground (arith, success, e))
  ]

  -- What a client names no longer, but has not closed.
  abbrev pub Leaks : ℕ → AdcError × Client × Net → Type 0
  Leaks d (err, c, n) = (is_open n d ≡ true) × (c.socket_fd ≢ some d)

  connect-Leaks :
      (n : Net) (c : Client) (d : ℕ)
      → c.connected ≡ false
      → is_open n d ≡ true
      → Leaks d (connect s c n)
  connect-Leaks n c d down old = elim (connect-Connects n c down) [
    | inl (e, up, (d', held, new, opened)) ↦
        (ground (arith, opened d, old), λ same. ground (arith, same, held, new, old))
    | inr (e, up, gone, same) ↦ (same d ∙ old, λ kept. ground (arith, kept, gone))
  ]

  sent-Leaks :
      (n : Net) (c : Client) (d : ℕ) (r : Transfer × Net)
      → is_open r.1 d ≡ true
      → (with_sent s c r).0 ≡ error_network
      → Leaks d (connect s (with_sent s c r).2 (with_sent s c r).3)
  unfolding with_sent
  sent-Leaks n c d (moved k, n') old lost = absurd (ground (arith, lost))
  sent-Leaks n c d (again, n') old lost = absurd (ground (arith, lost))
  sent-Leaks n c d (failed, n') old lost =
      connect-Leaks n' (record c { connected = false }) d refl old

  -- When `tcp_client_send` gives a connection up, the next `tcp_client_connect` leaves its descriptor
  -- open and in no field of the client, so that nothing closes it any more.
  pub send-Leaks :
      (n : Net) (c : Client) (d : ℕ) (bytes : List ℕ) (len : ℕ)
      → 0 < len
      → c.connected ≡ true
      → c.socket_fd ≡ some d
      → is_open n d ≡ true
      → (send s c n bytes len).0 ≡ error_network
      → Leaks d (connect s (send s c n bytes len).2 (send s c n bytes len).3)
  unfolding send
  send-Leaks n c d bytes len pos up held old lost = rw sending (
      sent-Leaks n c d _ (send-open n c.socket_fd bytes (int_size len) d ∙ old)
        (rw sending at lost))
    where
      nonempty : len == 0 ≡ false
      nonempty = ground arith

      sending : send s c n bytes len ≡ with_sent s c (s.send n c.socket_fd bytes (int_size len))
      sending = rw nonempty (
          ap
            (λ b.
              if b
              then with_sent s c (s.send n c.socket_fd bytes (int_size len))
              else (error_network, none, c, n))
            up)
