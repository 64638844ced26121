-- ===== src/Sockets.antt =====
-- The socket calls of the operating system, which this repository only makes: an interface with the
-- part of their documented behaviour that the callers rely on. A descriptor of −1 is `none`.
use fast_ring.Prelude.{
  ℕ, ◌≡◌, ◌≤◌, Bool, false, not, ◌&&◌, ◌||◌, ◌==◌, Option, none, some, List, ◌++◌, take,
}

-- What `send` or `recv` returns, in an `int`: a number of bytes, or a negative number with `errno`
-- EAGAIN (or EWOULDBLOCK), or with another. The signal SIGPIPE, which ends a process that writes to a
-- connection closed by its peer, is taken as ignored, so that the call returns with EPIPE.
pub data Transfer : Type 0 where
  moved : ℕ → Transfer
  again : Transfer
  failed : Transfer

-- The options that are set on a socket, with the bits of their values; that of `so_sndbuf` is an `int`.
pub data SocketOption : Type 0 where
  so_sndbuf : ℕ → SocketOption
  tcp_nodelay : ℕ → SocketOption
  so_keepalive : ℕ → SocketOption
  so_sndtimeo : ℕ → ℕ → SocketOption
  so_rcvtimeo : ℕ → ℕ → SocketOption

-- What a call may have written to a connection: the first bytes of those given, as many as it says.
abbrev pub Writes : List ℕ → List ℕ → List ℕ → ℕ → Transfer → Type 0
Writes before after bytes n (moved k) = (k ≤ n) × (after ≡ before ++ take k bytes)
Writes before after bytes n again = after ≡ before
Writes before after bytes n failed = after ≡ before

pub record Sockets : Type 1 where
  pub Net : Type 0
  pub Address : Type 0
  -- whether a descriptor is open, and what was written to it
  pub is_open : Net → ℕ → Bool
  pub wire : Net → ℕ → List ℕ
  pub socket : Net → Option ℕ × Net
  pub setsockopt : Net → Option ℕ → SocketOption → Net
  pub inet_pton : List ℕ → Option Address
  -- whether the connection was made
  pub connect : Net → Option ℕ → Address → ℕ → Bool × Net
  -- by the bytes to send and the size passed
  pub send : Net → Option ℕ → List ℕ → ℕ → Transfer × Net
  -- by the size passed; the bytes received
  pub recv : Net → Option ℕ → ℕ → Transfer × List ℕ × Net
  pub close : Net → Option ℕ → Net
  pub socket_lem :
      (n n' : Net) (d : ℕ)
      → socket n ≡ (some d, n')
      → (is_open n d ≡ false) × ((q : ℕ) → is_open n' q ≡ ((q == d) || is_open n q))
  pub socket-none : (n n' : Net) → socket n ≡ (none, n') → (q : ℕ) → is_open n' q ≡ is_open n q
  pub setsockopt_lem :
      (n : Net) (d : Option ℕ) (o : SocketOption) (q : ℕ)
      → is_open (setsockopt n d o) q ≡ is_open n q
  pub connect_lem :
      (n : Net) (d : Option ℕ) (a : Address) (port q : ℕ)
      → is_open (connect n d a port).1 q ≡ is_open n q
  pub send-open :
      (n : Net) (d : Option ℕ) (bytes : List ℕ) (size q : ℕ)
      → is_open (send n d bytes size).1 q ≡ is_open n q
  pub send_lem :
      (n : Net) (d : ℕ) (bytes : List ℕ) (size : ℕ)
      → Writes
          (wire n d)
          (wire (send n (some d) bytes size).1 d)
          bytes
          size
          (send n (some d) bytes size).0
  pub recv-open : (n : Net) (d : Option ℕ) (size q : ℕ) → is_open (recv n d size).2 q ≡ is_open n q
  pub close_lem : (n : Net) (d q : ℕ) → is_open (close n (some d)) q ≡ (not (q == d) && is_open n q)
