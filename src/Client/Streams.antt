-- ===== src/Client/Streams.antt =====
-- What `tcp_client_send_all` of src/network/tcp_client.c puts on the connection.

use fast_ring.Prelude.{
  ℕ, zero, suc, ◌+◌, ◌-◌, ◌^◌, ◌≤◌, ◌<◌, ◌≡◌, ◌⊎◌, inl, inr, refl, ap, sym, ◌∙◌, arith, true, false,
  Option, some, List, ◌++◌, append-nil, append_assoc, length, take, drop, length-drop,
  take-append-drop, ◌==◌, Bool-cases, if◌then◌else◌, sub64,
}
use fast_ring.Types.{AdcError, ok, error_network, error_timeout}
use fast_ring.Sockets.{Sockets, Transfer, moved, again, failed, Writes}
use fast_ring.Client.{Client, int_size, with_sent, send, send_round, send_loop, send_all}

-- How a transfer of `len` bytes of which `k` were written ends.
abbrev pub Ends : Client → ℕ → ℕ → AdcError → Client → Type 0
Ends c len k err c' =
    ((err ≡ ok) × (k ≡ len) × (c' ≡ c))
    ⊎ (((err ≡ error_timeout) × (k < len) × (c' ≡ c))
        ⊎ ((err ≡ error_network) × (k < len) × (c' ≡ record c { connected = false })))

-- The first `k` bytes were written, all of them or with an error.
pub record IsDelivery (c : Client) (before after bytes : List ℕ) (err : AdcError) (c' : Client)
    : Type 0 where
  pub k : ℕ
  pub bounded : k ≤ length bytes
  pub written : after ≡ before ++ take k bytes
  pub ends : Ends c (length bytes) k err c'

joined-Ends :
    (c : Client) (len j k : ℕ) (err : AdcError) (c' : Client)
    → j ≤ len
    → Ends c (len - j) k err c'
    → Ends c len (j + k) err c'
joined-Ends c len j k err c' h (inl (e, whole, same)) = inl (e, omega arith, same)
joined-Ends c len j k err c' h (inr (inl (e, part, same))) = inr (inl (e, omega arith, same))
joined-Ends c len j k err c' h (inr (inr (e, part, same))) = inr (inr (e, omega arith, same))

module _ (s : Sockets) where
  open s use {Net, wire, send_lem}

  abbrev pub Delivers : Client → ℕ → Net → List ℕ → Option (AdcError × Client × Net) → Type 0
  Delivers c d n bytes result =
      (out : AdcError × Client × Net) × (result ≡ some out)
      × IsDelivery c (wire n d) (wire out.2 d) bytes out.0 out.1

  module _ (c : Client) (d : ℕ) (up : c.connected ≡ true) (held : c.socket_fd ≡ some d) where
    -- Nothing more was written.
    stopped :
        (n n' : Net) (bytes : List ℕ) (err : AdcError) (c' : Client)
        → wire n' d ≡ wire n d
        → Ends c (length bytes) 0 err c'
        → Delivers c d n bytes (some (err, c', n'))
    stopped n n' bytes err c' same e = (
      (err, c', n'),
      refl,
      record {
        k = 0;
        bounded = omega arith;
        written = same ∙ sym (append-nil (wire n d));
        ends = e;
      },
    )

    -- The first `j` bytes were written in this round, the others after it.
    joined :
        (n n' : Net) (bytes : List ℕ) (j : ℕ) (result : Option (AdcError × Client × Net))
        → j ≤ length bytes
        → wire n' d ≡ wire n d ++ take j bytes
        → Delivers c d n' (drop j bytes) result
        → Delivers c d n bytes result
    joined n n' bytes j result h first (out, e, later) = (
      out,
      e,
      record {
        k = j + later.k;
        bounded = omega (arith, later.bounded, length-drop j bytes);
        written =
            later.written
            ∙ ap (λ ws. ws ++ take later.k (drop j bytes)) first
            ∙ append_assoc (wire n d) (take j bytes) _
            ∙ ap (λ ws. wire n d ++ ws) (sym (take-append-drop j later.k bytes));
        ends =
            joined-Ends c (length bytes) j later.k out.0 out.1 h
              (rw (length-drop j bytes) at later.ends);
      },
    )

    -- `tcp_client_send` on a connection makes one call of `send`.
    send-sent :
        (n : Net) (bytes : List ℕ) (len : ℕ)
        → 0 < len
        → len < 2 ^ 31
        → send s c n bytes len ≡ with_sent s c (s.send n (some d) bytes len)
    unfolding send
    send-sent n bytes len pos small =
        let nonempty : len == 0 ≡ false = ground arith in
        let exact : int_size len ≡ len = ground arith in rw (nonempty, up, held, exact)

    -- A round of the loop, if the rounds after it do what they should.
    round-Delivers :
        (fuel : ℕ) (n n' : Net) (bytes : List ℕ) (t : Transfer)
        → ((n : Net) (bytes : List ℕ)
            → length bytes < 2 ^ 31
            → length bytes < fuel
            → Delivers c d n bytes (send_loop s fuel c n bytes (length bytes)))
        → 0 < length bytes
        → length bytes < 2 ^ 31
        → length bytes ≤ fuel
        → Writes (wire n d) (wire n' d) bytes (length bytes) t
        → Delivers c d n bytes
            (send_round s (send_loop s fuel) bytes (length bytes) (with_sent s c (t, n')))
    unfolding send_round with_sent
    round-Delivers fuel n n' bytes (moved zero) rest pos small enough w =
        stopped n n' bytes error_network _ (w.1 ∙ append-nil (wire n d))
          (inr (inr (refl, pos, refl)))
    round-Delivers fuel n n' bytes (moved (suc k)) rest pos small enough w =
        joined n n' bytes (suc k) _ w.0 w.1 (
          rw left (
            rest n' (drop (suc k) bytes) (omega (arith, length-drop (suc k) bytes))
              (omega (arith, length-drop (suc k) bytes))))
      where
        left : sub64 (length bytes) (suc k) ≡ length (drop (suc k) bytes)
        left = omega (arith, length-drop (suc k) bytes, w.0)
    round-Delivers fuel n n' bytes again rest pos small enough w =
        stopped n n' bytes error_timeout _ w (inr (inl (refl, pos, refl)))
    round-Delivers fuel n n' bytes failed rest pos small enough w =
        stopped n n' bytes error_network _ w (inr (inr (refl, pos, refl)))

    send_loop-Delivers :
        (fuel : ℕ) (n : Net) (bytes : List ℕ)
        → length bytes < 2 ^ 31
        → length bytes < fuel
        → Delivers c d n bytes (send_loop s fuel c n bytes (length bytes))
    unfolding send_loop
    send_loop-Delivers zero n bytes small enough = absurd (omega (arith, enough))
    send_loop-Delivers (suc fuel) n bytes small enough = elim (Bool-cases (length bytes == 0)) [
      | inl over ↦
          rw (over, send_loop) (stopped n n bytes ok c refl (inl (refl, ground arith, refl)))
      | inr more ↦
          let pos : 0 < length bytes = ground arith in
          rw (more, send_loop, send-sent n bytes (length bytes) pos small)
            (round-Delivers fuel n (s.send n (some d) bytes (length bytes)).1 bytes
              (s.send n (some d) bytes (length bytes)).0 (send_loop-Delivers fuel) pos small
              (omega arith) (send_lem n d bytes (length bytes)))
    ]

    -- `tcp_client_send_all` of fewer than 2^31 bytes on a connection ends within one round more than
    -- there are bytes. It has then written the first bytes in order: all of them if it reports
    -- success, fewer after a timeout, which keeps the connection, and after an error, which gives the
    -- connection up.
    pub send_all-Delivers :
        (fuel : ℕ) (n : Net) (bytes : List ℕ)
        → 0 < length bytes
        → length bytes < 2 ^ 31
        → length bytes < fuel
        → Delivers c d n bytes (send_all s fuel c n bytes (length bytes))
    unfolding send_all
    send_all-Delivers fuel n bytes pos small enough =
        rw opened (send_loop-Delivers fuel n bytes small enough)
      where
        nonempty : length bytes == 0 ≡ false
        nonempty = ground arith

        opened :
            send_all s fuel c n bytes (length bytes) ≡ send_loop s fuel c n bytes (length bytes)
        opened = rw nonempty (
            ap
              (λ b.
                if b then send_loop s fuel c n bytes (length bytes) else some (error_network, c, n))
              up)
