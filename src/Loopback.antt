-- ===== src/Loopback.antt =====
-- Socket calls to run the model with: descriptors are numbered as they are made, every connection is
-- made, and the answers to `send` are given beforehand.
use fast_ring.Prelude.{
  ℕ, ◌≡◌, refl, ap, arith, Bool, true, false, Option, none, some, List, [], ◌∷◌, ◌++◌, length, set,
  take, min, ◌==◌, ◌||◌,
}
use fast_ring.Sockets.{Sockets, Transfer, moved, again, failed, Writes}
use fast_ring.Tally.{is_live, live-append, live-length, live-set}

pub data Answer : Type 0 where
  accept : ℕ → Answer
  busy : Answer
  broken : Answer

pub record Wires : Type 0 where
  pub opened : List Bool
  pub output : List ℕ
  pub answers : List Answer

abbrev pub answer : Wires → List ℕ → ℕ → List Answer → Transfer × Wires
answer n bytes size [] = (moved size, record n { output = n.output ++ take size bytes })
answer n bytes size (accept k ∷ rest) =
    (moved (min k size), record n { output = n.output ++ take (min k size) bytes; answers = rest })
answer n bytes size (busy ∷ rest) = (again, record n { answers = rest })
answer n bytes size (broken ∷ rest) = (failed, record n { answers = rest })

abbrev pub shut : Wires → Option ℕ → Wires
shut n none = n
shut n (some d) = record n { opened = set n.opened d false }

pub answer-open :
    (n : Wires) (bytes : List ℕ) (size q : ℕ) (replies : List Answer)
    → is_live (answer n bytes size replies).1.opened q ≡ is_live n.opened q
answer-open n bytes size q [] = refl
answer-open n bytes size q (accept k ∷ rest) = refl
answer-open n bytes size q (busy ∷ rest) = refl
answer-open n bytes size q (broken ∷ rest) = refl

pub answer-Writes :
    (n : Wires) (bytes : List ℕ) (size : ℕ) (replies : List Answer)
    → Writes n.output
        (answer n bytes size replies).1.output
        bytes
        size
        (answer n bytes size replies).0
answer-Writes n bytes size [] = (omega arith, refl)
answer-Writes n bytes size (accept k ∷ rest) = (omega arith, refl)
answer-Writes n bytes size (busy ∷ rest) = refl
answer-Writes n bytes size (broken ∷ rest) = refl

abbrev pub new_socket : Wires → Option ℕ × Wires
new_socket n = (some (length n.opened), record n { opened = n.opened ++ (true ∷ []) })

pub new_socket_lem :
    (n n' : Wires) (d : ℕ)
    → new_socket n ≡ (some d, n')
    → (is_live n.opened d ≡ false)
      × ((q : ℕ) → is_live n'.opened q ≡ ((q == d) || is_live n.opened q))
new_socket_lem n n' d e =
    (rw⁻¹ number (live-length n.opened), λ q. rw⁻¹ (number, grown) (live-append n.opened q))
  where
    number : length n.opened ≡ d
    number = ground (arith, ap (λ (r : Option ℕ × Wires). r.0) e)

    grown : n.opened ++ (true ∷ []) ≡ n'.opened
    grown = ap (λ (r : Option ℕ × Wires). r.1.opened) e

pub new_socket-none :
    (n n' : Wires) → new_socket n ≡ (none, n') → (q : ℕ) → is_live n'.opened q ≡ is_live n.opened q
new_socket-none n n' e = absurd (ground (arith, ap (λ (r : Option ℕ × Wires). r.0) e))

abbrev pub loopback : Sockets
loopback = record {
  Net = Wires;
  Address = List ℕ;
  is_open = λ n. is_live n.opened;
  wire = λ n d. n.output;
  socket = new_socket;
  setsockopt = λ n d o. n;
  inet_pton = λ text. some text;
  connect = λ n d a port. (true, n);
  send = λ n d bytes size. answer n bytes size n.answers;
  recv = λ n d size. (moved 0, [], n);
  close = shut;
  socket_lem = new_socket_lem;
  socket-none = new_socket-none;
  setsockopt_lem = λ n d o q. refl;
  connect_lem = λ n d a port q. refl;
  send-open = λ n d bytes size q. answer-open n bytes size q n.answers;
  send_lem = λ n d bytes size. answer-Writes n bytes size n.answers;
  recv-open = λ n d size q. refl;
  close_lem = λ n d q. live-set n.opened d q;
}
