-- ===== src/Queue.antt =====
-- What a ring buffer promises its users: a first-in first-out queue of at most `room` samples that
-- counts, modulo 2^64, the samples it turned away. No head, tail or block is seen.
use fast_ring.Prelude.{
  ℕ, ◌-◌, ◌&&◌, Bool, true, false, Option, none, some, List, [], ◌∷◌, ◌++◌, ltb, ◌==◌,
  if◌then◌else◌, add64, length, take, drop, min,
}
use fast_ring.Types.{Sample}

pub record Queue : Type 0 where
  pub items : List Sample
  pub lost : ℕ

-- The calls of a user in order; a batch gives the samples pushed, or the array to fill.
pub data Op : Type 0 where
  put : Sample → Op
  get : Op
  put_many : List Sample → Op
  get_many : List Sample → Op
  size : Op
  space : Op
  reset : Op

-- What a call returns and writes through its pointers.
pub data Reply : Type 0 where
  done : Bool → Reply
  got : Bool → Option Sample → Reply
  took : Bool → ℕ → Reply
  gave : Bool → ℕ → List Sample → Reply
  number : ℕ → Reply
  nothing : Reply

unfoldable pub push : ℕ → Queue → Sample → Bool × Queue
push room q x =
    if length q.items == room
    then (false, record q { lost = add64 q.lost 1 })
    else (true, record q { items = q.items ++ (x ∷ []) })

unfoldable pub pop : Queue → Bool × Option Sample × Queue
pop q = elim q.items [
  | [] ↦ (false, none, q)
  | x ∷ rest ↦ (true, some x, record q { items = rest })
]

-- A batch takes what fits, and counts the others as lost. An empty batch reports failure.
unfoldable pub push_many : ℕ → Queue → List Sample → Reply × Queue
push_many room q xs =
    let n = min (length xs) (room - length q.items) in
    (
      took (ltb 0 (length xs) && n == length xs) n,
      record q { items = q.items ++ take n xs; lost = add64 q.lost (length xs - n) },
    )

-- The samples given stand at the front of the array, whose other elements stay.
unfoldable pub pop_many : Queue → List Sample → Reply × Queue
pop_many q dst =
    let n = min (length dst) (length q.items) in
    (gave (ltb 0 n) n (take n q.items ++ drop n dst), record q { items = drop n q.items })

unfoldable pub step : ℕ → Queue → Op → Reply × Queue
unfolding push pop push_many pop_many
step room q (put x) = let (b, q') = push room q x in (done b, q')
step room q get = let (b, x, q') = pop q in (got b x, q')
step room q (put_many xs) = push_many room q xs
step room q (get_many dst) = pop_many q dst
step room q size = (number (length q.items), q)
step room q space = (number (room - length q.items), q)
step room q reset = (nothing, record { items = []; lost = 0 })

unfoldable pub run : ℕ → Queue → List Op → List Reply
run room q [] = []
run room q (op ∷ ops) = let (reply, q') = step room q op in reply ∷ run room q' ops
