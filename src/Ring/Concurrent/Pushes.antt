-- ===== src/Ring/Concurrent/Pushes.antt =====
-- The steps of the producer of `Ring.Concurrent`, on the buffer.
use native.Mathlib.Nat.{mod-eq_of_lt, mod-lt, mod-add-mod}
use fast_ring.Prelude.{
  ℕ, suc, ◌+◌, ◌%◌, ◌⊎◌, sub32, ◌≤◌, ◌<◌, ◌≡◌, refl, ap, ap₂, sym, ◌∙◌, arith, List, [], ◌∷◌,
  length, ◌++◌, ◌==◌, if◌then◌else◌, set, length-set, length-append, length-take, Bool-cases, inl,
  inr, add64, u64_mod, u32_mod, bit_and, add32, ltb, take,
}
use fast_ring.Types.{Sample}
use fast_ring.Ring.{RingBuffer, count, available, next_index}
use fast_ring.Ring.Inv.{IsValid, count-lt, full-test, available-eq, next-mod, advance-mod}
use fast_ring.Ring.Window.{
  window, contents, slot, window-snoc, window-add, window-mod, window-set_outside, slot-set,
}
use fast_ring.Ring.Transfer.{head-mod, count_unique}
use fast_ring.Ring.Concurrent.{
  Push, one, batch, Write, Read, resting, writing, following, begin_push,
}
use fast_ring.Ring.Concurrent.Invariant.{IsWriting, IsReading, following-mod}

-- What the producer changes leaves a read as it is, if it changes no slot that is held.
pub IsReading-grow :
    {rb : RingBuffer} {r : Read} (b : List Sample) (h d : ℕ)
    → count rb ≤ count (record rb { buffer = b; head = h; dropped = d })
    → ((n : ℕ)
        → n ≤ count rb
        → window b rb.capacity rb.tail n ≡ window rb.buffer rb.capacity rb.tail n)
    → IsReading rb r
    → IsReading (record rb { buffer = b; head = h; dropped = d }) r
IsReading-grow {rb} {r} b h d more kept g = record {
  held = omega (arith, g.held);
  same = kept (length r.copied) (omega (arith, g.held)) ∙ g.same;
  here = g.here;
  lands = g.lands;
}

module _ {rb : RingBuffer} (v : IsValid rb) {w : Write} (p : IsWriting rb w) where
  -- The slot to write next, counted from the oldest sample held.
  pub slot_past : w.slot ≡ (rb.tail + (count rb + length w.written)) % rb.capacity
  slot_past =
      p.here
      ∙ ap (λ (t : ℕ). (t + length w.written) % rb.capacity) (head-mod v)
      ∙ mod-add-mod (rb.tail + count rb) rb.capacity (length w.written)
      ∙ ap (λ (t : ℕ). t % rb.capacity) {x = rb.tail + count rb + length w.written}
          {y = rb.tail + (count rb + length w.written)} (omega arith)

  module _ (x : Sample) (xs : List Sample) (e : w.left ≡ x ∷ xs) where
    room_left : count rb + (length w.written + suc (length xs)) < rb.capacity
    room_left = omega (arith, p.fits, ap length e)

    pub write-IsValid : IsValid (record rb { buffer = set rb.buffer w.slot x })
    write-IsValid = record {
      power = v.power;
      masked = v.masked;
      sized = length-set rb.buffer w.slot x ∙ v.sized;
      head_in = v.head_in;
      tail_in = v.tail_in;
      dropped_in = v.dropped_in;
    }

    -- A write touches none of the samples held.
    pub write-window :
        (n : ℕ)
        → n ≤ count rb
        → window (set rb.buffer w.slot x) rb.capacity rb.tail n
          ≡ window rb.buffer rb.capacity rb.tail n
    write-window n h =
        ap (λ k. window (set rb.buffer k x) rb.capacity rb.tail n) slot_past
        ∙ window-set_outside rb.buffer rb.capacity x (rb.tail + (count rb + length w.written))
            rb.tail n (omega arith) (omega (arith, room_left))

    pub write-IsWriting :
        IsWriting
          (record rb { buffer = set rb.buffer w.slot x })
          (record w { slot = following rb w.slot; left = xs; written = w.written ++ (x ∷ []) })
    unfolding count
    write-IsWriting = record {
      fits = omega (arith, room_left, length-append w.written (x ∷ []));
      stored =
          ap (window (set rb.buffer w.slot x) rb.capacity rb.head)
            {x = length (w.written ++ (x ∷ []))} {y = suc (length w.written)}
            (omega (arith, length-append w.written (x ∷ [])))
          ∙ window-snoc (set rb.buffer w.slot x) rb.capacity rb.head (length w.written)
          ∙ ap₂ (λ ws z. ws ++ (z ∷ [])) before_it it;
      here =
          following-mod w.slot (rb.head + length w.written) v p.here
          ∙ ap (λ t. t % rb.capacity) {x = rb.head + length w.written + 1}
              {y = rb.head + length (w.written ++ (x ∷ []))}
              (omega (arith, length-append w.written (x ∷ [])));
      lands =
          p.lands
          ∙ ap (λ t. (rb.head + t) % rb.capacity) {x = length w.written + length w.left}
              {y = length (w.written ++ (x ∷ [])) + length xs}
              (omega (arith, ap length e, length-append w.written (x ∷ [])));
    }
      where
        before_it :
            window (set rb.buffer w.slot x) rb.capacity rb.head (length w.written) ≡ w.written
        before_it =
            ap (λ j. window (set rb.buffer j x) rb.capacity rb.head (length w.written)) p.here
            ∙ window-set_outside rb.buffer rb.capacity x (rb.head + length w.written) rb.head
                (length w.written) (omega arith) (omega (arith, room_left))
            ∙ p.stored

        it : slot (set rb.buffer w.slot x) rb.capacity (rb.head + length w.written) ≡ x
        it =
            ap (λ j. slot (set rb.buffer j x) rb.capacity (rb.head + length w.written)) p.here
            ∙ slot-set rb.buffer rb.capacity x (rb.head + length w.written) (
                omega (
                  arith,
                  v.sized,
                  v.head_in,
                  mod-lt (rb.head + length w.written) {m = rb.capacity},
                ))

  module _ (e : w.left ≡ []) (d : ℕ) (word : d < u64_mod) where
    pub publish-IsValid : IsValid (record rb { head = w.next_head; dropped = d })
    publish-IsValid = record {
      power = v.power;
      masked = v.masked;
      sized = v.sized;
      head_in = omega (
        arith,
        p.lands,
        v.head_in,
        mod-lt (rb.head + (length w.written + length w.left)) {m = rb.capacity},
      );
      tail_in = v.tail_in;
      dropped_in = word;
    }

    pub count-publish :
        count (record rb { head = w.next_head; dropped = d }) ≡ count rb + length w.written
    count-publish =
        count_unique publish-IsValid (count rb + length w.written) (omega (arith, p.fits)) (
          p.lands
          ∙ ap (λ t. (rb.head + t) % rb.capacity) {x = length w.written + length w.left}
              {y = length w.written} (omega (arith, ap length e))
          ∙ sym p.here
          ∙ slot_past)

    pub contents-publish :
        contents (record rb { head = w.next_head; dropped = d }) ≡ contents rb ++ w.written
    contents-publish = rw count-publish (
        window-add rb.buffer rb.capacity rb.tail (count rb) (length w.written)
        ∙ ap (λ ws. contents rb ++ ws)
            (sym (window-mod rb.buffer rb.capacity (rb.tail + count rb) (length w.written))
              ∙ ap (λ k. window rb.buffer rb.capacity k (length w.written)) (sym (head-mod v))
              ∙ p.stored))

abbrev pub IsPush : Push → Type 0
IsPush (one x) = Unit {0}
IsPush (batch xs) = length xs < u32_mod

-- A push that begins either ends at once, counting what it drops, or has a write to make.
abbrev pub Begins : RingBuffer → Push → Type 0
Begins rb call =
    ((d : ℕ) × (d < u64_mod) × (begin_push rb call ≡ (resting, record rb { dropped = d })))
    ⊎ ((w : Write) × IsWriting rb w × (begin_push rb call ≡ (writing w, rb)))

module _ {rb : RingBuffer} (v : IsValid rb) where
  -- A write of samples that fit, of which none is written yet.
  fresh-IsWriting :
      (xs : List Sample) (next short : ℕ)
      → count rb + length xs < rb.capacity
      → next ≡ (rb.head + length xs) % rb.capacity
      → IsWriting rb
          (record { slot = rb.head; left = xs; written = []; next_head = next; short = short })
  fresh-IsWriting xs next short fits e = record {
    fits = omega (arith, fits);
    stored = refl;
    here = omega (
      arith,
      mod-eq_of_lt {n = rb.head} {m = rb.capacity} v.head_in,
      ap (λ t. t % rb.capacity) {x = rb.head + 0} {y = rb.head} (omega arith),
    );
    lands =
        e ∙ ap (λ t. (rb.head + t) % rb.capacity) {x = length xs} {y = 0 + length xs} (omega arith);
  }

  pub begin_push_lem : (call : Push) → IsPush call → Begins rb call
  unfolding begin_push
  begin_push_lem (one x) word = elim (Bool-cases (next_index rb rb.head == rb.tail)) [
    | inl full ↦ inl (add64 rb.dropped 1, omega arith, rw full)
    | inr room ↦ inr (
      record {
        slot = rb.head;
        left = x ∷ [];
        written = [];
        next_head = next_index rb rb.head;
        short = 0;
      },
      fresh-IsWriting (x ∷ []) (next_index rb rb.head) 0
          (ground (arith, count-lt v, (full-test v).1)) (next-mod v rb.head v.head_in),
      rw room,
    )
  ]
  begin_push_lem (batch xs) word = elim (Bool-cases (length xs == 0)) [
    | inl nil ↦ inl (rb.dropped, v.dropped_in, rw nil)
    | inr more ↦ elim (Bool-cases (to_push == 0)) [
      | inl full ↦ inl (add64 rb.dropped (length xs), omega arith, rw (more, full))
      | inr room ↦ inr (
        record {
          slot = rb.head;
          left = take to_push xs;
          written = [];
          next_head = bit_and (add32 rb.head to_push) rb.mask;
          short = if ltb to_push (length xs) then sub32 (length xs) to_push else 0;
        },
        fresh-IsWriting (take to_push xs) _ _ (omega (arith, bound, length-take to_push xs)) (
            advance-mod v rb.head to_push (length (take to_push xs)) v.head_in
              (omega (arith, bound)) (omega (arith, bound, length-take to_push xs))),
        rw (more, room),
      )
    ]
  ]
    where
      to_push : ℕ
      to_push = if ltb (length xs) (available rb) then length xs else available rb

      bound : (to_push ≤ length xs) × (count rb + to_push < rb.capacity)
      bound = ground (arith, available-eq v, count-lt v)
