-- ===== src/Ring/Concurrent/Pulls.antt =====
-- The steps of the consumer of `Ring.Concurrent`, on the buffer.
use native.Mathlib.Nat.{mod-eq_of_lt, mod-lt}
use fast_ring.Prelude.{
  ℕ, suc, ◌+◌, ◌%◌, ◌⊎◌, ◌≤◌, ◌≡◌, refl, ap, ap₂, sym, ◌∙◌, arith, List, [], ◌∷◌, length, ◌++◌,
  ◌==◌, if◌then◌else◌, length-append, Bool-cases, inl, inr, bit_and, add32, ltb, take-drop_join,
}
use fast_ring.Types.{Sample}
use fast_ring.Ring.{RingBuffer, count, next_index, read_chunk}
use fast_ring.Ring.Inv.{IsValid, count-lt, empty-test, next-mod, advance-mod}
use fast_ring.Ring.Window.{window, contents, slot, window-snoc, window-mod, take-window}
use fast_ring.Ring.Transfer.{withdraw, withdraw-IsValid, count-withdraw, contents-withdraw}
use fast_ring.Ring.Chunks.{read_chunk-window}
use fast_ring.Ring.Concurrent.{
  Pull, single, up_to, Write, Read, waiting, reading, following, begin_pop,
}
use fast_ring.Ring.Concurrent.Invariant.{IsWriting, IsReading, following-mod}

-- A new tail leaves a write as it is, if no more samples are held.
pub IsWriting-shrink :
    {rb : RingBuffer} {w : Write} (t : ℕ)
    → count (record rb { tail = t }) ≤ count rb
    → IsWriting rb w
    → IsWriting (record rb { tail = t }) w
IsWriting-shrink t less p = record {
  fits = omega (arith, p.fits);
  stored = p.stored;
  here = p.here;
  lands = p.lands;
}

module _ {rb : RingBuffer} (v : IsValid rb) {r : Read} (g : IsReading rb r) where
  pub read-IsReading :
      (n : ℕ)
      → r.left ≡ suc n
      → IsReading rb (record r {
        slot = following rb r.slot;
        left = n;
        copied = r.copied ++ read_chunk rb.buffer r.slot 1;
      })
  read-IsReading n e = record {
    held = omega (arith, g.held, longer);
    same =
        ap (window rb.buffer rb.capacity rb.tail) {x = length more} {y = suc (length r.copied)}
          longer
        ∙ window-snoc rb.buffer rb.capacity rb.tail (length r.copied)
        ∙ ap₂ ◌++◌ g.same (sym it);
    here =
        following-mod r.slot (rb.tail + length r.copied) v g.here
        ∙ ap (λ t. t % rb.capacity) {x = rb.tail + length r.copied + 1} {y = rb.tail + length more}
            (omega (arith, longer));
    lands =
        g.lands
        ∙ ap (λ t. (rb.tail + t) % rb.capacity) {x = length r.copied + r.left} {y = length more + n}
            (omega (arith, longer));
  }
    where
      more : List Sample
      more = r.copied ++ read_chunk rb.buffer r.slot 1

      it :
          read_chunk rb.buffer r.slot 1
          ≡ slot rb.buffer rb.capacity (rb.tail + length r.copied) ∷ []
      it =
          ap (λ k. read_chunk rb.buffer k 1) g.here
          ∙ read_chunk-window rb.buffer rb.capacity ((rb.tail + length r.copied) % rb.capacity) 1
              v.sized
              (omega (arith, v.head_in, mod-lt (rb.tail + length r.copied) {m = rb.capacity}))
          ∙ window-mod rb.buffer rb.capacity (rb.tail + length r.copied) 1

      longer : length more ≡ suc (length r.copied)
      longer = omega (arith, length-append r.copied (read_chunk rb.buffer r.slot 1), ap length it)

  module _ (e : r.left ≡ 0) where
    -- The tail that is stored gives up the samples copied.
    stored_tail :
        ◌≡◌ {A = RingBuffer} (record rb { tail = r.next_tail }) (withdraw rb (length r.copied))
    stored_tail = λ i. record rb { tail = moved i }
      where
        moved : r.next_tail ≡ (rb.tail + length r.copied) % rb.capacity
        moved =
            g.lands
            ∙ ap (λ t. (rb.tail + t) % rb.capacity) {x = length r.copied + r.left}
                {y = length r.copied} (omega arith)

    held_still : length r.copied ≤ count rb
    held_still = omega (arith, g.held)

    pub release-IsValid : IsValid (record rb { tail = r.next_tail })
    release-IsValid = rw stored_tail (withdraw-IsValid v (length r.copied) held_still)

    pub count-release : count (record rb { tail = r.next_tail }) ≤ count rb
    count-release =
        omega (arith, ap count stored_tail, count-withdraw v (length r.copied) held_still)

    -- What is held is what was copied, and what is held afterwards.
    pub contents-release : contents rb ≡ r.copied ++ contents (record rb { tail = r.next_tail })
    contents-release =
        sym (take-drop_join (length r.copied) (contents rb))
        ∙ ap₂ ◌++◌
            (take-window rb.buffer rb.capacity rb.tail (length r.copied) (count rb) held_still
              ∙ g.same)
            (sym (contents-withdraw v (length r.copied) held_still) ∙ ap contents (sym stored_tail))

-- A pop that begins either ends at once, or has a read to make.
abbrev pub Begins : RingBuffer → Pull → Type 0
Begins rb call =
    (begin_pop rb call ≡ waiting) ⊎ ((r : Read) × IsReading rb r × (begin_pop rb call ≡ reading r))

module _ {rb : RingBuffer} (v : IsValid rb) where
  -- A read of samples that are held, of which none is copied yet.
  fresh-IsReading :
      (n next : ℕ)
      → n ≤ count rb
      → next ≡ (rb.tail + n) % rb.capacity
      → IsReading rb (record { slot = rb.tail; left = n; copied = []; next_tail = next })
  fresh-IsReading n next held e = record {
    held = omega (arith, held);
    same = refl;
    here = omega (
      arith,
      mod-eq_of_lt {n = rb.tail} {m = rb.capacity} v.tail_in,
      ap (λ t. t % rb.capacity) {x = rb.tail + 0} {y = rb.tail} (omega arith),
    );
    lands = e ∙ ap (λ t. (rb.tail + t) % rb.capacity) {x = n} {y = 0 + n} (omega arith);
  }

  pub begin_pop_lem : (call : Pull) → Begins rb call
  unfolding begin_pop
  begin_pop_lem single = elim (Bool-cases (rb.head == rb.tail)) [
    | inl empty ↦ inl (rw empty)
    | inr held ↦ inr (
      record { slot = rb.tail; left = 1; copied = []; next_tail = next_index rb rb.tail },
      fresh-IsReading 1 (next_index rb rb.tail) (ground (arith, (empty-test v).1))
          (next-mod v rb.tail v.tail_in),
      rw held,
    )
  ]
  begin_pop_lem (up_to n) = elim (Bool-cases (n == 0)) [
    | inl nil ↦ inl (rw nil)
    | inr more ↦ elim (Bool-cases (to_pop == 0)) [
      | inl empty ↦ inl (rw (more, empty))
      | inr held ↦ inr (
        record {
          slot = rb.tail;
          left = to_pop;
          copied = [];
          next_tail = bit_and (add32 rb.tail to_pop) rb.mask;
        },
        fresh-IsReading to_pop _ bound
            (advance-mod v rb.tail to_pop to_pop v.tail_in (omega (arith, bound, count-lt v)) refl),
        rw (more, held),
      )
    ]
  ]
    where
      to_pop : ℕ
      to_pop = if ltb n (count rb) then n else count rb

      bound : to_pop ≤ count rb
      bound = ground arith
