-- ===== src/Block/Parse.antt =====
-- A reader of the blocks of include/adc_types.h, for the receiving end.
use fast_ring.Prelude.{
  ℕ, zero, suc, ◌+◌, ◌*◌, ◌<◌, ◌≡◌, refl, ap, ap₂, ◌∙◌, arith, List, [], ◌∷◌, ◌++◌, length, take,
  drop, u16_mod, u32_mod, u64_mod,
}
use fast_ring.Types.{Sample}
use fast_ring.Block.{DataBlock, bytes_of, sample_bytes, samples_bytes, block_bytes}

-- The number whose bytes are given, lowest first.
pub number_of : List ℕ → ℕ
number_of [] = 0
number_of (b ∷ bs) = b + 256 * number_of bs

abbrev pub field : ℕ → ℕ → List ℕ → ℕ
field start size bs = number_of (take size (drop start bs))

abbrev pub read_sample : List ℕ → Sample
read_sample bs = record {
  timestamp = field 0 4 bs;
  value = field 4 4 bs;
  sequence = field 8 4 bs;
  channel = field 12 2 bs;
  flags = field 14 2 bs;
}

pub read_samples : ℕ → List ℕ → List Sample
read_samples zero bs = []
read_samples (suc n) bs = read_sample bs ∷ read_samples n (drop 16 bs)

pub read_block : List ℕ → DataBlock
read_block bs = record {
  magic = field 0 4 bs;
  version = field 4 4 bs;
  sequence = field 8 4 bs;
  sample_count = field 12 4 bs;
  timestamp = field 16 8 bs;
  samples = read_samples (field 12 4 bs) (drop 24 bs);
}

-- Each field fits its width.
pub record IsStorable (s : Sample) : Type 0 where
  pub timestamp_fits : s.timestamp < u32_mod
  pub value_fits : s.value < u32_mod
  pub sequence_fits : s.sequence < u32_mod
  pub channel_fits : s.channel < u16_mod
  pub flags_fit : s.flags < u16_mod

abbrev pub AreStorable : List Sample → Type 0
AreStorable [] = Unit {0}
AreStorable (s ∷ rest) = IsStorable s × AreStorable rest

pub record IsWhole (b : DataBlock) : Type 0 where
  pub magic_fits : b.magic < u32_mod
  pub version_fits : b.version < u32_mod
  pub sequence_fits : b.sequence < u32_mod
  pub count_fits : b.sample_count < u32_mod
  pub timestamp_fits : b.timestamp < u64_mod
  pub counted : b.sample_count ≡ length b.samples
  pub stored : AreStorable b.samples

number_of-two : (x : ℕ) → x < u16_mod → number_of (bytes_of 2 x) ≡ x
unfolding number_of bytes_of
number_of-two x h = omega (arith, h)

number_of-four : (x : ℕ) → x < u32_mod → number_of (bytes_of 4 x) ≡ x
unfolding number_of bytes_of
number_of-four x h = omega (arith, h)

number_of-eight : (x : ℕ) → x < u64_mod → number_of (bytes_of 8 x) ≡ x
unfolding number_of bytes_of
number_of-eight x h = omega (arith, h)

read_sample-sample_bytes :
    (s : Sample) (rest : List ℕ) → IsStorable s → read_sample (sample_bytes s ++ rest) ≡ s
unfolding sample_bytes bytes_of
read_sample-sample_bytes s rest f = λ i. record {
  timestamp = number_of-four s.timestamp f.timestamp_fits i;
  value = number_of-four s.value f.value_fits i;
  sequence = number_of-four s.sequence f.sequence_fits i;
  channel = number_of-two s.channel f.channel_fits i;
  flags = number_of-two s.flags f.flags_fit i;
}

drop-sample_bytes : (s : Sample) (rest : List ℕ) → drop 16 (sample_bytes s ++ rest) ≡ rest
unfolding sample_bytes bytes_of
drop-sample_bytes s rest = refl

read_samples-samples_bytes :
    (xs : List Sample) → AreStorable xs → read_samples (length xs) (samples_bytes xs) ≡ xs
unfolding read_samples samples_bytes
read_samples-samples_bytes [] f = refl
read_samples-samples_bytes (s ∷ xs) f =
    ap₂ ◌∷◌ (read_sample-sample_bytes s (samples_bytes xs) f.0) (
      ap (read_samples (length xs)) (drop-sample_bytes s (samples_bytes xs))
      ∙ read_samples-samples_bytes xs f.1)

-- The bytes of a block that has as many samples as it says, its numbers in range, determine it: a
-- little-endian reader of the fields in their places gives it back.
pub read_block-block_bytes : (b : DataBlock) → IsWhole b → read_block (block_bytes b) ≡ b
unfolding read_block block_bytes bytes_of
read_block-block_bytes b w = λ i. record {
  magic = number_of-four b.magic w.magic_fits i;
  version = number_of-four b.version w.version_fits i;
  sequence = number_of-four b.sequence w.sequence_fits i;
  sample_count = number_of-four b.sample_count w.count_fits i;
  timestamp = number_of-eight b.timestamp w.timestamp_fits i;
  samples =
      (ap (λ n. read_samples n (samples_bytes b.samples))
            (number_of-four b.sample_count w.count_fits ∙ w.counted)
          ∙ read_samples-samples_bytes b.samples w.stored)
        i;
}
