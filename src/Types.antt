-- ===== src/Types.antt =====
-- include/adc_types.h: the error codes, the sample and the constants that the parts share.
use fast_ring.Prelude.{ℕ}

-- `adc_error_t`
pub data AdcError : Type 0 where
  ok error_init error_buffer error_network error_thread error_timeout error_invalid_param : AdcError

-- `adc_sample_t`; `value` is the bit pattern of an `int32_t`.
pub record Sample : Type 0 where
  pub timestamp : ℕ
  pub value : ℕ
  pub sequence : ℕ
  pub channel : ℕ
  pub flags : ℕ

-- `sizeof(adc_sample_t)`: three words of four bytes and two of two.
abbrev pub sample_size : ℕ
sample_size = 16

abbrev pub ring_buffer_size : ℕ
ring_buffer_size = 16384
