-- ===== src/Errors.antt =====
-- src/utils/adc_error.c: the texts of the error codes.
pub mod Distinct
use fast_ring.Prelude.{Option, none, some, Text, codes}
use fast_ring.Types.{
  AdcError, ok, error_init, error_buffer, error_network, error_thread, error_timeout,
  error_invalid_param,
}

-- `adc_error_string`; `none` stands for the numbers that are no error code.
unfoldable pub adc_error_string : Option AdcError → Text
adc_error_string (some ok) = codes "Success"
adc_error_string (some error_init) = codes "Initialization error"
adc_error_string (some error_buffer) = codes "Buffer operation error"
adc_error_string (some error_network) = codes "Network operation error"
adc_error_string (some error_thread) = codes "Thread operation error"
adc_error_string (some error_timeout) = codes "Operation timeout"
adc_error_string (some error_invalid_param) = codes "Invalid parameter"
adc_error_string none = codes "Unknown error"
