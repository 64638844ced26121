-- ===== src/Errors/Distinct.antt =====
-- The texts of src/utils/adc_error.c against each other.
use fast_ring.Prelude.{
  ◌≡◌, refl, sym, ap, ◌∙◌, Option, none, some, Text, codes, same_text, if◌then◌else◌,
}
use fast_ring.Types.{
  AdcError, ok, error_init, error_buffer, error_network, error_thread, error_timeout,
  error_invalid_param,
}
use fast_ring.Errors.{adc_error_string}

-- The code that a text tells.
unfoldable read_error : Text → Option AdcError
read_error t =
    if same_text t (codes "Success")
    then some ok
    else if same_text t (codes "Initialization error")
    then some error_init
    else if same_text t (codes "Buffer operation error")
    then some error_buffer
    else if same_text t (codes "Network operation error")
    then some error_network
    else if same_text t (codes "Thread operation error")
    then some error_thread
    else if same_text t (codes "Operation timeout")
    then some error_timeout
    else if same_text t (codes "Invalid parameter")
    then some error_invalid_param
    else none

read_error-adc_error_string : (e : Option AdcError) → read_error (adc_error_string e) ≡ e
unfolding read_error adc_error_string
read_error-adc_error_string (some ok) = refl
read_error-adc_error_string (some error_init) = refl
read_error-adc_error_string (some error_buffer) = refl
read_error-adc_error_string (some error_network) = refl
read_error-adc_error_string (some error_thread) = refl
read_error-adc_error_string (some error_timeout) = refl
read_error-adc_error_string (some error_invalid_param) = refl
read_error-adc_error_string none = refl

-- Each error code has a text of its own, and none has the text of the numbers that are no code.
pub adc_error_string_inj : (e f : Option AdcError) → adc_error_string e ≡ adc_error_string f → e ≡ f
adc_error_string_inj e f h =
    sym (read_error-adc_error_string e) ∙ ap read_error h ∙ read_error-adc_error_string f
