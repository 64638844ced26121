-- ===== src/Config/Ranges.antt =====
-- Which configurations `config_validate` of src/utils/config.c accepts.
use native.Mathlib.Nat.{pow-le-pow_right}
use native.Mathlib.Decide.{dec_lt}
use fast_ring.Prelude.{ℕ, suc, ◌≤◌, ◌<◌, ◌≡◌, ◌↔◌, ◌*◌, ◌^◌, refl, arith, true, some}
use fast_ring.Memory.{Allocator}
use fast_ring.Ring.Inv.{IsPower}
use fast_ring.Ring.Create
use fast_ring.Ring.Create.{Handle}
use fast_ring.Ring.Create.Rounding.{IsRounding}
use fast_ring.Ring.Create.Blocks.{Makes, create-Makes}
use fast_ring.Config.{
  SystemConfig, config_get_default, config_validate, config_get_adc_default,
  config_get_buffer_default, config_get_network_default,
}

-- A power of two below the double of another is at most the other.
below_power : (r j : ℕ) → IsPower r → r < 2 ^ suc j → r ≤ 2 ^ j
below_power r j p h = elim (dec_lt j p.exponent) [
  | yes above ↦ absurd (
      omega
        (arith, p.value, pow-le-pow_right {n = 2} (omega arith) {i = suc j} {j = p.exponent} above))
  | no below ↦ omega (
    arith,
    p.value,
    pow-le-pow_right {n = 2} (omega arith) {i = p.exponent} {j = j} (omega arith),
  )
]

rounding_bound : (c r : ℕ) → IsRounding c r → 256 ≤ c → r < 2 * c
rounding_bound c r rounding low = ground (arith, rounding.tight)

-- The fields that are looked at lie in their ranges.
pub record IsInRange (config : SystemConfig) : Type 0 where
  pub rate : (1 ≤ config.adc.sample_rate) × (config.adc.sample_rate ≤ 1_000_000)
  pub bits : (1 ≤ config.adc.resolution) × (config.adc.resolution ≤ 32)
  pub slots : (256 ≤ config.buffer.ring_buffer_size) × (config.buffer.ring_buffer_size ≤ 2 ^ 20)
  pub port : 1 ≤ config.network.server_port

-- `config_validate` accepts a configuration exactly if the fields it looks at are in range.
config_validate_lem :
    (config : SystemConfig) → (config_validate (some config) ≡ true) ↔ IsInRange config
unfolding config_validate
config_validate_lem config = (
  λ e. record {
    rate = ground arith;
    bits = ground arith;
    slots = ground arith;
    port = ground arith;
  },
  λ h. ground (arith, h.rate, h.bits, h.slots, h.port),
)

-- What `config_get_default` writes, whatever stood there, `config_validate` accepts.
pub config_validate-config_get_default :
    (config : SystemConfig) → config_validate (config_get_default (some config)) ≡ true
unfolding config_validate config_get_default config_get_adc_default config_get_buffer_default
    config_get_network_default
config_validate-config_get_default config = refl

-- For a configuration that is accepted, `ring_buffer_create` of its buffer size returns, with 32
-- rounds allowed to its loop: the capacity is the least sufficient power of two, at most 2^20, and
-- either the buffer is made or no block is left.
pub create-config_validate :
    (a : Allocator) (fuel : ℕ) (h : a.Heap) (config : SystemConfig)
    → config_validate (some config) ≡ true
    → 32 ≤ fuel
    → (r : ℕ) × IsRounding config.buffer.ring_buffer_size r
      × (r ≤ 2 ^ 20)
      × (Create.create a fuel h config.buffer.ring_buffer_size ≡ some (Create.allocate a h r))
      × Makes r (a.live h) (a.live (Create.allocate a h r).1) (Create.allocate a h r).0
create-config_validate a fuel h config e enough =
    let range = (config_validate_lem config).0 e in
    let (r, rounding, made, makes) =
      create-Makes a fuel h config.buffer.ring_buffer_size (omega (arith, range.slots)) enough in
    (
      r,
      rounding,
      below_power r 20 rounding.power (
          omega (
            arith,
            rounding_bound config.buffer.ring_buffer_size r rounding range.slots.0,
            range.slots,
          )),
      made,
      makes,
    )
