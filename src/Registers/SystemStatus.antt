-- ===== src/Registers/SystemStatus.antt =====
-- The status block of the adapter (`d3net_system_status_t`, nine words).
use daikin_d3net.Base.{ℕ, ◌+◌, ◌%◌, ◌^◌, Bool, false, leb, if◌then◌else◌}
use daikin_d3net.Codec.{Words, bit_get}

abbrev pub address : ℕ
address = 0

abbrev pub count : ℕ
count = 9

-- `d3net_system_initialized`
unfoldable pub initialized : Words → Bool
unfolding bit_get
initialized s = bit_get s count 0

-- `d3net_system_other_device_exists`
unfoldable pub other_device_exists : Words → Bool
unfolding bit_get
other_device_exists s = bit_get s count 1

-- `d3net_system_unit_connected`
unfoldable pub unit_connected : Words → ℕ → Bool
unfolding bit_get
unit_connected s unit_index =
    if leb 64 unit_index then false else bit_get s count ((16 + unit_index) % 2 ^ 16)

-- `d3net_system_unit_error`
unfoldable pub unit_error : Words → ℕ → Bool
unfolding bit_get
unit_error s unit_index =
    if leb 64 unit_index then false else bit_get s count ((80 + unit_index) % 2 ^ 16)
