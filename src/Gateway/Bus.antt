-- ===== src/Gateway/Bus.antt =====
-- What the gateway needs of the bus, of the clock and of the scheduler: the function pointers
-- `read_fn` and `write_fn`, `vTaskDelay` and `esp_timer_get_time`.
use daikin_d3net.Base.{ℕ, ◌≡◌, ◌≢◌}
use daikin_d3net.Esp.{Err, ok}
use daikin_d3net.Codec.{Words}
use daikin_d3net.Codec.View.{IsWords}

-- `d3net_reg_type_t`
pub data RegType : Type 0 where
  input holding : RegType

pub record Transport : Type 1 where
  pub World : Type 0
  -- The result and the buffer after the call, from the buffer before it.
  pub read_fn : World → RegType → ℕ → ℕ → Words → Err × Words × World
  pub write_fn : World → ℕ → ℕ → Words → Err × World
  -- `vTaskDelay(pdMS_TO_TICKS(ms))`
  pub delay : World → ℕ → World
  -- `esp_timer_get_time()`, in microseconds.
  pub time_us : World → ℕ
  -- A read fills a buffer of `count` words with `count` words, and leaves it alone if it fails.
  pub read-IsWords :
      (w : World) (ty : RegType) (address count : ℕ) (buffer : Words)
      → IsWords count buffer
      → IsWords count (read_fn w ty address count buffer).1
  pub read_failed :
      (w : World) (ty : RegType) (address count : ℕ) (buffer : Words)
      → (read_fn w ty address count buffer).0 ≢ ok
      → (read_fn w ty address count buffer).1 ≡ buffer
