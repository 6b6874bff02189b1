-- ===== src/Tests/Line.antt =====
-- A line with a device that answers in one way, three bytes at a time.
use daikin_d3net.Base.{ℕ, zero, suc, ◌%◌, ◌≤◌, ◌<◌, arith}
use daikin_d3net.Base.{true, List, [], ◌∷◌, length, All}
use daikin_d3net.Base.Int.{pos, negsuc}
use daikin_d3net.Esp.{ok}
use daikin_d3net.Modbus.Uart.{Uart}
use daikin_d3net.Modbus.Master.{RtuContext}

-- What the device answers, what has come in, and the ticks.
pub record Line : Type 0 where
  pub reply : List ℕ
  pub incoming : List ℕ
  pub ticks : ℕ

abbrev pub some_bytes : ℕ → List ℕ → List ℕ
some_bytes zero xs = []
some_bytes (suc most) [] = []
some_bytes (suc most) (x ∷ xs) = x % 256 ∷ some_bytes most xs

abbrev pub after_bytes : ℕ → List ℕ → List ℕ
after_bytes zero xs = xs
after_bytes (suc most) [] = []
after_bytes (suc most) (x ∷ xs) = after_bytes most xs

pub length-some_bytes : (most : ℕ) (xs : List ℕ) → length (some_bytes most xs) ≤ most
length-some_bytes zero xs = omega arith
length-some_bytes (suc most) [] = omega arith
length-some_bytes (suc most) (x ∷ xs) = omega (arith, length-some_bytes most xs)

pub some_bytes-byte : (most : ℕ) (xs : List ℕ) → All (λ x. x < 256) (some_bytes most xs)
some_bytes-byte zero xs = tt
some_bytes-byte (suc most) [] = tt
some_bytes-byte (suc most) (x ∷ xs) = (omega arith, some_bytes-byte most xs)

-- At most three bytes come at a time.
abbrev pub chunk : ℕ → ℕ
chunk zero = 0
chunk (suc zero) = 1
chunk (suc (suc zero)) = 2
chunk (suc (suc (suc most))) = 3

pub chunk-le : (most : ℕ) → chunk most ≤ most
chunk-le zero = omega arith
chunk-le (suc zero) = omega arith
chunk-le (suc (suc zero)) = omega arith
chunk-le (suc (suc (suc most))) = omega arith

abbrev pub uart : Uart
uart = record {
  World = Line;
  driver_install = λ w port size. (ok, w);
  param_config = λ w port settings. (ok, w);
  set_pin = λ w port tx rx. (ok, w);
  reset_pin = λ w pin. w;
  set_output = λ w pin. w;
  flush_input = λ w port. record w { incoming = [] };
  write_bytes = λ w port bytes. (pos (length bytes), record w { incoming = w.reply });
  wait_tx_done = λ w port ticks. (ok, w);
  tick_count = λ w. w.ticks;
  read_bytes = λ w port most ticks. (
    some_bytes (chunk most) w.incoming,
    record w { incoming = after_bytes (chunk most) w.incoming; ticks = suc w.ticks },
  );
  set_level = λ w pin level. w;
  ms_to_ticks = λ ms. ms;
  length-read_bytes =
      λ w port most ticks. omega (arith, length-some_bytes (chunk most) w.incoming, chunk-le most);
  read_bytes-byte = λ w port most ticks. some_bytes-byte (chunk most) w.incoming;
}

abbrev pub context : RtuContext
context = record {
  cfg = record {
    uart_num = pos 1;
    tx_pin = pos 17;
    rx_pin = pos 18;
    de_pin = negsuc 0;
    re_pin = negsuc 0;
    baud_rate = 19200;
    data_bits = 8;
    stop_bits = 2;
    parity = 78;
    slave_id = 1;
    timeout_ms = 1000;
  };
  initialized = true;
}

abbrev pub line : Line
line = record { reply = 1 ∷ 3 ∷ 2 ∷ 0 ∷ 5 ∷ 120 ∷ 71 ∷ []; incoming = 9 ∷ []; ticks = 100 }
