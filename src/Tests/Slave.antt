-- ===== src/Tests/Slave.antt =====
-- A line with a device whose registers all hold 1: it answers every request within a tick.
use daikin_d3net.Base.{ℕ, zero, suc, ◌+◌, ◌*◌, ◌%◌, ◌≤◌, ◌<◌, ◌≡◌, refl, ap, ap₂, ◌∙◌, arith}
use daikin_d3net.Base.{List, [], ◌∷◌, ◌++◌, length, get_or, take, replicate, ◌==◌}
use daikin_d3net.Base.{length-replicate, if◌then◌else◌}
use daikin_d3net.Base.Int.{pos}
use daikin_d3net.Codec.{Words}
use daikin_d3net.Gateway.Bus.{RegType}
use daikin_d3net.Modbus.Uart.{Uart}
use daikin_d3net.Modbus.CrcLaws.{IsBytes}
use daikin_d3net.Modbus.Frame.{
  with_crc, word_bytes, low_byte, high_byte, read_request, write_request,
}
use daikin_d3net.Modbus.FrameLaws.{Are16, answer_frame}
use daikin_d3net.Modbus.WriteLaws.{acknowledgement}
use daikin_d3net.Modbus.Master.{set_rx, set_tx}
use daikin_d3net.Modbus.Slave.{Slave}
use daikin_d3net.Tests.Line.{
  Line, uart, context, some_bytes, after_bytes, chunk, chunk-le, length-some_bytes, some_bytes-byte,
}

abbrev pub ones : ℕ → Words
ones count = replicate count 1

-- What the device answers to a request, by the byte of the function.
unfoldable pub reply_to : List ℕ → List ℕ
unfolding answer_frame with_crc
reply_to tx =
    let words = ones (get_or tx 4 0 * 256 + get_or tx 5 0) in
    if get_or tx 1 0 == 16
    then with_crc (take 6 tx)
    else if get_or tx 1 0 == 3
    then answer_frame (get_or tx 0 0) RegType.holding words
    else answer_frame (get_or tx 0 0) RegType.input words

abbrev pub prompt : Uart
prompt = record {
  World = uart.World;
  driver_install = uart.driver_install;
  param_config = uart.param_config;
  set_pin = uart.set_pin;
  reset_pin = uart.reset_pin;
  set_output = uart.set_output;
  flush_input = uart.flush_input;
  write_bytes = λ w port bytes. (pos (length bytes), record w { incoming = reply_to bytes });
  wait_tx_done = uart.wait_tx_done;
  tick_count = uart.tick_count;
  read_bytes = λ w port most ticks. (
    some_bytes (chunk most) w.incoming,
    record w { incoming = after_bytes (chunk most) w.incoming },
  );
  set_level = uart.set_level;
  ms_to_ticks = uart.ms_to_ticks;
  length-read_bytes =
      λ w port most ticks. omega (arith, length-some_bytes (chunk most) w.incoming, chunk-le most);
  read_bytes-byte = λ w port most ticks. some_bytes-byte (chunk most) w.incoming;
}

pub record IsComing (w : Line) (deadline : ℕ) (bytes : List ℕ) : Type 0 where
  pub incoming : w.incoming ≡ bytes
  pub small : IsBytes bytes
  pub early : w.ticks < deadline
  pub recent : w.ticks < 1000

some-after : (n : ℕ) (xs : List ℕ) → IsBytes xs → some_bytes n xs ++ after_bytes n xs ≡ xs
some-after zero xs v = refl
some-after (suc n) [] v = refl
some-after (suc n) (x ∷ xs) v =
    let same : x % 256 ≡ x = omega (arith, v.0) in ap₂ (λ y ys. y ∷ ys) same (some-after n xs v.1)

after-IsBytes : (n : ℕ) (xs : List ℕ) → IsBytes xs → IsBytes (after_bytes n xs)
after-IsBytes zero xs v = v
after-IsBytes (suc n) [] v = tt
after-IsBytes (suc n) (x ∷ xs) v = after-IsBytes n xs v.1

some_bytes-some :
    (most : ℕ) (xs : List ℕ) → 0 < most → 0 < length xs → 0 < length (some_bytes (chunk most) xs)
some_bytes-some zero xs h l = absurd (omega arith)
some_bytes-some (suc most) [] h l = absurd (omega arith)
some_bytes-some (suc zero) (x ∷ xs) h l = omega arith
some_bytes-some (suc (suc zero)) (x ∷ xs) h l = omega arith
some_bytes-some (suc (suc (suc most))) (x ∷ xs) h l = omega arith

pub ones-Are16 : (n : ℕ) → Are16 (ones n)
ones-Are16 zero = tt
ones-Are16 (suc n) = (omega arith, ones-Are16 n)

words-IsBytes : (n : ℕ) (a b : ℕ) → IsBytes (word_bytes (ones n) ++ low_byte a ∷ high_byte b ∷ [])
unfolding word_bytes
words-IsBytes zero a b = omega arith
words-IsBytes (suc n) a b = (omega arith, (omega arith, words-IsBytes n a b))

pub frame-IsBytes : (ty : RegType) (n : ℕ) → IsBytes (answer_frame 1 ty (ones n))
unfolding answer_frame with_crc
frame-IsBytes RegType.input n = (omega arith, (omega arith, (omega arith, words-IsBytes n _ _)))
frame-IsBytes RegType.holding n = (omega arith, (omega arith, (omega arith, words-IsBytes n _ _)))

pub acknowledgement-IsBytes : (address count : ℕ) → IsBytes (acknowledgement 1 address count)
unfolding acknowledgement with_crc
acknowledgement-IsBytes address count = omega arith

pub replied_read :
    (ty : RegType) (address count : ℕ)
    → count ≤ 125
    → reply_to (read_request 1 ty address count) ≡ answer_frame 1 ty (ones count)
unfolding reply_to read_request with_crc
replied_read RegType.input address count h =
    let same : high_byte count * 256 + low_byte count ≡ count = omega arith in
    ap (λ n. answer_frame 1 RegType.input (ones n)) same
replied_read RegType.holding address count h =
    let same : high_byte count * 256 + low_byte count ≡ count = omega arith in
    ap (λ n. answer_frame 1 RegType.holding (ones n)) same

pub replied_write :
    (address count : ℕ) (words : Words)
    → reply_to (write_request 1 address count words) ≡ acknowledgement 1 address count
unfolding reply_to write_request acknowledgement with_crc
replied_write address count words = refl

pub arriving :
    (w : Line) (deadline most : ℕ) (bytes : List ℕ)
    → IsComing w deadline bytes
    → 0 < most
    → 0 < length bytes
    → let got = some_bytes (chunk most) w.incoming in
      (w.ticks < deadline)
      × (0 < length got)
      × ((rest : List ℕ) × (got ++ rest ≡ bytes)
          × IsComing (record w { incoming = after_bytes (chunk most) w.incoming }) deadline rest)
arriving w deadline most bytes a some more =
    let all : IsBytes w.incoming = rw a.incoming a.small in
    (
      a.early,
      some_bytes-some most w.incoming some (rw a.incoming more),
      (
        after_bytes (chunk most) w.incoming,
        some-after (chunk most) w.incoming all ∙ a.incoming,
        record {
          incoming = refl;
          small = after-IsBytes (chunk most) w.incoming all;
          early = a.early;
          recent = a.recent;
        },
      ),
    )

unfoldable pub slave : Slave prompt context
unfolding set_rx set_tx
slave = record {
  Up = λ w. w.ticks < 1000;
  regs = λ w ty address count. ones count;
  Arrives = IsComing;
  length-regs = λ w ty address count. length-replicate count 1;
  regs-Are16 = λ w ty address count. ones-Are16 count;
  takes = λ w tx v. refl;
  sends = λ w tx v. refl;
  answers_read = λ w ty address count v some few. record {
    incoming = replied_read ty address count few;
    small = frame-IsBytes ty count;
    early = omega arith;
    recent = v;
  };
  answers_write = λ w address count words v some few whole. record {
    incoming = replied_write address count words;
    small = acknowledgement-IsBytes address count;
    early = omega arith;
    recent = v;
  };
  arrives = arriving;
  settled = λ w deadline a. a.recent;
}
