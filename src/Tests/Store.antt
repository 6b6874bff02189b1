-- ===== src/Tests/Store.antt =====
-- A store that keeps what is written to it, and the structs that it is read into.
use Prim.Native.String.{String}
use text.Mathlib.Text.{◌==◌}
use daikin_d3net.Base.{ℕ, ◌+◌, ◌*◌, ◌/◌, ◌%◌, ◌<◌, ◌≡◌, refl, arith}
use daikin_d3net.Base.{
  List, [], ◌∷◌, Option, none, some, ltb, if◌then◌else◌, length, set, get_or, replicate,
}
use daikin_d3net.Base.{length-replicate}
use daikin_d3net.Base.Int.{ℤ, pos, negsuc}
use daikin_d3net.Base.Text.{codes}
use daikin_d3net.Esp.{Err, ok, fail}
use daikin_d3net.Modbus.Master.{RtuConfig}
use daikin_d3net.Config.{no_ids}
use daikin_d3net.Config.Nvs.{Nvs, Struct, Flash, Entry, stored_text, stored_number, stored_blob}

-- The store.
abbrev pub Entries : Type 0
Entries = String → Option Entry

abbrev write : Entries → String → Entry → Err × Entries
write w key e = (ok, λ k. if key == k then some e else w k)

abbrev text_of : ℕ → List ℕ → Option Entry → Err × List ℕ
text_of size old (some (stored_text v)) = if ltb (length v) size then (ok, v) else (fail, old)
text_of size old (some (stored_number n)) = (fail, old)
text_of size old (some (stored_blob b)) = (fail, old)
text_of size old none = (fail, old)

abbrev pub number_of : Option Entry → Err × ℕ
number_of (some (stored_number n)) = (ok, n)
number_of (some (stored_text v)) = (fail, 0)
number_of (some (stored_blob b)) = (fail, 0)
number_of none = (fail, 0)

abbrev blob_of : Option Entry → Err × List ℕ × ℕ
blob_of (some (stored_blob b)) = (ok, b, length b)
blob_of (some (stored_text v)) = (fail, [], 0)
blob_of (some (stored_number n)) = (fail, [], 0)
blob_of none = (fail, [], 0)

abbrev pub nvs : Nvs
nvs = record {
  World = Entries;
  nvs_open = λ w writing. (ok, w);
  nvs_close = λ w. w;
  get_str = λ w key size old. text_of size old (w key);
  get_u64 = λ w key. number_of (w key);
  get_blob = λ w key size. blob_of (w key);
  set_str = λ w key v. write w key (stored_text v);
  set_u64 = λ w key n. write w key (stored_number n);
  set_blob = λ w key b. write w key (stored_blob b);
  commit = λ w. (ok, w);
}

text_of-stored :
    (size : ℕ) (old v : List ℕ) (e : Option Entry)
    → e ≡ some (stored_text v)
    → length v < size
    → text_of size old e ≡ (ok, v)
text_of-stored size old v e same h = rw same (ground arith)

pub flash : Flash nvs
flash = record {
  entry = λ w k. w k;
  open_keeps = λ w b k. refl;
  close_keeps = λ w k. refl;
  commit_keeps = λ w k. refl;
  commit_ok = λ w e. refl;
  set_str_ok = λ w key v k e. refl;
  set_u64_ok = λ w key n k e. refl;
  set_blob_ok = λ w key b k e. refl;
  get_str_ok = λ w key size old v e h. text_of-stored size old v (w key) e h;
  get_u64_ok = λ w key n e. rw e refl;
  get_blob_ok = λ w key size b e h. rw e refl;
}

-- A registry with unit 2, as the struct of its bytes.
abbrev pub some_ids : List (List ℕ)
some_ids = set no_ids 2 (codes "1-02")

abbrev pub ids : Struct (List (List ℕ))
ids = record {
  size = 384;
  bytes = λ rows. replicate 384 0;
  of_bytes = λ bytes. some_ids;
  Fits = λ rows. rows ≡ some_ids;
  length-bytes = λ rows fits. length-replicate {A = ℕ} 384 0;
  of_bytes-bytes = λ rows fits. rw fits refl;
}

-- The settings of the line, one number for each.
abbrev code_of : ℤ → ℕ
code_of (pos n) = 2 * n
code_of (negsuc n) = 2 * n + 1

abbrev int_of : ℕ → ℤ
int_of n = if ltb (n % 2) 1 then pos (n / 2) else negsuc (n / 2)

int_of-code_of : (x : ℤ) → int_of (code_of x) ≡ x
int_of-code_of (pos n) = ground arith
int_of-code_of (negsuc n) = ground arith

abbrev settings_bytes : RtuConfig → List ℕ
settings_bytes c =
    code_of c.uart_num
    ∷ code_of c.tx_pin
    ∷ code_of c.rx_pin
    ∷ code_of c.de_pin
    ∷ code_of c.re_pin
    ∷ c.baud_rate
    ∷ c.data_bits
    ∷ c.stop_bits
    ∷ c.parity
    ∷ c.slave_id
    ∷ c.timeout_ms
    ∷ []

abbrev nth : List ℕ → ℕ → ℕ
nth bytes i = get_or bytes i 0

abbrev settings_of : List ℕ → RtuConfig
settings_of b = record {
  uart_num = int_of (nth b 0);
  tx_pin = int_of (nth b 1);
  rx_pin = int_of (nth b 2);
  de_pin = int_of (nth b 3);
  re_pin = int_of (nth b 4);
  baud_rate = nth b 5;
  data_bits = nth b 6;
  stop_bits = nth b 7;
  parity = nth b 8;
  slave_id = nth b 9;
  timeout_ms = nth b 10;
}

pub settings_back : (c : RtuConfig) → settings_of (settings_bytes c) ≡ c
settings_back c =
    rw
      (
        int_of-code_of c.uart_num,
        int_of-code_of c.tx_pin,
        int_of-code_of c.rx_pin,
        int_of-code_of c.de_pin,
        int_of-code_of c.re_pin,
      )
      refl

abbrev pub rtu : Struct RtuConfig
rtu = record {
  size = 11;
  bytes = settings_bytes;
  of_bytes = settings_of;
  Fits = λ c. Unit {0};
  length-bytes = λ c fits. refl;
  of_bytes-bytes = λ c fits. settings_back c;
}
