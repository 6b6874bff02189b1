-- ===== src/Config/Nvs.antt =====
-- The key-value store of ESP-IDF, as far as config_store.c calls it, and the bytes of C's structs.
use Prim.Native.String.{String}
use text.Mathlib.Text.{◌==◌}
use daikin_d3net.Base.{ℕ, ◌<◌, ◌≡◌, Bool, false, List, length, Option, some, if◌then◌else◌}
use daikin_d3net.Esp.{Err, ok}

-- The functions on the namespace "d3net", which is opened by one caller at a time.
pub record Nvs : Type 1 where
  pub World : Type 0
  -- `nvs_open`, for writing too or for reading.
  pub nvs_open : World → Bool → Err × World
  -- `nvs_close`
  pub nvs_close : World → World
  -- `nvs_get_str` into a buffer of so many characters: the result and the buffer's text after it,
  -- from the one before.
  pub get_str : World → String → ℕ → List ℕ → Err × List ℕ
  -- `nvs_get_u64`
  pub get_u64 : World → String → Err × ℕ
  -- `nvs_get_blob` into a buffer of so many bytes: the result, the bytes and their number.
  pub get_blob : World → String → ℕ → Err × List ℕ × ℕ
  -- `nvs_set_str`, `nvs_set_u64`, `nvs_set_blob` and `nvs_commit`
  pub set_str : World → String → List ℕ → Err × World
  pub set_u64 : World → String → ℕ → Err × World
  pub set_blob : World → String → List ℕ → Err × World
  pub commit : World → Err × World

-- An object of type `A` as the bytes of memory it takes, for the objects that C can hold.
pub record Struct (A : Type 0) : Type 1 where
  -- `sizeof`
  pub size : ℕ
  pub bytes : A → List ℕ
  pub of_bytes : List ℕ → A
  pub Fits : A → Type 0
  pub length-bytes : (a : A) → Fits a → length (bytes a) ≡ size
  pub of_bytes-bytes : (a : A) → Fits a → of_bytes (bytes a) ≡ a

pub data Entry : Type 0 where
  stored_text : List ℕ → Entry
  stored_number : ℕ → Entry
  stored_blob : List ℕ → Entry

-- A store that keeps what was written to it: each setter that returns ESP_OK gives its key that
-- value and leaves the other keys alone, and a getter of the right kind, with room enough, returns
-- it. A namespace can be opened for reading once it was committed.
pub record Flash (nvs : Nvs) : Type 1 where
  pub entry : nvs.World → String → Option Entry
  pub open_keeps :
      (w : nvs.World) (b : Bool) (k : String) → entry (nvs.nvs_open w b).1 k ≡ entry w k
  pub close_keeps : (w : nvs.World) (k : String) → entry (nvs.nvs_close w) k ≡ entry w k
  pub commit_keeps : (w : nvs.World) (k : String) → entry (nvs.commit w).1 k ≡ entry w k
  pub commit_ok :
      (w : nvs.World)
      → (nvs.commit w).0 ≡ ok
      → (nvs.nvs_open (nvs.nvs_close (nvs.commit w).1) false).0 ≡ ok
  pub set_str_ok :
      (w : nvs.World) (key : String) (v : List ℕ) (k : String)
      → (nvs.set_str w key v).0 ≡ ok
      → entry (nvs.set_str w key v).1 k ≡ (if key == k then some (stored_text v) else entry w k)
  pub set_u64_ok :
      (w : nvs.World) (key : String) (n : ℕ) (k : String)
      → (nvs.set_u64 w key n).0 ≡ ok
      → entry (nvs.set_u64 w key n).1 k ≡ (if key == k then some (stored_number n) else entry w k)
  pub set_blob_ok :
      (w : nvs.World) (key : String) (b : List ℕ) (k : String)
      → (nvs.set_blob w key b).0 ≡ ok
      → entry (nvs.set_blob w key b).1 k ≡ (if key == k then some (stored_blob b) else entry w k)
  pub get_str_ok :
      (w : nvs.World) (key : String) (size : ℕ) (old v : List ℕ)
      → entry w key ≡ some (stored_text v)
      → length v < size
      → nvs.get_str w key size old ≡ (ok, v)
  pub get_u64_ok :
      (w : nvs.World) (key : String) (n : ℕ)
      → entry w key ≡ some (stored_number n)
      → nvs.get_u64 w key ≡ (ok, n)
  pub get_blob_ok :
      (w : nvs.World) (key : String) (size : ℕ) (b : List ℕ)
      → entry w key ≡ some (stored_blob b)
      → length b ≡ size
      → nvs.get_blob w key size ≡ (ok, b, length b)
