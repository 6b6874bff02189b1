-- ===== src/Esp.antt =====
-- `esp_err_t`, the result code of the functions of the firmware and of the drivers.
use daikin_d3net.Base.{ℕ, ◌≡◌, arith, Bool, true, false, ◌==◌, if◌then◌else◌, Bool-cases, inl, inr}

pub data Err : Type 0 where
  ok fail no_mem invalid_arg invalid_state invalid_size not_found timeout invalid_crc : Err
  other : ℕ → Err

-- `err == ESP_OK`
abbrev pub is_ok : Err → Bool
is_ok ok = true
is_ok e = false

pub is_ok-eq : (e : Err) → is_ok e ≡ true → e ≡ ok
is_ok-eq e h = ground arith

-- `err == ESP_ERR_INVALID_STATE`
abbrev pub is_invalid_state : Err → Bool
is_invalid_state invalid_state = true
is_invalid_state e = false

-- `ESP_ERR_NVS_NOT_FOUND`, and the test for it.
abbrev pub nvs_not_found : Err
nvs_not_found = other 0x1102

abbrev pub is_nvs_not_found : Err → Bool
is_nvs_not_found (other n) = n == 0x1102
is_nvs_not_found e = false

-- `if (err == ESP_OK) err = k;`, and `if (err != ESP_OK) return err; k`.
infixl 5 ◌>>?◌
abbrev pub ◌>>?◌ : {World : Type 0} → Err × World → (World → Err × World) → Err × World
r >>? k = if is_ok r.0 then k r.1 else r

-- A chain that succeeds has run its last step.
pub >>?-ok :
    {World : Type 0} (r : Err × World) (k : World → Err × World)
    → (r >>? k).0 ≡ ok
    → (r.0 ≡ ok) × ((k r.1).0 ≡ ok) × ((r >>? k).1 ≡ (k r.1).1)
>>?-ok r k e = elim (Bool-cases (is_ok r.0)) [
  | inl y ↦ (is_ok-eq r.0 y, rw y at e, rw y)
  | inr n ↦ cc (rw n at e, n)
]
