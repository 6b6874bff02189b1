-- ===== src/App/Server.antt =====
-- The HTTP server, cJSON, the scheduler and the over-the-air update, which the firmware takes from
-- ESP-IDF.
use Prim.Native.String.{String}
use daikin_d3net.Base.{ℕ, Bool, List, Option, length, ◌≤◌}
use daikin_d3net.Base.Int.{ℤ}
use daikin_d3net.Esp.{Err}
use daikin_d3net.App.Json.{Json}

-- What a handler reads of `httpd_req_t`: the length of the body, and the text of the key "since" of
-- the query, if the request has one that fits the buffer.
pub record Request : Type 0 where
  pub content_len : ℕ
  pub since : Option (List ℕ)

pub record Http (F : Type 0) : Type 1 where
  pub World : Type 0
  -- `httpd_start` with so many handlers and so much stack, and `httpd_register_uri_handler` of a
  -- path for POST, or else for GET
  pub start : World → ℕ → ℕ → Err × World
  pub register : World → String → Bool → Err × World
  -- `httpd_req_recv` of at most so many bytes: the bytes that came, none on an error.
  pub recv : World → ℕ → List ℕ × World
  pub recv-le : (w : World) (len : ℕ) → length (recv w len).0 ≤ len
  -- `httpd_resp_set_type` and a reply with that body
  pub send : World → String → List ℕ → Err × World
  -- `httpd_resp_send_err` with the number of the status
  pub send_err : World → ℕ → String → World
  -- Whether `calloc` gives so many bytes.
  pub calloc : World → ℕ → Bool
  -- An item of a tree that cJSON has read, `cJSON_ParseWithLength` and `cJSON_GetObjectItem`
  pub Item : Type 0
  pub parse : List ℕ → Option Item
  pub get_item : Item → String → Option Item
  -- `cJSON_IsNumber` and `cJSON_IsString` of an item that is not NULL
  pub is_number : Item → Bool
  pub is_string : Item → Bool
  pub valueint : Item → ℤ
  -- `valuestring`, of a string
  pub valuestring : Item → List ℕ
  -- `(float)valuedouble`, and `valuedouble > 0.5`
  pub float_value : Item → F
  pub above_half : Item → Bool
  -- `cJSON_PrintUnformatted`; none if it returns NULL
  pub print : Json F → Option (List ℕ)
  -- `strtoul(text, NULL, 10)`
  pub strtoul : List ℕ → ℕ
  -- `esp_err_to_name`, and the text of `%.1f`
  pub err_name : Err → List ℕ
  pub fixed_1 : F → List ℕ
  -- `xSemaphoreTake` of the lock of the gateway within so many milliseconds, and `xSemaphoreGive`
  pub take : World → ℕ → Bool × World
  pub give : World → World
  -- `vTaskDelay(pdMS_TO_TICKS(ms))` and `esp_restart`
  pub delay : World → ℕ → World
  pub restart : World → World
  -- `esp_ota_get_next_update_partition` and the functions on a handle
  pub next_update_partition : World → Option ℕ
  pub ota_begin : World → ℕ → Err × ℕ × World
  pub ota_write : World → ℕ → List ℕ → Err × World
  pub ota_abort : World → ℕ → World
  pub ota_end : World → ℕ → Err × World
  pub set_boot_partition : World → ℕ → Err × World
