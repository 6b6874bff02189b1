-- ===== src/Tests/BodyRuns.antt =====
-- The theorems on a body that comes whole, on the board; and a reader of its log.
use daikin_d3net.Base.{ℕ, zero, suc, ◌+◌, ◌-◌, ◌<◌, ◌≡◌, refl, ap, ◌∙◌, arith, max, true, ◌^◌}
use daikin_d3net.Base.{List, [], ◌∷◌, ◌++◌, length, take, drop, some, none}
use daikin_d3net.Esp.{ok}
use daikin_d3net.TelnetLog.Ring.{range}
use daikin_d3net.App.Server.{Request}
use daikin_d3net.Web.{recv_body}
use daikin_d3net.Web.Ota.{received, receive_image, ota_post}
use daikin_d3net.Web.Body.{Stream, Flash, recv_body-whole, receive_image-whole}
use daikin_d3net.Web.LogReader.{seqs, latest, Asks, IsLogging, two_reads}
use daikin_d3net.App.{Machine}
use daikin_d3net.TelnetLog.{push}
use daikin_d3net.Web.{reply_json}
use daikin_d3net.Web.Settings.{logs, logs_get}
use daikin_d3net.Tests.Sample.{Fraction}
use daikin_d3net.Tests.Board.{board, http, Connection}
use daikin_d3net.Tests.WebRuns.{connection, machine}
use daikin_d3net.Tests.LogRuns.{two_lines, two_lines-IsLog, two_lines-some, two_lines-last}

take-drop : (n : ℕ) (xs : List ℕ) → take n xs ++ drop n xs ≡ xs
take-drop zero xs = refl
take-drop (suc n) [] = refl
take-drop (suc n) (x ∷ xs) = ap (λ ys. x ∷ ys) (take-drop n xs)

take-some : (n : ℕ) (xs : List ℕ) → 0 < n → 0 < length xs → 0 < length (take n xs)
take-some zero xs h l = absurd (omega arith)
take-some (suc n) [] h l = absurd (omega arith)
take-some (suc n) (x ∷ xs) h l = omega arith

brought :
    (w : Connection) (most : ℕ) (body : List ℕ)
    → w.body ≡ body
    → 0 < most
    → 0 < length body
    → (0 < length (take most w.body))
      × ((rest : List ℕ) × (take most w.body ++ rest ≡ body) × (drop most w.body ≡ rest))
brought w most body e h l =
    (take-some most w.body h (rw e l), (drop most w.body, take-drop most w.body ∙ e, refl))

abbrev stream : Stream Fraction http
stream = record { Comes = λ w body. w.body ≡ body; brings = brought }

abbrev flash : Flash Fraction http stream
flash = record {
  written = λ w handle. w.stored;
  writes = λ w handle bytes body c. (refl, refl, c);
  reads = λ w handle most. refl;
}

abbrev three_bytes : Request
three_bytes = record { content_len = 3; since = none }

recv_body-whole_example :
    let (err, out, w') = recv_body board three_bytes connection in
    (err ≡ ok) × (out ≡ some (1 ∷ 2 ∷ 3 ∷ [])) × (w'.body ≡ [])
recv_body-whole_example =
    recv_body-whole board stream three_bytes (1 ∷ 2 ∷ 3 ∷ []) connection refl refl (omega arith)
      refl

receive_image-whole_example :
    let (outcome, err, count, w') = receive_image board 4 7 3 0 connection in
    (outcome ≡ received) × (w'.stored ≡ connection.stored ++ 1 ∷ 2 ∷ 3 ∷ []) × (w'.body ≡ [])
receive_image-whole_example =
    receive_image-whole board stream flash 7 4 0 (1 ∷ 2 ∷ 3 ∷ []) connection refl (omega arith)

-- The board with a ring of two lines, and the requests for the lines behind a number.
abbrev logging : Machine board
logging = record machine { telnet = two_lines }

abbrev asking : ℕ → Request
asking since = record { content_len = 0; since = some (since ∷ []) }

logging-IsLogging : IsLogging board logging
unfolding two_lines push
logging-IsLogging = record { ring = two_lines-IsLog; held = two_lines-some; fits = omega arith }

two_reads_example :
    let first = logs board 1 logging in
    let m' = (logs_get board (asking 1) logging).1 in
    let second = logs board (latest first) m' in
    let from = max 1 (two_lines.log_seq - two_lines.log_count) in
    (logs_get board (asking 1) logging ≡ reply_json board first logging)
    × (logs_get board (asking 2) m' ≡ reply_json board second m')
    × (seqs first ++ seqs second ≡ range (from + 1) (two_lines.log_seq - from))
    × (latest second ≡ two_lines.log_seq)
unfolding Asks latest logs two_lines push
two_reads_example =
    two_reads board 1 (asking 1) (asking 2) logging logging-IsLogging two_lines-last
      (1 ∷ [], refl, refl) (2 ∷ [], refl, refl)

-- A body of 2^31 bytes: the length is no positive int, and nothing is received.
abbrev huge : Request
huge = record { content_len = 2 ^ 31; since = none }

ota_post-huge :
    let ota = (ota_post board huge machine).1.app.ota in
    (ota.success ≡ true) × (ota.bytes_received ≡ 0) × (ota.total_bytes ≡ 2 ^ 31)
unfolding ota_post
ota_post-huge = (refl, refl, refl)
