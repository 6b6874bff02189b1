-- ===== src/Tests/CodecRuns.antt =====
-- The codec's and the registers' theorems at small arrays.
use daikin_d3net.Base.{◌%◌, ◌^◌, ◌≡◌, inr, arith}
use daikin_d3net.Base.{true, false, [], ◌∷◌, ◌==◌, if◌then◌else◌}
use daikin_d3net.Base.Int.{negsuc}
use daikin_d3net.Codec.{Words, bit_set, uint_get, uint_set, sint_get, sint_set, same}
use daikin_d3net.Codec.View.{IsWords, bit_at, bit_at-bit_set, dirty-bit_set}
use daikin_d3net.Codec.Field.{uint_get-uint_set, uint_get-uint_set_disjoint}
use daikin_d3net.Codec.Signed.{sint_get-sint_set}
use daikin_d3net.Registers.Holding
use daikin_d3net.Registers.Sync.{Agrees, sync-Agrees, sync-IsWords, filter_reset-sync}
use daikin_d3net.Registers.Reset.{filter_reset_set-Agrees}
use daikin_d3net.Tests.Sample.{fractions, unit}

three : Words
three = 1 ∷ 2 ∷ 65535 ∷ []

three-IsWords : IsWords 3 three
unfolding three
three-IsWords = omega arith

hold-IsWords : IsWords 3 unit.hold.words
hold-IsWords = omega arith

status-IsWords : IsWords 6 unit.status
status-IsWords = omega arith

bit_at-bit_set_example :
    bit_at (bit_set three 3 40 false false).0 40 ≡ (if 40 == 40 then false else bit_at three 40)
bit_at-bit_set_example = bit_at-bit_set three-IsWords 40 false false 40 (omega arith)

dirty-bit_set_example :
    (bit_set three 3 40 false false).1 ≡ (if same (bit_at three 40) false then false else true)
dirty-bit_set_example = dirty-bit_set three-IsWords 40 false false (omega arith)

-- A field of ten bits across two words, given a value of eleven.
uint_get-uint_set_example : uint_get (uint_set three 3 12 10 1500 false).0 3 12 10 ≡ 1500 % 2 ^ 10
uint_get-uint_set_example =
    uint_get-uint_set three-IsWords 12 10 (omega arith) (omega arith) 1500 false

uint_get-uint_set_disjoint_example :
    uint_get (uint_set three 3 12 10 1500 false).0 3 22 26 ≡ uint_get three 3 22 26
uint_get-uint_set_disjoint_example =
    uint_get-uint_set_disjoint three-IsWords 12 10 (omega arith) (omega arith) 1500 false 22 26
      (omega arith) (omega arith) (inr (omega arith))

sint_get-sint_set_example :
    sint_get (sint_set three 3 10 16 (negsuc 204) false).0 3 10 16 ≡ negsuc 204
sint_get-sint_set_example =
    sint_get-sint_set three-IsWords 10 16 (omega arith) (omega arith) (omega arith) (negsuc 204)
      false (omega arith)

sync-Agrees_example : Agrees (Holding.sync_from_status fractions unit.hold unit.status) unit.status
sync-Agrees_example = sync-Agrees fractions unit.hold hold-IsWords unit.status status-IsWords

filter_reset-sync_example :
    Holding.filter_reset_get (Holding.sync_from_status fractions unit.hold unit.status)
    ≡ Holding.filter_reset_get unit.hold
filter_reset-sync_example =
    filter_reset-sync fractions unit.hold hold-IsWords unit.status status-IsWords

asking : Holding.Holding
asking = Holding.sync_from_status fractions unit.hold unit.status

asking-IsWords : IsWords 3 asking.words
unfolding asking
asking-IsWords = sync-IsWords fractions unit.hold hold-IsWords unit.status status-IsWords

filter_reset_set-Agrees_example : Agrees (Holding.filter_reset_set asking true) unit.status
unfolding asking
filter_reset_set-Agrees_example =
    filter_reset_set-Agrees asking asking-IsWords true
      (sync-Agrees fractions unit.hold hold-IsWords unit.status status-IsWords)
