-- ===== src/App/Json.antt =====
-- The trees that the program builds with cJSON, over the type of C's float.
use Prim.Native.String.{String}
use daikin_d3net.Base.{ℕ, Bool, List}
use daikin_d3net.Base.Int.{ℤ}

mutual
  pub data Json (F : Type 0) : Type 0 where
    bool : Bool → Json F
    number : ℤ → Json F
    float : F → Json F
    string : List ℕ → Json F
    array : Items F → Json F
    object : Members F → Json F

  pub data Items (F : Type 0) : Type 0 where
    no_items : Items F
    item : Json F → Items F → Items F

  pub data Members (F : Type 0) : Type 0 where
    no_members : Members F
    member : String → Json F → Members F → Members F
