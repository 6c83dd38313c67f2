-- ===== src/Camera/Info.antt =====
-- app/src/main/cpp/camera_module.cpp: the CameraInfo methods and `camera.list`.
pub mod Keeping
use upy_android.Prelude.{
  ℕ, zero, suc, ◌+◌, ◌*◌, Bool, true, false, Option, none, some, List, [], ◌∷◌, ◌++◌, ◌==◌, not,
  if◌then◌else◌,
}
use upy_android.Prelude.Ints.{ℤ}
use upy_android.Prelude.Raise.{Outcome, returned, raised, os_error, einval, eio}
use upy_android.Camera.{World, close_impl}
use upy_android.Camera.Control.Methods.{Floats}

-- The answer of `camera_bridge_info_numbers` and `camera_bridge_info_string`: the call fails, the camera
-- is not open any more, or the value is found.
pub data Answer (A : Type 0) : Type 0 where
  failed not_open : Answer A
  found : A → Answer A

-- CAMERA_BRIDGE_INFO_* of the methods that read several numbers.
abbrev info_zoom_state : ℕ
info_zoom_state = 7

abbrev info_exposure_state : ℕ
info_exposure_state = 8

abbrev info_focus_supported : ℕ
info_focus_supported = 9

abbrev info_frame_rate_ranges : ℕ
info_frame_rate_ranges = 10

abbrev pub answered : {A : Type 0} → ℕ → World → Answer A → Outcome A × World
answered self w failed = (raised (os_error eio), w)
answered self w not_open = (raised (os_error eio), close_impl self w)
answered self w (found a) = (returned a, w)

-- `info_numbers` and `info_string` up to the value that they read.
pub ask : {A : Type 0} → ℕ → Answer A → World → Outcome A × World
ask self answer w =
    if (w.cameras self).is_open then answered self w answer else (raised (os_error einval), w)

abbrev pub then_value : {A B : Type 0} → (A → B) → Outcome A × World → Outcome B × World
then_value f (returned a, w) = (returned (f a), w)
then_value f (raised e, w) = (raised e, w)

-- The keys of the dictionary that `camera_zoom_state` returns.
pub data ZoomKey : Type 0 where
  ratio min max linear : ZoomKey

-- The dictionary that `camera_exposure_state` returns, when it is not empty.
pub record Exposure (Double : Type 0) : Type 0 where
  pub index : ℤ
  pub lowest : ℤ
  pub highest : ℤ
  pub step : Double
  pub supported : Bool

abbrev pub zip {ℓ κ} : {A : Type ℓ} {B : Type κ} → List A → List B → List (A × B)
zip [] ys = []
zip (x ∷ xs) [] = []
zip (x ∷ xs) (y ∷ ys) = (x, y) ∷ zip xs ys

module _ {Float Double : Type 0} (floats : Floats Float Double) where
  -- The bridge's answer for a key and a point.
  abbrev pub Numbers : Type 0
  Numbers = ℕ → Float → Float → Answer (List Double)

  -- `info_numbers`
  pub info_numbers : ℕ → ℕ → Float → Float → Numbers → World → Outcome (List Double) × World
  unfolding ask
  info_numbers self key x y numbers w = ask self (numbers key x y) w

  abbrev head_or_zero : List Double → Double
  head_or_zero [] = floats.zero_d
  head_or_zero (v ∷ vs) = v

  abbrev found_nonzero : List Double → Bool
  found_nonzero [] = false
  found_nonzero (v ∷ vs) = not (floats.is_zero v)

  -- `info_number`
  pub info_number : ℕ → ℕ → Numbers → World → Outcome Double × World
  unfolding info_numbers
  info_number self key numbers w =
      then_value head_or_zero (info_numbers self key floats.zero_f floats.zero_f numbers w)

  -- The methods that INFO_INT and INFO_BOOL make for a key.
  pub info_int : ℕ → ℕ → Numbers → World → Outcome ℤ × World
  unfolding info_number
  info_int self key numbers w = then_value floats.to_int (info_number self key numbers w)

  pub info_bool : ℕ → ℕ → Numbers → World → Outcome Bool × World
  unfolding info_number
  info_bool self key numbers w =
      then_value (λ v. not (floats.is_zero v)) (info_number self key numbers w)

  -- `camera_zoom_state`
  pub zoom_state : ℕ → Numbers → World → Outcome (List (ZoomKey × Double)) × World
  unfolding info_numbers
  zoom_state self numbers w =
      then_value (zip (ratio ∷ min ∷ max ∷ linear ∷ []))
        (info_numbers self info_zoom_state floats.zero_f floats.zero_f numbers w)

  abbrev exposure : List Double → Option (Exposure Double)
  exposure (a ∷ b ∷ c ∷ d ∷ e ∷ vs) = some (record {
    index = floats.to_int a;
    lowest = floats.to_int b;
    highest = floats.to_int c;
    step = d;
    supported = not (floats.is_zero e);
  })
  exposure vs = none

  -- `camera_exposure_state`; `none` is the empty dictionary.
  pub exposure_state : ℕ → Numbers → World → Outcome (Option (Exposure Double)) × World
  unfolding info_numbers
  exposure_state self numbers w =
      then_value exposure
        (info_numbers self info_exposure_state floats.zero_f floats.zero_f numbers w)

  -- `camera_is_focus_metering_supported`
  pub is_focus_metering_supported : ℕ → Float → Float → Numbers → World → Outcome Bool × World
  unfolding info_numbers
  is_focus_metering_supported self x y numbers w =
      then_value found_nonzero (info_numbers self info_focus_supported x y numbers w)

  abbrev pub ranges : List Double → List (ℤ × ℤ)
  ranges [] = []
  ranges (a ∷ []) = []
  ranges (a ∷ b ∷ vs) = (floats.to_int a, floats.to_int b) ∷ ranges vs

  -- `camera_supported_frame_rate_ranges`
  pub supported_frame_rate_ranges : ℕ → Numbers → World → Outcome (List (ℤ × ℤ)) × World
  unfolding info_numbers
  supported_frame_rate_ranges self numbers w =
      then_value ranges
        (info_numbers self info_frame_rate_ranges floats.zero_f floats.zero_f numbers w)

-- `info_string`, which INFO_STR makes methods of
pub info_string : ℕ → Answer (List ℕ) → World → Outcome (List ℕ) × World
unfolding ask
info_string self answer w = ask self answer w

-- An entry of `camera.list()`.
pub record Entry : Type 0 where
  pub id : List ℕ
  pub facing : List ℕ
  pub sizes : List (ℤ × ℤ)

-- The answers of the bridge for the camera at an index, `none` where a call fails; the sizes are an array
-- and the number of its pairs.
pub record Listing : Type 0 where
  pub count : Option ℕ
  pub id : ℕ → Option (List ℕ)
  pub facing : ℕ → Option (List ℕ)
  pub sizes : ℕ → Option ((ℕ → ℤ) × ℕ)

-- The loop over the sizes, from `j` on.
abbrev pub size_pairs : (ℕ → ℤ) → ℕ → ℕ → List (ℤ × ℤ)
size_pairs sizes j zero = []
size_pairs sizes j (suc n) = (sizes (2 * j), sizes (2 * j + 1)) ∷ size_pairs sizes (j + 1) n

infixl 5 ◌>>=◌
abbrev ◌>>=◌ : {A B : Type 0} → Option A → (A → Option B) → Option B
none >>= f = none
some a >>= f = f a

-- The loop of `camera_list`, from the camera `i` on; `none` where it raises.
pub entries : Listing → ℕ → ℕ → Option (List Entry)
entries listing i zero = some []
entries listing i (suc n) = do
  id ← listing.id i
  facing ← listing.facing i
  sizes ← listing.sizes i
  rest ← entries listing (i + 1) n
  some (record { id = id; facing = facing; sizes = size_pairs sizes.0 0 sizes.1 } ∷ rest)

-- `camera_list`
pub camera_list : Listing → Outcome (List Entry)
unfolding entries
camera_list listing = elim (listing.count >>= entries listing 0) [
  | none ↦ raised (os_error eio)
  | some es ↦ returned es
]
