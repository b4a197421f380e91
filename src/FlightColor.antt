-- ===== src/FlightColor.antt =====
-- src/flightColor.cpp: the table of colours. A row is a test of the five columns, and the first row
-- that matches is used.
use startkladde.Prelude.{ℕ, Bool, true, not, ◌&&◌, ◌≡◌, ◌↔◌, ◌≢◌, arith, if◌then◌else◌}
use startkladde.Model.Mode.{Mode, mode_local, mode_coming, mode_leaving, mode_eq}

-- QColor by its red, green and blue parts.
pub data Color : Type 0 where
  rgb : ℕ → ℕ → ℕ → Color

abbrev pub light_red : Color
light_red = rgb 255 127 127

abbrev pub light_blue : Color
light_blue = rgb 191 191 255

abbrev pub tow_blue : Color
tow_blue = rgb 162 162 216

abbrev pub light_green : Color
light_green = rgb 191 255 191

abbrev pub yellow : Color
yellow = rgb 255 255 0

abbrev pub light_yellow : Color
light_yellow = rgb 255 255 191

-- The source gives it the parts of yellow.
abbrev pub magenta : Color
magenta = rgb 255 255 0

abbrev pub white : Color
white = rgb 255 255 255

abbrev is_true : Bool → Bool
is_true x = x

abbrev is_false : Bool → Bool
is_false x = not x

pub flight_color : Mode → Bool → Bool → Bool → Bool → Color
flight_color mode error towflight departed landed =
    if is_true towflight && is_true error
    then light_red
    else if is_false towflight && is_true error
    then light_red
    else if leaving && is_false departed && is_true landed
    then magenta
    else if here && is_false departed && is_true landed
    then magenta
    else if coming && is_false towflight && is_false landed && is_false error
    then light_blue
    else if coming && is_false towflight && is_true landed && is_false error
    then light_green
    else if coming && is_true towflight && is_false error
    then magenta
    else if leaving && is_false towflight && is_false departed && is_false error
    then light_yellow
    else if leaving && is_false towflight && is_true departed && is_false error
    then light_green
    else if leaving && is_true towflight && is_false departed && is_false error
    then yellow
    else if leaving && is_true towflight && is_true departed && is_false error
    then light_green
    else if here && is_false towflight && is_false departed && is_false error
    then light_yellow
    else if here && is_false towflight && is_true departed && is_false landed && is_false error
    then light_blue
    else if here && is_false towflight && is_true departed && is_true landed && is_false error
    then light_green
    else if here && is_true towflight && is_false departed && is_false error
    then yellow
    else if here && is_true towflight && is_true departed && is_false landed && is_false error
    then tow_blue
    else if here && is_true towflight && is_true departed && is_true landed && is_false error
    then light_green
    else white
  where
    leaving : Bool
    leaving = mode_eq mode mode_leaving

    here : Bool
    here = mode_eq mode mode_local

    coming : Bool
    coming = mode_eq mode mode_coming

-- The colour is light red exactly for an erroneous flight or towflight. The rows handle every case:
-- the default after the table, white, is never used.
pub flight_color-light_red :
    (mode : Mode) (error towflight departed landed : Bool)
    → ((flight_color mode error towflight departed landed ≡ light_red) ↔ (error ≡ true))
      × (flight_color mode error towflight departed landed ≢ white)
unfolding flight_color
flight_color-light_red mode_local error towflight departed landed = ground arith
flight_color-light_red mode_coming error towflight departed landed = ground arith
flight_color-light_red mode_leaving error towflight departed landed = ground arith
