-- ===== src/Nmea.antt =====
-- src/nmea: the sentences of a GPS or FLARM receiver. A text is the list of its UTF-16 units. The
-- functions of QString that decode bytes, read numbers or cut off white space are not part of the repository, so
-- they are parameters. A GPRMC sentence is kept as its parts: its date, time and position are values
-- of Qt and of src/numeric.
pub mod Decoder
pub mod Checksum
use startkladde.Prelude.{
  ℕ, zero, suc, ◌+◌, ◌-◌, ◌%◌, ◌==◌, ltb, Bool, true, false, not, ◌&&◌, List, [], ◌∷◌, ◌++◌, Option,
  none, some, if◌then◌else◌,
}
use Prim.Native.Nat.{bit_xor}
use startkladde.Prelude.Int.{ℤ, pos}
use startkladde.Prelude.Lists.{length, get_elem?, take, drop}
use startkladde.Flarm.Record.{Sentence}

abbrev pub Text : Type 0
Text = List ℕ

pub record Numerals : Type 0 where
  -- QString::fromUtf8, of a QByteArray as its bytes
  pub from_utf8 : List ℕ → Text
  -- QString::trimmed
  pub trimmed : Text → Text
  -- toInt (&ok); `none` when not ok
  pub to_int : Text → Option ℤ
  -- toDouble (&ok) is ok
  pub is_double : Text → Bool
  -- toUShort (NULL, 16), which is 0 for what is no number
  pub to_ushort_hex : Text → ℕ

-- The characters $ * , and line feed, and the types of sentences.
abbrev dollar : ℕ
dollar = 36

abbrev asterisk : ℕ
asterisk = 42

abbrev comma : ℕ
comma = 44

abbrev pub line_feed : ℕ
line_feed = 10

abbrev pub gprmc : Text
gprmc = 71 ∷ 80 ∷ 82 ∷ 77 ∷ 67 ∷ []

abbrev pub pflaa : Text
pflaa = 80 ∷ 70 ∷ 76 ∷ 65 ∷ 65 ∷ []

-- QChar::toLatin1, which is 0 for a character that is not in Latin-1.
abbrev pub to_latin1 : ℕ → ℕ
to_latin1 c = if ltb c 256 then c else 0

abbrev pub xor_each : ℕ → Text → ℕ
xor_each checksum [] = checksum
xor_each checksum (c ∷ content) = xor_each (bit_xor checksum (to_latin1 c)) content

unfoldable pub calculate_checksum : Text → ℕ
calculate_checksum content = xor_each 0 content

abbrev starts_with : Text → Text → Bool
starts_with [] line = true
starts_with (c ∷ prefix) [] = false
starts_with (c ∷ prefix) (d ∷ line) = (c == d) && starts_with prefix line

abbrev pub text_eq : Text → Text → Bool
text_eq [] [] = true
text_eq [] (d ∷ ds) = false
text_eq (c ∷ cs) [] = false
text_eq (c ∷ cs) (d ∷ ds) = (c == d) && text_eq cs ds

-- split (','), which keeps empty parts.
abbrev cons_part : ℕ → List Text → List Text
cons_part c [] = (c ∷ []) ∷ []
cons_part c (part ∷ parts) = (c ∷ part) ∷ parts

unfoldable pub split : Text → List Text
split [] = [] ∷ []
split (c ∷ content) = let rest = split content in if c == comma then [] ∷ rest else cons_part c rest

-- NmeaSentence
pub record NmeaSentence : Type 0 where
  pub line : Text
  pub valid : Bool
  pub parts : List Text

abbrev has_char : ℕ → ℕ → Text → Bool
has_char i c line = elim (get_elem? line i) [ none ↦ false | some d ↦ to_latin1 d == c ]

abbrev pub part : ℕ → List Text → Text
part i parts = elim (get_elem? parts i) [ none ↦ [] | some text ↦ text ]

-- PflaaSentence::relativeNorth and its like; 0 when the number is not ok.
abbrev or_zero : Option ℤ → ℤ
or_zero none = pos 0
or_zero (some n) = n

abbrev is_ok : Option ℤ → Bool
is_ok none = false
is_ok (some n) = true

module _ ⦃n : Numerals⦄ where
  open n use {trimmed, to_int, is_double, to_ushort_hex}

  unfoldable pub is_type : Text → Text → Bool
  is_type type line = starts_with (dollar ∷ type) (trimmed line)

  -- The checks of the constructor after the checksum.
  abbrev with_parts : Text → List Text → Text → ℕ → NmeaSentence
  with_parts line parts type number = record {
    line = line;
    valid = if not (length parts == number) then false else text_eq (part 0 parts) type;
    parts = parts;
  }

  unfoldable pub nmea_sentence : Text → Text → ℕ → NmeaSentence
  unfolding calculate_checksum split
  nmea_sentence received type number =
      let line = trimmed received in
      let len = length line in
      let invalid : NmeaSentence = record { line = line; valid = false; parts = [] } in
      let content = take (len - 4) (drop 1 line) in
      let checksum = take 2 (drop (len - 2) line) in
      if ltb len 4
      then invalid
      else if not (has_char 0 dollar line)
      then invalid
      else if not (has_char (len - 3) asterisk line)
      then invalid
      else if not (calculate_checksum content == to_ushort_hex checksum % 256)
      then invalid
      else with_parts line (split content) type number

  -- The FLARM identifier and the values of a valid PFLAA sentence; `none` for an invalid one.
  abbrev pflaa_values : List Text → Option (Text × Sentence)
  pflaa_values parts =
      if is_ok (to_int (part 2 parts))
        && is_ok (to_int (part 3 parts))
        && is_ok (to_int (part 4 parts))
        && is_ok (to_int (part 9 parts))
        && is_double (part 10 parts)
      then some (
        part 6 parts,
        record {
          relative_north = or_zero (to_int (part 2 parts));
          relative_east = or_zero (to_int (part 3 parts));
          relative_vertical = or_zero (to_int (part 4 parts));
          ground_speed = or_zero (to_int (part 9 parts));
        },
      )
      else none

  unfoldable pub pflaa_sentence : Text → Option (Text × Sentence)
  unfolding nmea_sentence
  pflaa_sentence line =
      let sentence = nmea_sentence line pflaa 12 in
      if sentence.valid then pflaa_values sentence.parts else none
