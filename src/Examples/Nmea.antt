-- ===== src/Examples/Nmea.antt =====
-- A PFLAA sentence that is received in two chunks.
use startkladde.Prelude.{
  ℕ, ◌+◌, ◌-◌, ◌*◌, ◌==◌, ltb, true, ◌≡◌, ◌≢◌, arith, refl, List, [], ◌∷◌, ◌++◌, Option, none, some,
  if◌then◌else◌,
}
use startkladde.Prelude.Int.{ℤ, pos, negsuc, sub_ℕ}
use startkladde.Flarm.Record.{Sentence}
use startkladde.Nmea.{
  Text, Numerals, is_type, nmea_sentence, pflaa_sentence, calculate_checksum, split,
}
use startkladde.Nmea.Decoder.{
  pflaa_sentence_received, first_line, process_line, process_lines, process_data,
}
use startkladde.Nmea.Checksum.{calculate_checksum-replaced}

-- Digits from the left, after a number.
abbrev decimal : ℕ → Text → ℕ
decimal n [] = n
decimal n (c ∷ digits) = decimal (10 * n + (c - 48)) digits

abbrev read_int : Text → Option ℤ
read_int [] = none
read_int (c ∷ digits) =
    if c == 45 then some (sub_ℕ 0 (decimal 0 digits)) else some (pos (decimal 0 (c ∷ digits)))

abbrev hexadecimal : ℕ → Text → ℕ
hexadecimal n [] = n
hexadecimal n (c ∷ digits) = hexadecimal (16 * n + (if ltb c 65 then c - 48 else c - 55)) digits

-- ASCII, and the replacement character for every other byte.
abbrev from_ascii : List ℕ → Text
from_ascii [] = []
from_ascii (b ∷ bytes) = (if ltb b 128 then b else 65533) ∷ from_ascii bytes

-- Well-formed numbers, without white space.
instance abbrev numerals : Numerals
numerals = record {
  from_utf8 = from_ascii;
  trimmed = λ text. text;
  to_int = read_int;
  is_double = λ text. true;
  to_ushort_hex = hexadecimal 0;
}

-- $PFLAA,0,70,-8,5,2,DDAFD0,0,,15,0.1,1*0A, cut in two, with a line feed and the start of another sentence.
abbrev first_chunk : Text
first_chunk =
    36 ∷ 80 ∷ 70 ∷ 76 ∷ 65 ∷ 65 ∷ 44 ∷ 48 ∷ 44 ∷ 55 ∷ 48 ∷ 44 ∷ 45 ∷ 56 ∷ 44 ∷ 53 ∷ 44 ∷ 50 ∷ 44
    ∷ 68 ∷ []

abbrev second_chunk : Text
second_chunk =
    68 ∷ 65 ∷ 70 ∷ 68 ∷ 48 ∷ 44 ∷ 48 ∷ 44 ∷ 44 ∷ 49 ∷ 53 ∷ 44 ∷ 48 ∷ 46 ∷ 49 ∷ 44 ∷ 49 ∷ 42 ∷ 48
    ∷ 65 ∷ 10 ∷ 36 ∷ 71 ∷ 80 ∷ []

abbrev sentence_values : Sentence
sentence_values = record {
  relative_north = pos 70;
  relative_east = negsuc 7;
  relative_vertical = pos 5;
  ground_speed = pos 15;
}

abbrev flarm_id : Text
flarm_id = 68 ∷ 68 ∷ 65 ∷ 70 ∷ 68 ∷ 48 ∷ []

abbrev remainder : Text
remainder = 36 ∷ 71 ∷ 80 ∷ []

process_data-sentence :
    process_data [] (first_chunk ++ second_chunk)
    ≡ (pflaa_sentence_received flarm_id sentence_values ∷ [], remainder)
unfolding process_data process_lines first_line process_line is_type nmea_sentence pflaa_sentence
    calculate_checksum split
process_data-sentence = refl

-- The last digit of a number.
calculate_checksum-replaced_example :
    calculate_checksum (48 ∷ 44 ∷ 49 ∷ []) ≢ calculate_checksum (48 ∷ 44 ∷ 50 ∷ [])
calculate_checksum-replaced_example =
    calculate_checksum-replaced (48 ∷ 44 ∷ []) [] 49 50 (omega arith)
