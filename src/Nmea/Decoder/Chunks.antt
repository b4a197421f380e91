-- ===== src/Nmea/Decoder/Chunks.antt =====
-- What src/nmea/NmeaDecoder.cpp makes of data that comes in chunks.
use startkladde.Prelude.{ℕ, ◌<◌, ◌==◌, ◌≡◌, List, [], ◌∷◌, ◌++◌, if◌then◌else◌}
use startkladde.Prelude.All.{All}
use startkladde.Nmea.{Text, Numerals, line_feed}
use startkladde.Nmea.Decoder.{Signal, process_line}

abbrev cons_line : ℕ → List Text × Text → List Text × Text
cons_line c ([], rest) = ([], c ∷ rest)
cons_line c (line ∷ lines, rest) = ((c ∷ line) ∷ lines, rest)

-- The complete lines of a text, and what is left after them.
abbrev lines_of : Text → List Text × Text
lines_of [] = ([], [])
lines_of (c ∷ text) =
    let split = lines_of text in
    if c == line_feed then ([] ∷ split.0, split.1) else cons_line c split

module _ ⦃n : Numerals⦄ where
  open n use {from_utf8, trimmed}

  abbrev signals_of : List Text → List Signal
  signals_of [] = []
  signals_of (line ∷ lines) = process_line (trimmed line) ++ signals_of lines

  abbrev decode : Text → List Signal × Text
  decode text = (signals_of (lines_of text).0, (lines_of text).1)

  abbrev pub IsAscii : List ℕ → Type 0
  IsAscii bytes = All (λ b. b < 128) bytes

  -- UTF-8 extends ASCII.
  pub record DecodesAscii : Type 0 where
    pub ascii : (bytes : List ℕ) → IsAscii bytes → from_utf8 bytes ≡ bytes
