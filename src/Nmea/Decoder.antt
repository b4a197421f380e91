-- ===== src/Nmea/Decoder.antt =====
-- src/nmea/NmeaDecoder.cpp. The buffer, which is a static variable of the source, is an argument.
-- Each chunk of data is a list of bytes, which is decoded from UTF-8 by itself.
pub mod Chunks
use startkladde.Prelude.{
  ℕ, zero, suc, ◌==◌, true, false, List, [], ◌∷◌, ◌++◌, Option, none, some, if◌then◌else◌,
}
use startkladde.Prelude.Lists.{length}
use startkladde.Flarm.Record.{Sentence}
use startkladde.Nmea.{
  Text, Numerals, NmeaSentence, line_feed, gprmc, pflaa, is_type, nmea_sentence, pflaa_sentence,
}

-- The decoder's signals.
pub data Signal : Type 0 where
  gprmc_sentence : NmeaSentence → Signal
  pflaa_sentence_received : Text → Sentence → Signal

-- buffer.indexOf ("\n"), buffer.left (pos) and buffer.remove (0, pos+1): the text before the first
-- line feed and the text after it.
abbrev before_cons : ℕ → Option (Text × Text) → Option (Text × Text)
before_cons c none = none
before_cons c (some (line, rest)) = some (c ∷ line, rest)

unfoldable pub first_line : Text → Option (Text × Text)
first_line [] = none
first_line (c ∷ buffer) =
    let further = before_cons c (first_line buffer) in
    if c == line_feed then some ([], buffer) else further

module _ ⦃n : Numerals⦄ where
  open n use {from_utf8, trimmed}

  abbrev gprmc_signals : NmeaSentence → List Signal
  gprmc_signals sentence = if sentence.valid then gprmc_sentence sentence ∷ [] else []

  abbrev pflaa_signals : Option (Text × Sentence) → List Signal
  pflaa_signals none = []
  pflaa_signals (some (flarm_id, sentence)) = pflaa_sentence_received flarm_id sentence ∷ []

  unfoldable pub process_line : Text → List Signal
  unfolding is_type nmea_sentence pflaa_sentence
  process_line line =
      if is_type gprmc line
      then gprmc_signals (nmea_sentence line gprmc 13)
      else if is_type pflaa line
      then pflaa_signals (pflaa_sentence line)
      else []

  -- One round of the loop, with the rounds that follow.
  abbrev pub after_line :
      (Text → List Signal × Text) → Text → Option (Text × Text) → List Signal × Text
  after_line further buffer none = ([], buffer)
  after_line further buffer (some (line, rest)) =
      let (signals, buffer') = further rest in (process_line (trimmed line) ++ signals, buffer')

  -- The loop, which takes a line off the buffer in every round.
  unfoldable pub process_lines : ℕ → Text → List Signal × Text
  unfolding first_line process_line
  process_lines zero buffer = ([], buffer)
  process_lines (suc fuel) buffer = after_line (process_lines fuel) buffer (first_line buffer)

  -- The signals and the new buffer. Every round shortens the buffer, so its length is fuel enough.
  unfoldable pub process_data : Text → List ℕ → List Signal × Text
  unfolding process_lines
  process_data buffer bytes =
      let buffer' = buffer ++ from_utf8 bytes in process_lines (length buffer') buffer'

  -- Chunks of data, one after the other.
  abbrev pub process_chunks : Text → List (List ℕ) → List Signal × Text
  process_chunks buffer [] = ([], buffer)
  process_chunks buffer (chunk ∷ chunks) =
      let (signals, buffer') = process_data buffer chunk in
      let (more, buffer'') = process_chunks buffer' chunks in (signals ++ more, buffer'')
