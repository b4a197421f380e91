-- ===== src/Text.antt =====
-- src/text.cpp: the tests for texts that say nothing.
use startkladde.Prelude.{Bool, String, ◌&&◌, ◌||◌, str_eq}
use startkladde.Qt.{Qt}

module _ ⦃q : Qt⦄ where
  unfoldable pub is_blank : String → Bool
  is_blank string = str_eq (q.trimmed string) ""

  unfoldable pub is_none : String → Bool
  is_none string = str_eq (q.trimmed string) "" || str_eq string "-"

  -- The overload on two texts.
  unfoldable pub is_none_both : String → String → Bool
  unfolding is_none
  is_none_both string1 string2 = is_none string1 && is_none string2
