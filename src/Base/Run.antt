-- ===== src/Base/Run.antt =====
-- A name that opens all of the helpers at once, for tests.
use cs.Base.Tests.{text_beq, option_beq}
use cs.Base.Lists.{contains}
use cs.Base.Strings.{
  reverse_onto, reversed, starts_with, ends_with, find, has, replace_from, replace, left_strip,
  right_strip, strip, split, lower, show_digits, show, count_from, count_text,
}
use cs.Base.Dict.{lookup_or, update}

unfoldable pub all_helpers : Unit {0}
unfolding text_beq option_beq contains reverse_onto reversed starts_with ends_with find has
    replace_from replace left_strip right_strip strip split lower show_digits show count_from
    count_text lookup_or update
all_helpers = tt
