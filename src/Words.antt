-- ===== src/Words.antt =====
-- The words for truth values: `Leaf::parseBool` and `Leaf::parsePayloadBool` of leaf.h, and the names
-- that accelerando_trace.h prints.
use stacx.Prelude.{Bool, true, false, ◌||◌, if◌then◌else◌}
use stacx.Prelude.Text.{Text, lit, text_eq, starts_with, not_empty}

abbrev pub yes_word : Text → Bool
yes_word s =
    text_eq s (lit "on")
    || text_eq s (lit "true")
    || text_eq s (lit "1")
    || starts_with s (lit "enable")

abbrev pub no_word : Text → Bool
no_word s =
    text_eq s (lit "off")
    || text_eq s (lit "false")
    || text_eq s (lit "0")
    || starts_with s (lit "disable")

pub record Parsed : Type 0 where
  pub value : Bool
  pub valid : Bool

-- parseBool(pref, default_value, &valid)
unfoldable pub parse_bool : Text → Bool → Parsed
parse_bool pref default_value =
    let known =
      if yes_word pref
      then record { value = true; valid = true }
      else record { value = default_value; valid = false } in
    if not_empty pref
    then (if no_word pref then record { value = false; valid = true } else known)
    else record { value = default_value; valid = false }

-- parsePayloadBool(payload, default_value)
unfoldable pub parse_payload_bool : Text → Bool → Bool
parse_payload_bool payload default_value =
    if not_empty payload
    then text_eq payload (lit "on")
      || text_eq payload (lit "true")
      || text_eq payload (lit "high")
      || text_eq payload (lit "1")
    else default_value

-- TRUTH(b), TRUTH_lc(b) and ABILITY(b)
abbrev pub truth : Bool → Text
truth b = if b then lit "TRUE" else lit "FALSE"

abbrev pub truth_lc : Bool → Text
truth_lc b = if b then lit "true" else lit "false"

abbrev pub ability : Bool → Text
ability b = if b then lit "on" else lit "off"
