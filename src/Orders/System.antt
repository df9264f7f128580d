-- ===== src/Orders/System.antt =====
-- The `system_state` table, as the text under each key, and `decimal.Decimal` of a text.
use jh_holdings.Prelude.{String, Option, none, some, Bool, true, false, str_eq}
use jh_holdings.Decimal.{Decimal}

abbrev pub System : Type 0
System = String → Option String

-- what `Decimal(text)` gives: an `InvalidOperation`, an infinity or a NaN, or a number
pub data Number : Type 0 where
  malformed not_finite : Number
  finite : Decimal → Number

-- `value == expected` for a text that may be missing
abbrev pub text_is : Option String → String → Bool
text_is none expected = false
text_is (some value) expected = str_eq value expected

abbrev pub is_present : Option String → Bool
is_present none = false
is_present (some value) = true
