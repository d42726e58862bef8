-- ===== src/Datetime/Zone.antt =====
-- The class `timezone`, a fixed offset, and `tzinfo.isoformat` and `tzinfo.fromutc`. A subclass of
-- `tzinfo` that a program writes itself is not modelled, but for the `fromutc` that it inherits.
use micropython_lib.Prelude.{
  Bool, if◌then◌else◌, Option, none, some, Result, ok, raise, value_error, [], ◌∷◌,
}
use micropython_lib.Prelude.Int.{pos, ltb_ℤ}
use micropython_lib.Prelude.Text.{Text}
use micropython_lib.Datetime.Timedelta
use micropython_lib.Datetime.Timedelta.{Timedelta, day_us}
use micropython_lib.Datetime.Timedelta.Format.{fmt}

pub record Timezone : Type 0 where
  pub offset : Timedelta
  pub name : Option Text

-- `__init__`
unfoldable pub timezone : Timedelta → Option Text → Result Timezone
timezone offset name =
    if ltb_ℤ (Timedelta.abs offset).us (pos day_us)
    then ok (record { offset = offset; name = name })
    else raise value_error

-- `timezone.utc`
abbrev pub utc : Timezone
utc = record { offset = record { us = pos 0 }; name = none }

unfoldable pub eq : Timezone → Timezone → Bool
eq a b = Timedelta.eq a.offset b.offset

abbrev pub utcoffset : Timezone → Timedelta
utcoffset z = z.offset

-- An empty name counts as none.
name_or : Timedelta → Option Text → Text
name_or offset none = fmt offset 0x22
name_or offset (some []) = fmt offset 0x22
name_or offset (some (c ∷ cs)) = c ∷ cs

unfoldable pub tzname : Timezone → Text
unfolding name_or
tzname z = name_or z.offset z.name

-- `tzinfo.isoformat`
unfoldable pub isoformat : Timezone → Text
isoformat z = fmt (utcoffset z) 0x12
