-- ===== src/Bitefficient/Times.antt =====
-- message_parser/date_time.cpp and `convertToTime` of grammar/grammar_common.h: the time that is made
-- of the texts of a date.
use multiagent_fipa_acl.Base.{Text, ℕ, ◌+◌, ◌*◌, ◌%◌, ◌^◌}
use multiagent_fipa_acl.Bitefficient.Grammar.Expressions.{DateTime}

-- The C library and `base::Time`: `mktime` of what `strptime` reads of a text, without knowledge of
-- daylight saving, as a `uint64_t`; `atoi`; the number of milliseconds in a second; and the time of
-- a number of milliseconds.
pub record CTime : Type 0 where
  pub calendar : Text → ℕ
  pub atoi : Text → ℕ
  pub milliseconds : ℕ
  pub from_milliseconds : ℕ → ℕ

-- `fipa::acl::Time`, known by what `mktime` makes of it, and its milliseconds.
pub record Time : Type 0 where
  pub calendar : ℕ
  pub tm_msec : ℕ

-- `convertToTime`
unfoldable pub convert_to_time : CTime → Text → Text → Time
convert_to_time c arg msecs = record { calendar = c.calendar arg; tm_msec = c.atoi msecs }

-- `DateTime::toTime`, of the texts that the date is read from.
unfoldable pub to_time : CTime → DateTime → ℕ
unfolding convert_to_time
to_time c date =
    let t = convert_to_time c date.date_text date.milliseconds in
    c.from_milliseconds ((t.calendar * c.milliseconds + t.tm_msec) % 2 ^ 64)
