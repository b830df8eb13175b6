-- ===== src/Lifecycle/Dates.antt =====
-- src/inboxlume/lumegraph.py: `verified_expiry_date`. The regular expressions are run by Python's
-- `re`: `find_groups pattern text` are the groups of each match of the named pattern. A date is the
-- number year * 10000 + month * 100 + day, which orders dates as Python does.
use inboxlume.Base.{
  ℕ, zero, suc, ◌+◌, ◌*◌, ◌%◌, Bool, ◌&&◌, ◌||◌, not, String, ◌<>◌, List, [], ◌∷◌, ◌++◌, leb, ◌==◌,
  str_eq, max, if◌then◌else◌, Option, none, some, ok, Result, require, ◌>>◌,
}
use inboxlume.Models.{Platform, Datetime, EmailRecord}

-- `value[:n]`
unfoldable pub take_chars : ℕ → String → String
take_chars zero s = String.[]
take_chars (suc n) String.[] = String.[]
take_chars (suc n) (String.◌∷◌ c s) = String.◌∷◌ c (take_chars n s)

-- `int(digits)`, on the digits that the patterns match: those of any script, as `\d` and `int` take them.
unfoldable pub int_from : Platform → ℕ → String → ℕ
int_from py acc String.[] = acc
int_from py acc (String.◌∷◌ c s) = int_from py (acc * 10 + py.digit_value c) s

abbrev pub int : Platform → String → ℕ
int py = int_from py 0

unfoldable pub is_leap : ℕ → Bool
is_leap y = y % 4 == 0 && (not (y % 100 == 0) || y % 400 == 0)

unfoldable pub days_in_month : ℕ → ℕ → ℕ
days_in_month y m =
    if m == 2
    then (if is_leap y then 29 else 28)
    else if m == 4 || m == 6 || m == 9 || m == 11
    then 30
    else 31

-- `date(year, month, day)`, or nothing where it raises.
unfoldable pub date : ℕ → ℕ → ℕ → Option ℕ
date y m d =
    if leb 1 y && leb y 9999 && leb 1 m && leb m 12 && leb 1 d && leb d (days_in_month y m)
    then some (y * 10000 + m * 100 + d)
    else none

-- `_MONTH_NUMBER`, as rows.
unfoldable pub month_number : List (String × ℕ)
month_number =
    ("january", 1)
    ∷ ("jan", 1)
    ∷ ("gennaio", 1)
    ∷ ("february", 2)
    ∷ ("feb", 2)
    ∷ ("febbraio", 2)
    ∷ ("march", 3)
    ∷ ("mar", 3)
    ∷ ("marzo", 3)
    ∷ ("april", 4)
    ∷ ("apr", 4)
    ∷ ("aprile", 4)
    ∷ ("may", 5)
    ∷ ("maggio", 5)
    ∷ ("june", 6)
    ∷ ("jun", 6)
    ∷ ("giugno", 6)
    ∷ ("july", 7)
    ∷ ("jul", 7)
    ∷ ("luglio", 7)
    ∷ ("august", 8)
    ∷ ("aug", 8)
    ∷ ("agosto", 8)
    ∷ ("september", 9)
    ∷ ("sep", 9)
    ∷ ("settembre", 9)
    ∷ ("october", 10)
    ∷ ("oct", 10)
    ∷ ("ottobre", 10)
    ∷ ("november", 11)
    ∷ ("nov", 11)
    ∷ ("novembre", 11)
    ∷ ("december", 12)
    ∷ ("dec", 12)
    ∷ ("dicembre", 12)
    ∷ []

-- The patterns match only names of the table; any other name gives month 0, which is no date.
unfoldable pub month_of : String → List (String × ℕ) → ℕ
month_of name [] = 0
month_of name ((other, n) ∷ rows) = if str_eq name other then n else month_of name rows

abbrev pub Groups : Type 0
Groups = String × String × String

-- The dates of the matches; a match that is no date is passed over (`except ValueError: continue`).
unfoldable pub dates_of : (Groups → Option ℕ) → List Groups → List ℕ
dates_of read [] = []
dates_of read (g ∷ gs) =
    let rest = dates_of read gs in elim (read g) [ none ↦ rest | some d ↦ d ∷ rest ]

-- `max(dates) if dates else None`
unfoldable pub latest : List ℕ → Option ℕ
latest [] = none
latest (d ∷ ds) = elim (latest ds) [ none ↦ some d | some e ↦ some (max d e) ]

module _ (py : Platform) where
  -- The groups of a match of each of the four patterns, in their order.
  unfoldable pub year_first : Groups → Option ℕ
  year_first (y, m, d) = date (int py y) (int py m) (int py d)

  unfoldable pub day_first : Groups → Option ℕ
  day_first (d, m, y) = date (int py y) (int py m) (int py d)

  unfoldable pub day_named : Groups → Option ℕ
  day_named (d, m, y) = date (int py y) (month_of (py.casefold m) month_number) (int py d)

  unfoldable pub named_day : Groups → Option ℕ
  named_day (m, d, y) = date (int py y) (month_of (py.casefold m) month_number) (int py d)

  unfoldable pub expiry_dates : EmailRecord → List ℕ
  expiry_dates m =
      let text = take_chars 8500 (m.subject <> ("\n" <> m.body_text)) in
      dates_of year_first (py.find_groups "expiry_year_first" text)
      ++ (dates_of day_first (py.find_groups "expiry_day_first" text)
          ++ (dates_of day_named (py.find_groups "expiry_day_named" text)
              ++ dates_of named_day (py.find_groups "expiry_named_day" text)))

  unfoldable pub verified_expiry_date : EmailRecord → Datetime → Result (Option ℕ)
  verified_expiry_date m now = do
    require now.aware "now must include a timezone"
    ok (latest (expiry_dates m))
