-- ===== src/Disclosure/Dates.antt =====
-- internal/disclosure/app/service.go: `normalizeDate`, with `time.Parse` for its layout.
use Prim.Native.Char.{code}
use cobo_iam_services.Base.{
  ℕ, ◌+◌, ◌-◌, ◌*◌, ◌%◌, String, Bool, false, not, ◌&&◌, ◌||◌, List, [], ◌∷◌, ◌==◌, leb, eqb,
  if◌then◌else◌,
}
use cobo_iam_services.Base.Results.{new_http_error, invalid_request, Result, ok, err}
use cobo_iam_services.GoText.{trim_space}

unfoldable pub codes : String → List ℕ
codes String.[] = []
codes (String.◌∷◌ c s) = code c ∷ codes s

abbrev is_digit : ℕ → Bool
is_digit c = leb b'0' c && leb c b'9'

abbrev two_digits : ℕ → ℕ → ℕ
two_digits a b = (a - b'0') * 10 + (b - b'0')

abbrev is_leap : ℕ → Bool
is_leap year = eqb (year % 4) 0 && (not (eqb (year % 100) 0) || eqb (year % 400) 0)

abbrev days_in : ℕ → ℕ → ℕ
days_in month year =
    if eqb month 2
    then (if is_leap year then 29 else 28)
    else if eqb month 4 || eqb month 6 || eqb month 9 || eqb month 11
    then 30
    else 31

unfoldable pub is_calendar_day : ℕ → ℕ → ℕ → Bool
is_calendar_day year month day =
    leb 1 month && leb month 12 && leb 1 day && leb day (days_in month year)

-- the layout `2006-01-02` on the characters of a text
unfoldable pub is_date_text : List ℕ → Bool
unfolding is_calendar_day
is_date_text (a ∷ b ∷ c ∷ d ∷ dash ∷ m ∷ n ∷ bar ∷ x ∷ y ∷ []) =
    is_digit a
    && is_digit b
    && is_digit c
    && is_digit d
    && eqb dash b'-'
    && is_digit m
    && is_digit n
    && eqb bar b'-'
    && is_digit x
    && is_digit y
    && is_calendar_day (two_digits a b * 100 + two_digits c d) (two_digits m n) (two_digits x y)
is_date_text _ = false

unfoldable pub normalize_date : String → Result String
unfolding codes is_date_text
normalize_date raw =
    let day = trim_space raw in
    if day == ""
    then ok ""
    else if is_date_text (codes day)
    then ok day
    else err (new_http_error 400 invalid_request "planned_date must be YYYY-MM-DD")
