-- ===== src/Approvals/Dates.antt =====
-- `timestamp` of src/domain/approvals.ts: a text of the shape `TIMESTAMP` that a date prints itself
-- as, which is to say that its month, day and time of day exist.
use codevo_runner.Prelude.{
  ℕ, ◌+◌, ◌-◌, ◌*◌, ◌%◌, Bool, not, ◌&&◌, ◌||◌, List, [], ◌∷◌, leb, ◌==◌, if◌then◌else◌, take, drop,
  Text,
}
use codevo_runner.Contracts.{matches, times}

abbrev digit : ℕ → Bool
digit c = leb b'0' c && leb c b'9'

abbrev is : ℕ → ℕ → Bool
is d c = c == d

abbrev shape : List (ℕ → Bool)
shape = times 4 digit (
    is b'-'
    ∷ times 2 digit (
        is b'-'
        ∷ times 2 digit (
            is b'T'
            ∷ times 2 digit (
                is b':'
                ∷ times 2 digit
                    (is b':' ∷ times 2 digit (is b'.' ∷ times 3 digit (is b'Z' ∷ [])))))))

abbrev decimal : ℕ → Text → ℕ
decimal n [] = n
decimal n (c ∷ cs) = decimal (n * 10 + (c - b'0')) cs

-- The number that the digits from `i` to `i + n` write.
abbrev part : ℕ → ℕ → Text → ℕ
part i n s = decimal 0 (take n (drop i s))

abbrev leap : ℕ → Bool
leap year = year % 4 == 0 && (not (year % 100 == 0) || year % 400 == 0)

abbrev days_in : ℕ → ℕ → ℕ
days_in year month =
    if month == 2
    then (if leap year then 29 else 28)
    else if month == 4 || month == 6 || month == 9 || month == 11
    then 30
    else 31

unfoldable pub is_timestamp : Text → Bool
is_timestamp s =
    matches shape s
    && leb 1 (part 5 2 s)
    && leb (part 5 2 s) 12
    && leb 1 (part 8 2 s)
    && leb (part 8 2 s) (days_in (part 0 4 s) (part 5 2 s))
    && leb (part 11 2 s) 23
    && leb (part 14 2 s) 59
    && leb (part 17 2 s) 59
