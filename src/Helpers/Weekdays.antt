-- ===== src/Helpers/Weekdays.antt =====
-- e-util/e-misc-utils.c: the days of the week.
use e_mail_factory.Base.{
  ℕ, zero, suc, ◌+◌, ◌%◌, ◌≡◌, ◌<◌, refl, nat_beq, if◌then◌else◌, Bool, true, false, Option, none,
  some, ℤ, pos, negsuc, arith,
}

-- GDateWeekday
pub data Weekday : Type 0 where
  bad_weekday : Weekday
  monday : Weekday
  tuesday : Weekday
  wednesday : Weekday
  thursday : Weekday
  friday : Weekday
  saturday : Weekday
  sunday : Weekday

-- The value of the enum.
abbrev pub weekday_code : Weekday → ℕ
weekday_code bad_weekday = 0
weekday_code monday = 1
weekday_code tuesday = 2
weekday_code wednesday = 3
weekday_code thursday = 4
weekday_code friday = 5
weekday_code saturday = 6
weekday_code sunday = 7

-- g_date_valid_weekday
abbrev pub is_valid_weekday : Weekday → Bool
is_valid_weekday bad_weekday = false
is_valid_weekday _ = true

-- e_weekday_get_next
unfoldable pub weekday_get_next : Weekday → Weekday
weekday_get_next monday = tuesday
weekday_get_next tuesday = wednesday
weekday_get_next wednesday = thursday
weekday_get_next thursday = friday
weekday_get_next friday = saturday
weekday_get_next saturday = sunday
weekday_get_next sunday = monday
weekday_get_next bad_weekday = bad_weekday

-- e_weekday_get_prev
unfoldable pub weekday_get_prev : Weekday → Weekday
weekday_get_prev monday = sunday
weekday_get_prev tuesday = monday
weekday_get_prev wednesday = tuesday
weekday_get_prev thursday = wednesday
weekday_get_prev friday = thursday
weekday_get_prev saturday = friday
weekday_get_prev sunday = saturday
weekday_get_prev bad_weekday = bad_weekday

-- `while (n_days-- > 0) weekday = move (weekday);`
unfoldable pub repeat_days : (Weekday → Weekday) → ℕ → Weekday → Weekday
repeat_days move zero weekday = weekday
repeat_days move (suc n_days) weekday = repeat_days move n_days (move weekday)

-- e_weekday_add_days
unfoldable pub weekday_add_days : Weekday → ℕ → Weekday
weekday_add_days weekday n_days =
    if is_valid_weekday weekday
    then repeat_days weekday_get_next (n_days % 7) weekday
    else bad_weekday

-- e_weekday_subtract_days
unfoldable pub weekday_subtract_days : Weekday → ℕ → Weekday
weekday_subtract_days weekday n_days =
    if is_valid_weekday weekday
    then repeat_days weekday_get_prev (n_days % 7) weekday
    else bad_weekday

-- The loop of e_weekday_get_days_between, with the rounds that it may still make.
unfoldable pub count_days : ℕ → Weekday → Weekday → ℕ → Option ℕ
count_days zero weekday1 weekday2 n_days = none
count_days (suc fuel) weekday1 weekday2 n_days =
    elim (nat_beq (weekday_code weekday1) (weekday_code weekday2)) [
      | true ↦ some n_days
      | false ↦ count_days fuel (weekday_get_next weekday1) weekday2 (n_days + 1)
    ]

-- e_weekday_get_days_between; seven rounds are enough.
unfoldable pub weekday_get_days_between : Weekday → Weekday → Option ℕ
weekday_get_days_between weekday1 weekday2 =
    if is_valid_weekday weekday1
    then if is_valid_weekday weekday2 then count_days 7 weekday1 weekday2 0 else some 0
    else some 0

-- e_weekday_to_tm_wday
unfoldable pub weekday_to_tm_wday : Weekday → ℤ
weekday_to_tm_wday monday = pos 1
weekday_to_tm_wday tuesday = pos 2
weekday_to_tm_wday wednesday = pos 3
weekday_to_tm_wday thursday = pos 4
weekday_to_tm_wday friday = pos 5
weekday_to_tm_wday saturday = pos 6
weekday_to_tm_wday sunday = pos 0
weekday_to_tm_wday bad_weekday = negsuc 0

-- e_weekday_from_tm_wday
unfoldable pub weekday_from_tm_wday : ℤ → Weekday
weekday_from_tm_wday (pos zero) = sunday
weekday_from_tm_wday (pos (suc zero)) = monday
weekday_from_tm_wday (pos (suc (suc zero))) = tuesday
weekday_from_tm_wday (pos (suc (suc (suc zero)))) = wednesday
weekday_from_tm_wday (pos (suc (suc (suc (suc zero))))) = thursday
weekday_from_tm_wday (pos (suc (suc (suc (suc (suc zero)))))) = friday
weekday_from_tm_wday (pos (suc (suc (suc (suc (suc (suc zero))))))) = saturday
weekday_from_tm_wday (pos (suc (suc (suc (suc (suc (suc (suc n)))))))) = bad_weekday
weekday_from_tm_wday (negsuc n) = bad_weekday

-- What holds of each number below seven.
below_seven : (P : ℕ → Type 0) → P 0 → P 1 → P 2 → P 3 → P 4 → P 5 → P 6 → (n : ℕ) → n < 7 → P n
below_seven P a b c d e f g zero h = a
below_seven P a b c d e f g (suc zero) h = b
below_seven P a b c d e f g (suc (suc zero)) h = c
below_seven P a b c d e f g (suc (suc (suc zero))) h = d
below_seven P a b c d e f g (suc (suc (suc (suc zero)))) h = e
below_seven P a b c d e f g (suc (suc (suc (suc (suc zero))))) h = f
below_seven P a b c d e f g (suc (suc (suc (suc (suc (suc zero)))))) h = g
below_seven P a b c d e f g (suc (suc (suc (suc (suc (suc (suc n))))))) h = absurd (omega arith)

-- Counting the days to the day that is some days on, and going as many back.
abbrev CountsBack : Weekday → ℕ → Type 0
CountsBack weekday n =
    (count_days 7 weekday (repeat_days weekday_get_next n weekday) 0 ≡ some n)
    × (repeat_days weekday_get_prev n (repeat_days weekday_get_next n weekday) ≡ weekday)
    × (is_valid_weekday (repeat_days weekday_get_next n weekday) ≡ true)

-- The same for all numbers below seven.
abbrev Week : Weekday → Type 0
Week d =
    CountsBack d 0
    × CountsBack d 1
    × CountsBack d 2
    × CountsBack d 3
    × CountsBack d 4
    × CountsBack d 5
    × CountsBack d 6

week : (weekday : Weekday) → is_valid_weekday weekday ≡ true → Week weekday
unfolding count_days repeat_days weekday_get_next weekday_get_prev
week bad_weekday valid = absurd (cc)
week _ valid = ground arith

counts_back :
    (weekday : Weekday) (n : ℕ) → is_valid_weekday weekday ≡ true → n < 7 → CountsBack weekday n
counts_back weekday n valid h =
    let w = week weekday valid in below_seven (CountsBack weekday) w.0 w.1 w.2 w.3 w.4 w.5 w.6 n h

-- For each valid day, adding days and subtracting as many gives the day again, and the days between
-- the day and the one that is reached are counted, with no endless loop, as the remainder by 7.
pub weekday_get_days_between-add_days :
    (weekday : Weekday) (n : ℕ)
    → is_valid_weekday weekday ≡ true
    → (weekday_get_days_between weekday (weekday_add_days weekday n) ≡ some (n % 7))
      × (weekday_subtract_days (weekday_add_days weekday n) n ≡ weekday)
unfolding weekday_get_days_between weekday_add_days weekday_subtract_days
weekday_get_days_between-add_days weekday n valid =
    let (counted, back, still) = counts_back weekday (n % 7) valid (omega arith) in
    (rw valid (rw still counted), rw valid (rw still back))

-- The numbering of struct tm and back.
pub weekday_from_tm_wday-to_tm_wday :
    (weekday : Weekday) → weekday_from_tm_wday (weekday_to_tm_wday weekday) ≡ weekday
unfolding weekday_from_tm_wday weekday_to_tm_wday
weekday_from_tm_wday-to_tm_wday bad_weekday = refl
weekday_from_tm_wday-to_tm_wday _ = refl
