-- ===== src/Tests/Utilities.antt =====
-- e-util/e-misc-utils.c: a search for 3 in an array of 1, 3, 3 and 5, days of the week and a label.
use e_mail_factory.Base.{ℕ, ◌≡◌, refl, codes, ltb, if◌then◌else◌, some, arith}
use e_mail_factory.Helpers.Search.{
  Comparison, before, equal, after, is_not_after, is_before, bisect, both_ends, search_loop,
  bsearch,
}
use e_mail_factory.Helpers.Bounds.{Splits, Rises, bsearch-Splits}
use e_mail_factory.Helpers.Weekdays.{
  friday, monday, weekday_get_next, repeat_days, weekday_add_days,
}
use e_mail_factory.Helpers.Mnemonics.{str_without_underscores}

abbrev compare_three : ℕ → Comparison
compare_three i = if ltb i 1 then after else if ltb i 3 then equal else before

falls : Rises is_not_after compare_three 4
falls i j le lt h = ground arith

climbs : Rises is_before compare_three 4
climbs i j le lt h = ground arith

bsearch-Splits_example :
    (start : ℕ) × (end : ℕ) × (bsearch compare_three 4 ≡ some (start, end))
    × Splits is_not_after compare_three 4 start
    × Splits is_before compare_three 4 end
bsearch-Splits_example = bsearch-Splits compare_three 4 (omega arith) falls climbs

bsearch_test : bsearch compare_three 4 ≡ some (1, 3)
unfolding bsearch search_loop both_ends bisect
bsearch_test = refl

weekday_test : weekday_add_days friday 10 ≡ monday
unfolding weekday_add_days repeat_days weekday_get_next
weekday_test = refl

label_test : str_without_underscores (codes "Save__as _file_") ≡ codes "Save_as file"
unfolding str_without_underscores
label_test = refl
