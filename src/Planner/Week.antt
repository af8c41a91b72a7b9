-- ===== src/Planner/Week.antt =====
-- frontend/src/features/planner/planner-calendar.tsx: the two weeks that the calendar shows. A day is
-- its number from a day long ago that was a Thursday, as the first of January 1970.
use enterprise_crm.Common.{
  ◌≡◌, ℕ, zero, suc, ◌+◌, ◌-◌, ◌%◌, ◌≤◌, ◌<◌, List, [], ◌∷◌, if◌then◌else◌, ◌&&◌, leb, ltb, eqb,
  arith, filter, length,
}
use enterprise_crm.Language.{AppLocale, english, persian, is_persian}

-- `getDay`: Sunday is 0.
unfoldable pub day_of_week : ℕ → ℕ
day_of_week day = (day + 4) % 7

abbrev pub week_starts_on : AppLocale → ℕ
week_starts_on locale = if is_persian locale then 6 else 1

unfoldable pub start_of_business_week : AppLocale → ℕ → ℕ
unfolding day_of_week
start_of_business_week locale value = value - (day_of_week value + 7 - week_starts_on locale) % 7

-- `days`: so many days from `start` on.
unfoldable pub days_from : ℕ → ℕ → List ℕ
days_from zero start = []
days_from (suc n) start = start ∷ days_from n (suc start)

abbrev pub fourteen_days : AppLocale → ℕ → List ℕ
fourteen_days locale now = days_from 14 (start_of_business_week locale now)

length-filter-days_from :
    (n start day : ℕ)
    → length (filter (λ shown. eqb shown day) (days_from n start))
      ≡ (if leb start day && ltb day (start + n) then 1 else 0)
unfolding days_from filter
length-filter-days_from zero start day = ground arith
length-filter-days_from (suc n) start day =
    ground (arith, length-filter-days_from n (suc start) day)

-- For a day from the seventh on, the calendar begins on the day that the language's weeks begin on,
-- not more than six days ago, and shows each day of the two weeks from there once, and no other day.
pub fourteen_days-once :
    (locale : AppLocale) (now day : ℕ)
    → 7 ≤ now
    → (day_of_week (start_of_business_week locale now) ≡ week_starts_on locale)
      × (start_of_business_week locale now ≤ now)
      × (now < start_of_business_week locale now + 7)
      × (length (filter (λ shown. eqb shown day) (fourteen_days locale now)) ≡ (
          if leb (start_of_business_week locale now) day
            && ltb day (start_of_business_week locale now + 14)
          then 1
          else 0))
unfolding start_of_business_week day_of_week
fourteen_days-once english now day h =
    (omega arith, omega arith, omega arith, length-filter-days_from 14 _ day)
fourteen_days-once persian now day h =
    (omega arith, omega arith, omega arith, length-filter-days_from 14 _ day)
