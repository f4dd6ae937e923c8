-- ===== src/Routing/Match/Window.antt =====
-- The time windows of internal/router/router.go. A duration is an `int64` kept as a bit pattern,
-- and `strings.ToLower` is that of ASCII letters.
use mysmpp.Base.{
  ℕ, Bool, List, [], ◌∷◌, Text, codes, false, if◌then◌else◌, leb, ltb, map, nat_eqb, not, text_eqb,
  true, ◌%◌, ◌&&◌, ◌*◌, ◌+◌, ◌-◌, ◌^◌, ◌||◌,
}
use mysmpp.Routing.Types.{Time, TimeWindow}

abbrev to_lower : Text → Text
to_lower = map (λ c. if leb 65 c && leb c 90 then c + 32 else c)

abbrev names_day : Text → Text → Text → Bool
names_day s name short = text_eqb s name || text_eqb s short

-- The day that a name stands for; 7 is no day.
unfoldable pub day_number : Text → ℕ
day_number s =
    if names_day s (codes "sunday") (codes "sun")
    then 0
    else if names_day s (codes "monday") (codes "mon")
    then 1
    else if names_day s (codes "tuesday") (codes "tue")
    then 2
    else if names_day s (codes "wednesday") (codes "wed")
    then 3
    else if names_day s (codes "thursday") (codes "thu")
    then 4
    else if names_day s (codes "friday") (codes "fri")
    then 5
    else if names_day s (codes "saturday") (codes "sat")
    then 6
    else 7

any_day : ℕ → List Text → Bool
unfolding day_number
any_day day [] = false
any_day day (d ∷ ds) = (nat_eqb day (day_number (to_lower d)) && ltb day 7) || any_day day ds

-- `dayMatches`.
unfoldable pub day_matches : ℕ → List Text → Bool
unfolding any_day
day_matches day [] = true
day_matches day (d ∷ ds) = any_day day (d ∷ ds)

-- `atoi`, from the number so far. An `int` has 64 bits.
unfoldable pub atoi_from : ℕ → Text → ℕ
atoi_from n [] = n
atoi_from n (c ∷ s) =
    let rest = atoi_from ((n * 10 + (c - 48)) % 2 ^ 64) s in
    if ltb c 48 || ltb 57 c then 0 else rest

abbrev cons_part : ℕ → List Text → List Text
cons_part c [] = []
cons_part c (p ∷ ps) = (c ∷ p) ∷ ps

-- `strings.Split(value, ":")`.
unfoldable pub split_colon : Text → List Text
split_colon [] = [] ∷ []
split_colon (c ∷ s) =
    let rest = split_colon s in if nat_eqb c 58 then [] ∷ rest else cons_part c rest

abbrev hours : ℕ
hours = 3600000000000

abbrev minutes : ℕ
minutes = 60000000000

clock_parts : List Text → ℕ
unfolding atoi_from
clock_parts (h ∷ m ∷ []) = (atoi_from 0 h * hours + atoi_from 0 m * minutes) % 2 ^ 64
clock_parts _ = 0

-- `clock`.
unfoldable pub clock : Text → ℕ
unfolding clock_parts split_colon
clock value = clock_parts (split_colon value)

-- `a <= b` of two's complement numbers.
abbrev le64 : ℕ → ℕ → Bool
le64 a b = leb ((a + 2 ^ 63) % 2 ^ 64) ((b + 2 ^ 63) % 2 ^ 64)

in_window : Time → TimeWindow → Bool
unfolding day_matches clock
in_window now window =
    let start = clock window.start in
    let end' = clock window.end in
    let cur = now.hour * hours + now.minute * minutes in
    if not (day_matches now.weekday window.days)
    then false
    else if le64 start end'
    then le64 start cur && le64 cur end'
    else le64 start cur || le64 cur end'

-- `inAnyWindow`.
unfoldable pub in_any_window : Time → List TimeWindow → Bool
unfolding in_window
in_any_window now [] = false
in_any_window now (w ∷ ws) = in_window now w || in_any_window now ws
