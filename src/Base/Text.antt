-- ===== src/Base/Text.antt =====
-- What the source uses of Python's `str`: strip, rstrip, lower, slices, `in`, number formats.
use Prim.Native.Nat.{ℕ, zero, suc, ◌+◌, ◌-◌, ◌*◌, ◌/◌, ◌%◌}
use Prim.Native.Char.{Char, code}
use Prim.Native.String.{String, char_at, ◌++◌}
use mathlib.Core.Bool.{Bool, true, false, ◌&&◌, ◌||◌}
use mathlib.Core.Option.{Option, none, some}
use mathlib.Core.List.{List, [], ◌∷◌}
use text.Mathlib.Text.{find?}
use supervisor_agent.Base.Tests.{leb, ltb, eqb, if◌then◌else◌}
use supervisor_agent.Base.Casing.{wide_lower}

-- Whether a text is non-empty: its truth value.
abbrev pub truthy : String → Bool
truthy String.[] = false
truthy (String.◌∷◌ c s) = true

-- `a or b` on texts
abbrev pub or_text : String → String → String
or_text a b = if truthy a then a else b

-- The code points that `str.isspace` accepts.
unfoldable pub is_space : ℕ → Bool
is_space c =
    (leb 9 c && leb c 13)
    || (leb 28 c && leb c 32)
    || eqb c 133
    || eqb c 160
    || eqb c 5760
    || (leb 8192 c && leb c 8202)
    || eqb c 8232
    || eqb c 8233
    || eqb c 8239
    || eqb c 8287
    || eqb c 12288

module _ (drop_it : ℕ → Bool) where
  -- Removal of the leading and of the trailing characters that a test accepts.
  unfoldable pub lstrip_by : String → String
  lstrip_by String.[] = String.[]
  lstrip_by (String.◌∷◌ c s) = if drop_it (code c) then lstrip_by s else String.◌∷◌ c s

  unfoldable pub rstrip_by : String → String
  rstrip_by String.[] = String.[]
  rstrip_by (String.◌∷◌ c s) =
      let rest = rstrip_by s in
      if drop_it (code c)
      then (if truthy rest then String.◌∷◌ c rest else String.[])
      else String.◌∷◌ c rest

unfoldable pub strip : String → String
unfolding is_space lstrip_by rstrip_by
strip s = rstrip_by is_space (lstrip_by is_space s)

unfoldable pub rstrip : String → String
unfolding is_space rstrip_by
rstrip s = rstrip_by is_space s

-- `str.lower`: one character of İ gives two. That the last sigma of a word becomes ς is left out:
-- every Σ becomes σ.
abbrev lower_char : Char → String → String
lower_char c rest =
    if leb 65 (code c) && leb (code c) 90
    then String.◌∷◌ (char_at "abcdefghijklmnopqrstuvwxyz" (code c - 65)) rest
    else if ltb (code c) 128
    then String.◌∷◌ c rest
    else if eqb (code c) 304
    then "i̇" ++ rest
    else String.◌∷◌ (wide_lower c) rest

unfoldable pub lower : String → String
lower String.[] = String.[]
lower (String.◌∷◌ c s) = lower_char c (lower s)

-- `str.upper`, on the ASCII letters
abbrev upper_char : Char → Char
upper_char c =
    if leb 97 (code c) && leb (code c) 122
    then char_at "ABCDEFGHIJKLMNOPQRSTUVWXYZ" (code c - 97)
    else c

unfoldable pub upper : String → String
upper String.[] = String.[]
upper (String.◌∷◌ c s) = String.◌∷◌ (upper_char c) (upper s)

-- `str.upper` of the first character, on the ASCII letters
unfoldable pub upper_first : String → String
upper_first String.[] = String.[]
upper_first (String.◌∷◌ c s) = String.◌∷◌ (upper_char c) s

-- `s.replace(c, t)` for a one-character text
unfoldable pub replace_char : ℕ → String → String → String
replace_char c t String.[] = String.[]
replace_char c t (String.◌∷◌ d s) =
    if eqb (code d) c then t ++ replace_char c t s else String.◌∷◌ d (replace_char c t s)

-- `s[:n]`
unfoldable pub prefix : String → ℕ → String
prefix s zero = String.[]
prefix String.[] (suc n) = String.[]
prefix (String.◌∷◌ c s) (suc n) = String.◌∷◌ c (prefix s n)

-- `s[n:]`
unfoldable pub drop_prefix : String → ℕ → String
drop_prefix s zero = s
drop_prefix String.[] (suc n) = String.[]
drop_prefix (String.◌∷◌ c s) (suc n) = drop_prefix s n

-- `needle in text`
abbrev pub is_in : String → String → Bool
is_in needle text = elim (find? text needle) [ none ↦ false | some i ↦ true ]

-- The last code point, for tests such as `text[-1] in ".!?"`.
unfoldable pub last_code : String → Option ℕ
last_code String.[] = none
last_code (String.◌∷◌ c s) = elim (last_code s) [ none ↦ some (code c) | some d ↦ some d ]

-- `str.split()`: the words between white space. The second argument is the word being read,
-- newest character first.
push_word : String → List String → List String
push_word w ws = if truthy w then w ∷ ws else ws

snoc : String → Char → String
snoc s c = s ++ String.◌∷◌ c String.[]

split_from : String → String → List String
split_from w String.[] = push_word w []
split_from w (String.◌∷◌ c s) =
    if is_space (code c)
    then (let rest = split_from String.[] s in push_word w rest)
    else (let rest = split_from (snoc w c) s in rest)

unfoldable pub split : String → List String
unfolding split_from push_word snoc is_space
split s = split_from String.[] s

-- `sep.join(parts)`
unfoldable pub join : String → List String → String
join sep [] = ""
join sep (s ∷ []) = s
join sep (s ∷ ss) = s ++ (sep ++ join sep ss)

-- `str(n)`: the decimal digits, with as much fuel as the number.
digit : ℕ → String
digit d = String.◌∷◌ (char_at "0123456789" d) String.[]

digits_from : ℕ → ℕ → String
digits_from zero n = digit (n % 10)
digits_from (suc fuel) n =
    let rest = digits_from fuel (n / 10) in if ltb n 10 then digit n else rest ++ digit (n % 10)

unfoldable pub decimal : ℕ → String
unfolding digits_from digit
decimal n = digits_from n n

-- A number of thousandths, rounded half to even to a whole number: `f"{x:.0f}"`.
unfoldable pub round_thousandths : ℕ → ℕ
round_thousandths m =
    let q = m / 1000 in
    let r = m % 1000 in if ltb 500 r then q + 1 else if eqb r 500 then q + q % 2 else q

unfoldable pub fixed0 : ℕ → String
fixed0 m = decimal (round_thousandths m)

-- A number of thousandths to one place: `f"{x:.1f}"`.
unfoldable pub fixed1 : ℕ → String
fixed1 m = let t = round_thousandths (m * 10) in decimal (t / 10) ++ ("." ++ decimal (t % 10))

-- A number of thousandths to two places: `f"{x:.2f}"`.
unfoldable pub fixed2 : ℕ → String
fixed2 m =
    let t = round_thousandths (m * 100) in
    decimal (t / 100) ++ ("." ++ (decimal (t / 10 % 10) ++ decimal (t % 10)))
