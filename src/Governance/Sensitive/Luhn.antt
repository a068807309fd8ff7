-- ===== src/Governance/Sensitive/Luhn.antt =====
-- sensitive_data.py: `luhn_valid`, the checksum of payment card numbers.
use Prim.Native.Char.{Char, code}
use Prim.Native.String.append as Append
use mathlib.Core.List.{append_assoc, append-nil}
use supervisor_agent.Base.{
  sym, ℕ, ◌+◌, ◌*◌, ◌-◌, ◌%◌, ◌<◌, ◌≤◌, String, ◌<>◌, Bool, true, false, not, List, [], ◌∷◌, ◌++◌,
  leb, ltb, eqb, if◌then◌else◌, ◌≡◌, ◌&&◌, length, refl, Bool-cases, ◌≢◌, inl, inr, arith,
}

-- `re.sub(r"[^0-9]", "", s)`, as the values `ord(char) - 48`
abbrev pub is_digit : Char → Bool
is_digit c = leb 48 (code c) && leb (code c) 57

unfoldable pub digits_of : String → List ℕ
digits_of String.[] = []
digits_of (String.◌∷◌ c s) =
    let rest = digits_of s in if is_digit c then (code c - 48) ∷ rest else rest

unfoldable pub reversed : List ℕ → List ℕ
reversed [] = []
reversed (d ∷ ds) = reversed ds ++ (d ∷ [])

-- What one digit counts for: every second one is doubled, less 9 above 9.
unfoldable pub weigh : Bool → ℕ → ℕ
weigh doubled number =
    if doubled then (if ltb 9 (number * 2) then number * 2 - 9 else number * 2) else number

unfoldable pub luhn_total : Bool → List ℕ → ℕ
unfolding weigh
luhn_total doubled [] = 0
luhn_total doubled (number ∷ rest) = weigh doubled number + luhn_total (not doubled) rest

unfoldable pub luhn_valid : String → Bool
unfolding digits_of reversed luhn_total
luhn_valid s =
    let digits = digits_of s in
    if leb 13 (length digits) && leb (length digits) 19
    then eqb (luhn_total false (reversed digits) % 10) 0
    else false

digits_of-append : (p s : String) → digits_of (p <> s) ≡ digits_of p ++ digits_of s
unfolding digits_of
digits_of-append String.[] s = rw (Append.nil s) refl
digits_of-append (String.◌∷◌ c p) s =
    let e = digits_of-append p s in
    rw (Append.cons c p s)
      (elim (Bool-cases (is_digit c)) [ inl t ↦ rw t (rw e refl) | inr t ↦ rw t e ])

weigh_injective :
    (doubled : Bool) (a b m n : ℕ)
    → a < 10
    → b < 10
    → (m + (weigh doubled a + n)) % 10 ≡ 0
    → (m + (weigh doubled b + n)) % 10 ≡ 0
    → a ≡ b
unfolding weigh
weigh_injective true a b m n i j h k = ground arith
weigh_injective false a b m n i j h k = omega arith

after : Bool → List ℕ → Bool
after doubled [] = doubled
after doubled (d ∷ ds) = after (not doubled) ds

luhn_total-append :
    (doubled : Bool) (xs ys : List ℕ)
    → luhn_total doubled (xs ++ ys) ≡ luhn_total doubled xs + luhn_total (after doubled xs) ys
unfolding luhn_total after
luhn_total-append doubled [] ys = omega arith
luhn_total-append doubled (x ∷ xs) ys = let e = luhn_total-append (not doubled) xs ys in omega arith

reversed-append : (xs ys : List ℕ) → reversed (xs ++ ys) ≡ reversed ys ++ reversed xs
unfolding reversed
reversed-append [] ys = sym (append-nil (reversed ys))
reversed-append (x ∷ xs) ys =
    let e = reversed-append xs ys in rw e (append_assoc (reversed ys) (reversed xs) (x ∷ []))

-- A digit in its place, between the digits of what stands before it and of what stands after it.
digits_of-at :
    (p s : String) (c : Char)
    → is_digit c ≡ true
    → reversed (digits_of (p <> String.◌∷◌ c s))
      ≡ reversed (digits_of s) ++ ((code c - 48) ∷ reversed (digits_of p))
unfolding reversed digits_of
digits_of-at p s c h = rw (digits_of-append p (String.◌∷◌ c s)) (
    rw (reversed-append (digits_of p) (digits_of (String.◌∷◌ c s)))
      (rw h (append_assoc (reversed (digits_of s)) ((code c - 48) ∷ []) (reversed (digits_of p)))))

luhn_valid-total :
    (s : String) → luhn_valid s ≡ true → luhn_total false (reversed (digits_of s)) % 10 ≡ 0
unfolding luhn_valid
luhn_valid-total s h = ground arith

total_at :
    (p s : String) (c : Char)
    → is_digit c ≡ true
    → luhn_valid (p <> String.◌∷◌ c s) ≡ true
    → (luhn_total false (reversed (digits_of s))
          + (weigh (after false (reversed (digits_of s))) (code c - 48)
              + luhn_total (not (after false (reversed (digits_of s)))) (reversed (digits_of p))))
        % 10
      ≡ 0
unfolding luhn_total
total_at p s c d h =
    let t = luhn_valid-total (p <> String.◌∷◌ c s) h in
    let u = rw (digits_of-at p s c d) at t in
    rw (luhn_total-append false (reversed (digits_of s)) ((code c - 48) ∷ reversed (digits_of p)))
      at u

digit_range : (n : ℕ) → (leb 48 n && leb n 57) ≡ true → (48 ≤ n) × (n < 58)
digit_range n h = (ground arith, ground arith)

below : {n : ℕ} → (48 ≤ n) × (n < 58) → n - 48 < 10
below (i, j) = omega arith

same_digit : (a b : ℕ) → (48 ≤ a) × (a < 58) → (48 ≤ b) × (b < 58) → a - 48 ≡ b - 48 → a ≡ b
same_digit a b (i, j) (k, l) e = omega arith

-- Of two candidates that differ in one digit, and in nothing else, at most one is accepted: a digit
-- misread anywhere in a card number makes the checksum fail.
pub luhn_valid_misread :
    (p s : String) (c d : Char)
    → is_digit c ≡ true
    → is_digit d ≡ true
    → code c ≢ code d
    → luhn_valid (p <> String.◌∷◌ c s) ≡ true
    → luhn_valid (p <> String.◌∷◌ d s) ≡ false
luhn_valid_misread p s c d i j n h = elim (Bool-cases (luhn_valid (p <> String.◌∷◌ d s))) [
  | inr f ↦ f
  | inl t ↦ absurd (
      n (
        same_digit (code c) (code d) (digit_range (code c) i) (digit_range (code d) j) (
          weigh_injective (after false (reversed (digits_of s))) (code c - 48) (code d - 48) _ _
            (below (digit_range (code c) i)) (below (digit_range (code d) j)) (total_at p s c i h)
            (total_at p s d j t))))
]
