-- ===== src/Matching/Text.antt =====
-- The operations of `str` and `re` that backend/app/matching uses, on ASCII text. A text is the
-- list of its codes.
use Prim.Native.Char.{code}
use Prim.Native.String.{String}
use procure_foundation.Prelude.{
  ℕ, zero, suc, ◌+◌, ◌-◌, ◌/◌, ◌%◌, ltb, ◌≡◌, refl, Bool, true, false, ◌&&◌, ◌||◌, List, [], ◌∷◌,
  ◌++◌, map, ◌==◌, leb, if◌then◌else◌, arith,
}

abbrev pub Text : Type 0
Text = List ℕ

abbrev pub codes : String → Text
codes String.[] = []
codes (String.◌∷◌ c s) = code c ∷ codes s

abbrev pub space : ℕ
space = 32

unfoldable pub is_upper : ℕ → Bool
is_upper c = leb b'A' c && leb c b'Z'

unfoldable pub is_lower : ℕ → Bool
is_lower c = leb b'a' c && leb c b'z'

unfoldable pub is_digit : ℕ → Bool
is_digit c = leb b'0' c && leb c b'9'

-- `[a-zA-Z]`
unfoldable pub is_letter : ℕ → Bool
unfolding is_lower is_upper
is_letter c = is_lower c || is_upper c

-- `\w`
unfoldable pub is_word : ℕ → Bool
unfolding is_letter is_digit
is_word c = is_letter c || is_digit c || c == b'_'

-- `\s`, and what `strip` takes off
unfoldable pub is_space : ℕ → Bool
is_space c = (leb 9 c && leb c 13) || (leb 28 c && leb c 32)

unfoldable pub to_lower : ℕ → ℕ
unfolding is_upper
to_lower c = if is_upper c then c + 32 else c

unfoldable pub to_upper : ℕ → ℕ
unfolding is_lower
to_upper c = if is_lower c then c - 32 else c

unfoldable pub lower : Text → Text
unfolding to_lower
lower = map to_lower

unfoldable pub upper : Text → Text
unfolding to_upper
upper = map to_upper

unfoldable pub eq_text : Text → Text → Bool
eq_text [] [] = true
eq_text [] (d ∷ t) = false
eq_text (c ∷ s) [] = false
eq_text (c ∷ s) (d ∷ t) = (c == d) && eq_text s t

abbrev pub is_empty {ℓ} : {A : Type ℓ} → List A → Bool
is_empty [] = true
is_empty (c ∷ t) = false

unfoldable pub lstrip : Text → Text
unfolding is_space
lstrip [] = []
lstrip (c ∷ t) = let rest = lstrip t in if is_space c then rest else c ∷ t

unfoldable pub rstrip : Text → Text
unfolding is_space
rstrip [] = []
rstrip (c ∷ t) = let rest = rstrip t in if is_space c && is_empty rest then [] else c ∷ rest

unfoldable pub strip : Text → Text
unfolding lstrip rstrip
strip t = rstrip (lstrip t)

abbrev pub prepend : ℕ → List Text → List Text
prepend c [] = (c ∷ []) ∷ []
prepend c (w ∷ ws) = (c ∷ w) ∷ ws

-- `t.split(" ")`: one piece more than there are spaces.
unfoldable pub split : Text → List Text
split [] = [] ∷ []
split (c ∷ t) = let rest = split t in if c == space then [] ∷ rest else prepend c rest

-- `" ".join(ws)`
unfoldable pub join : List Text → Text
join [] = []
join (w ∷ []) = w
join (w ∷ v ∷ ws) = w ++ space ∷ join (v ∷ ws)

-- `w in ws`
unfoldable pub contains : List Text → Text → Bool
unfolding eq_text
contains [] w = false
contains (v ∷ ws) w = eq_text v w || contains ws w

-- `str(n)` of a natural number, on fuel; there are at most as many digits as the number counts, and
-- one more.
unfoldable pub digits : ℕ → ℕ → Text
digits zero n = []
digits (suc fuel) n =
    let front = digits fuel (n / 10) in
    if ltb n 10 then (b'0' + n) ∷ [] else front ++ (b'0' + n % 10) ∷ []

unfoldable pub str_of : ℕ → Text
unfolding digits
str_of n = digits (suc n) n

pub eq_text_refl : (t : Text) → eq_text t t ≡ true
unfolding eq_text
eq_text_refl [] = refl
eq_text_refl (c ∷ t) = ground (arith, eq_text_refl t)

pub eq_text→eq : (s t : Text) → eq_text s t ≡ true → s ≡ t
unfolding eq_text
eq_text→eq [] [] h = refl
eq_text→eq [] (d ∷ t) h = cc
eq_text→eq (c ∷ s) [] h = cc
eq_text→eq (c ∷ s) (d ∷ t) h = ground (arith, eq_text→eq s t)
