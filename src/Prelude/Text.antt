-- ===== src/Prelude/Text.antt =====
-- The text operations of Python that the program uses. `lower` and `strip` know the ASCII letters and
-- the ASCII white space, `repr` escapes the quote, the backslash and the line and tab characters.
use Prim.Native.Nat.{ℕ, zero, suc, ◌+◌, ◌/◌, ◌%◌}
use Prim.Native.Char.{Char, code}
use Prim.Native.String.{String, slice, ◌++◌ as append}
use mathlib.Core.Bool.{Bool, true, false, ◌&&◌, ◌||◌, not}
use mathlib.Core.List.{List, [], ◌∷◌, map, reverse}
use planner_critic_engine.Prelude.Tests.{ltb, leb, if◌then◌else◌}
use planner_critic_engine.Prelude.Equality.{◌==◌, nat_eq}

-- An f-string, or a sum of texts, by its parts.
abbrev pub text : List String → String
text [] = ""
text (s ∷ l) = append s (text l)

-- `sep.join(l)`
unfoldable pub join : String → List String → String
join sep [] = ""
join sep (s ∷ []) = s
join sep (s ∷ t ∷ l) = append s (append sep (join sep (t ∷ l)))

digit : ℕ → String
digit d = slice "0123456789" d (d + 1)

-- The fuel is one more than the number, and each round divides the number by ten.
decimal : ℕ → ℕ → String
decimal zero n = ""
decimal (suc fuel) n =
    let front = decimal fuel (n / 10) in if ltb n 10 then digit n else append front (digit (n % 10))

-- `str(n)`
unfoldable pub str : ℕ → String
unfolding decimal digit
str n = decimal (suc n) n

-- `str(b)`
abbrev pub str_bool : Bool → String
str_bool true = "True"
str_bool false = "False"

-- `s[n:]`
abbrev pub drop_chars : ℕ → String → String
drop_chars zero s = s
drop_chars (suc n) String.[] = ""
drop_chars (suc n) (String.◌∷◌ c s) = drop_chars n s

-- The code points of a text.
abbrev pub codes : String → List ℕ
codes String.[] = []
codes (String.◌∷◌ c s) = code c ∷ codes s

lower_code : ℕ → ℕ
lower_code c = if leb 65 c && leb c 90 then c + 32 else c

-- `s.lower()`, as code points
unfoldable pub lower : List ℕ → List ℕ
unfolding lower_code
lower = map lower_code

is_space : ℕ → Bool
is_space c = c == 32 || (leb 9 c && leb c 13) || (leb 28 c && leb c 31)

drop_spaces : List ℕ → List ℕ
drop_spaces [] = []
drop_spaces (c ∷ l) = let rest = drop_spaces l in if is_space c then rest else c ∷ l

-- `s.strip()`
unfoldable pub strip : List ℕ → List ℕ
unfolding drop_spaces is_space
strip l = reverse (drop_spaces (reverse (drop_spaces l)))

-- `s.startswith(t)`
unfoldable pub starts_with : List ℕ → List ℕ → Bool
starts_with s [] = true
starts_with [] (c ∷ t) = false
starts_with (b ∷ s) (c ∷ t) = b == c && starts_with s t

-- `t in s`
unfoldable pub occurs_in : List ℕ → List ℕ → Bool
unfolding starts_with
occurs_in t [] = starts_with [] t
occurs_in t (c ∷ s) = starts_with (c ∷ s) t || occurs_in t s

escape : ℕ → Char → String
escape quote c =
    if code c == 92
    then "\\\\"
    else if code c == quote
    then append "\\" (String.◌∷◌ c String.[])
    else if code c == 10
    then "\\n"
    else if code c == 13
    then "\\r"
    else if code c == 9
    then "\\t"
    else String.◌∷◌ c String.[]

escape_all : ℕ → String → String
escape_all quote String.[] = ""
escape_all quote (String.◌∷◌ c s) = append (escape quote c) (escape_all quote s)

-- `repr(s)`: the double quote is used where the text has a single quote and no double one.
unfoldable pub repr : String → String
unfolding escape escape_all occurs_in
repr s =
    if occurs_in (39 ∷ []) (codes s) && not (occurs_in (34 ∷ []) (codes s))
    then append "\"" (append (escape_all 34 s) "\"")
    else append "'" (append (escape_all 39 s) "'")

-- `repr` of a list of texts
unfoldable pub repr_list : List String → String
unfolding repr join
repr_list l = text ("[" ∷ join ", " (map repr l) ∷ "]" ∷ [])
