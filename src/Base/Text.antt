-- ===== src/Base/Text.antt =====
-- `str` of Rust's library, as far as the modelled code uses it, on the characters of a text.
use Prim.Native.Nat.{ℕ}
use Prim.Native.Char.{Char, code}
use Prim.Native.String.{String, ◌++◌ as ◌<>◌}
use mathlib.Core.Path.{◌≡◌, refl}
use mathlib.Core.Bool.{Bool, true, false, ◌&&◌, ◌||◌}
use mathlib.Core.Option.{Option, none, some}
use mathlib.Core.List.{List, [], ◌∷◌}
use agentverse.Base.Equality.{◌==◌, nat_eq, string_eq, leb, if◌then◌else◌}

between : ℕ → ℕ → ℕ → Bool
between a b n = leb a n && leb n b

-- `char::is_whitespace`: the property White_Space of Unicode
unfoldable pub is_whitespace : Char → Bool
unfolding between
is_whitespace c =
    let n = code c in
    between 9 13 n
    || (n == 32
        || (n == 133
            || (n == 160
                || (n == 5760
                    || (between 8192 8202 n
                        || (between 8232 8233 n || (n == 8239 || (n == 8287 || n == 12288))))))))

unfoldable pub trim_start : String → String
unfolding is_whitespace
trim_start String.[] = String.[]
trim_start (String.◌∷◌ c s) =
    let rest = trim_start s in if is_whitespace c then rest else String.◌∷◌ c s

trim_last : Char → String → String
unfolding is_whitespace
trim_last c String.[] = if is_whitespace c then String.[] else String.◌∷◌ c String.[]
trim_last c (String.◌∷◌ d s) = String.◌∷◌ c (String.◌∷◌ d s)

unfoldable pub trim_end : String → String
unfolding trim_last
trim_end String.[] = String.[]
trim_end (String.◌∷◌ c s) = trim_last c (trim_end s)

unfoldable pub trim : String → String
unfolding trim_start trim_end
trim s = trim_start (trim_end s)

-- `trim().is_empty()`
unfoldable pub is_blank : String → Bool
unfolding trim
is_blank s = trim s == ""

unfoldable pub strip_prefix : String → String → Option String
strip_prefix String.[] s = some s
strip_prefix (String.◌∷◌ p ps) String.[] = none
strip_prefix (String.◌∷◌ p ps) (String.◌∷◌ c s) =
    let rest = strip_prefix ps s in if code p == code c then rest else none

unfoldable pub starts_with : String → String → Bool
starts_with String.[] s = true
starts_with (String.◌∷◌ p ps) String.[] = false
starts_with (String.◌∷◌ p ps) (String.◌∷◌ c s) = code p == code c && starts_with ps s

-- a line less the carriage return at its end
drop_cr : String → String
drop_cr String.[] = String.[]
drop_cr (String.◌∷◌ c String.[]) = if code c == 13 then String.[] else String.◌∷◌ c String.[]
drop_cr (String.◌∷◌ c (String.◌∷◌ d s)) = String.◌∷◌ c (drop_cr (String.◌∷◌ d s))

last_line : String → List String
last_line String.[] = []
last_line (String.◌∷◌ c s) = String.◌∷◌ c s ∷ []

cut_lines : String → String → List String
unfolding drop_cr last_line
cut_lines line String.[] = last_line line
cut_lines line (String.◌∷◌ c s) = elim (code c == 10) [
  | true ↦ drop_cr line ∷ cut_lines "" s
  | false ↦ cut_lines (line <> String.◌∷◌ c String.[]) s
]

unfoldable pub lines : String → List String
unfolding cut_lines
lines s = cut_lines "" s

lines_test : lines "a\r\n\nb c" ≡ "a" ∷ "" ∷ "b c" ∷ []
unfolding lines nat_eq
lines_test = refl

trim_test : trim "  a b \n" ≡ "a b"
unfolding trim nat_eq
trim_test = refl

unfoldable pub reverse_onto {ℓ} : {A : Type ℓ} → List A → List A → List A
reverse_onto [] ys = ys
reverse_onto (x ∷ xs) ys = reverse_onto xs (x ∷ ys)
