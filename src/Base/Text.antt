-- ===== src/Base/Text.antt =====
-- Python's `str.strip` and `str.lower` on the ASCII characters, over the native texts.
use Prim.Native.Nat.{ℕ, zero, suc, ◌-◌}
use Prim.Native.Char.{Char, code}
use Prim.Native.String.{String, char_at, ◌++◌}
use Prim.Native.String.append
use mathlib.Core.Path.{◌≡◌, refl}
use native.Mathlib.Omega.{arith}
use mathlib.Core.Bool.{Bool, true, false, ◌&&◌, ◌||◌}
use powerbrain.Base.Tests.{nat_beq, leb, str_eq, if◌then◌else◌}

-- `str.isspace` of an ASCII character.
abbrev is_space : ℕ → Bool
is_space c = (leb 9 c && leb c 13) || (leb 28 c && leb c 32)

lstrip_by : (ℕ → Bool) → String → String
lstrip_by p String.[] = ""
lstrip_by p (String.◌∷◌ c s) = if p (code c) then lstrip_by p s else String.◌∷◌ c s

unfoldable pub rstrip_by : (ℕ → Bool) → String → String
rstrip_by p String.[] = ""
rstrip_by p (String.◌∷◌ c s) =
    let r = rstrip_by p s in if str_eq r "" && p (code c) then "" else String.◌∷◌ c r

-- `s.strip(…)` of the characters that pass a test, and `s.strip()`.
unfoldable pub strip_by : (ℕ → Bool) → String → String
unfolding lstrip_by rstrip_by
strip_by p s = rstrip_by p (lstrip_by p s)

unfoldable pub strip : String → String
unfolding strip_by
strip s = strip_by is_space s

-- `s.replace(a, b)` of single characters.
unfoldable pub replace_char : ℕ → Char → String → String
replace_char a b String.[] = ""
replace_char a b (String.◌∷◌ c s) =
    String.◌∷◌ (if nat_beq (code c) a then b else c) (replace_char a b s)

-- `str.lower` of an ASCII character, and of a text of such.
abbrev lower_char : Char → Char
lower_char c =
    if leb 65 (code c) && leb (code c) 90
    then char_at "abcdefghijklmnopqrstuvwxyz" (code c - 65)
    else c

unfoldable pub lower : String → String
lower String.[] = ""
lower (String.◌∷◌ c s) = String.◌∷◌ (lower_char c) (lower s)

-- `s.startswith(p)`
unfoldable pub starts_with : String → String → Bool
starts_with String.[] s = true
starts_with (String.◌∷◌ c p) String.[] = false
starts_with (String.◌∷◌ c p) (String.◌∷◌ d s) = nat_beq (code c) (code d) && starts_with p s

pub starts_with-append : (a b : String) → starts_with a (a ++ b) ≡ true
unfolding starts_with
starts_with-append String.[] b = refl
starts_with-append (String.◌∷◌ c a) b =
    rw (append.cons c a b) (ground (arith, starts_with-append a b))

-- `len(s)`, `s[:n]`, `s[n:]`, `s[a:b]`
unfoldable pub text_length : String → ℕ
text_length String.[] = 0
text_length (String.◌∷◌ c s) = suc (text_length s)

unfoldable pub text_take : ℕ → String → String
text_take zero s = ""
text_take (suc n) String.[] = ""
text_take (suc n) (String.◌∷◌ c s) = String.◌∷◌ c (text_take n s)

unfoldable pub text_drop : ℕ → String → String
text_drop zero s = s
text_drop (suc n) String.[] = ""
text_drop (suc n) (String.◌∷◌ c s) = text_drop n s

unfoldable pub text_slice : ℕ → ℕ → String → String
unfolding text_take text_drop
text_slice a b s = text_take (b - a) (text_drop a s)

-- `f"{s}:{t}"`
abbrev pub with_colon : String → String → String
with_colon s t = s ++ (":" ++ t)
