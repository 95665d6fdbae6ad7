-- ===== src/Bus/Text.antt =====
-- What internal/bus uses of Go's `strings` and `unicode` packages: `TrimSpace`, `ToLower` as far as
-- ASCII goes, and the checks of an identifier. A text is its characters; its length is in bytes.
use Prim.Native.String.{len}
use holler.Prelude.{
  ℕ, ◌+◌, Bool, true, false, ◌&&◌, ◌||◌, String, Char, code, ltb, leb, eqb, if◌then◌else◌, ◌≡◌,
  ◌==◌, arith,
}
use holler.Bus.Result.{Result, reject, validation, too_long, ◌>>◌}

-- unicode.IsSpace
unfoldable pub is_space : Char → Bool
is_space c =
    let n = code c in
    (leb 9 n && leb n 13)
    || eqb n 32
    || eqb n 0x85
    || eqb n 0xa0
    || eqb n 0x1680
    || (leb 0x2000 n && leb n 0x200a)
    || eqb n 0x2028
    || eqb n 0x2029
    || eqb n 0x202f
    || eqb n 0x205f
    || eqb n 0x3000

abbrev pub is_empty : String → Bool
is_empty String.[] = true
is_empty (String.◌∷◌ c s) = false

unfoldable pub trim_left : String → String
trim_left String.[] = String.[]
trim_left (String.◌∷◌ c s) = let rest = trim_left s in if is_space c then rest else String.◌∷◌ c s

unfoldable pub trim_right : String → String
trim_right String.[] = String.[]
trim_right (String.◌∷◌ c s) =
    let rest = trim_right s in if is_space c && is_empty rest then String.[] else String.◌∷◌ c rest

-- strings.TrimSpace
unfoldable pub trim_space : String → String
unfolding trim_left trim_right is_space
trim_space s = trim_right (trim_left s)

-- `for _, char := range value { if char < 0x20 || char == 0x7f`
unfoldable pub has_control : String → Bool
has_control String.[] = false
has_control (String.◌∷◌ c s) =
    let rest = has_control s in (ltb (code c) 0x20 || eqb (code c) 0x7f) || rest

unfoldable pub validate_text_identifier : String → String → ℕ → Result (Unit {0})
validate_text_identifier name value max = do
  reject (ltb max (len value)) (too_long name max)
  reject (has_control value) (validation name "contains control characters")

-- The ASCII letters alone are lowered: no other character has one of "human:" for its lower case.
abbrev pub lower_is : ℕ → Char → Bool
lower_is n c = eqb (code c) n || (leb 97 n && leb n 122 && eqb (code c + 32) n)

-- strings.HasPrefix(strings.ToLower(value), "human:")
unfoldable pub starts_human : String → Bool
starts_human
      (String.◌∷◌ h (String.◌∷◌ u (String.◌∷◌ m (String.◌∷◌ a (String.◌∷◌ n (String.◌∷◌ c s)))))) =
    lower_is b'h' h
    && lower_is b'u' u
    && lower_is b'm' m
    && lower_is b'a' a
    && lower_is b'n' n
    && lower_is b':' c
starts_human _ = false

unfoldable pub is_human_actor : String → Bool
unfolding starts_human trim_space
is_human_actor actor = starts_human (trim_space actor)

-- Texts that the test finds equal are equal.
pub same_text-equal : (s t : String) → (s == t) ≡ true → s ≡ t
same_text-equal s t h = ground arith
