-- ===== src/Text.antt =====
-- What the program asks of a `str` beside equality: blank texts (`trim().is_empty()`), white space
-- (`char::is_whitespace`, the Unicode property White_Space) and prefixes (`strip_prefix`).
use Prim.Native.Char.{code}
use Prim.Native.String.{len, slice, char_at}
use text.Mathlib.Text.{starts_with}
use spark_x_distributed_quer.Base.{
  ℕ, ◌-◌, String, Bool, true, false, ◌&&◌, ◌||◌, Option, none, some, leb, ◌==◌, if◌then◌else◌,
}

unfoldable pub is_whitespace : ℕ → Bool
is_whitespace c =
    leb 0x09 c && leb c 0x0d
    || c == 0x20
    || c == 0x85
    || c == 0xa0
    || c == 0x1680
    || leb 0x2000 c && leb c 0x200a
    || c == 0x2028
    || c == 0x2029
    || c == 0x202f
    || c == 0x205f
    || c == 0x3000

-- `trim().is_empty()`
unfoldable pub is_blank : String → Bool
unfolding is_whitespace
is_blank String.[] = true
is_blank (String.◌∷◌ c s) = is_whitespace (code c) && is_blank s

-- `chars().any(char::is_whitespace)`
unfoldable pub any_whitespace : String → Bool
unfolding is_whitespace
any_whitespace String.[] = false
any_whitespace (String.◌∷◌ c s) = is_whitespace (code c) || any_whitespace s

unfoldable pub strip_prefix : String → String → Option String
strip_prefix prefix s = if starts_with s prefix then some (slice s (len prefix) (len s)) else none

-- `to_ascii_lowercase`
unfoldable pub to_ascii_lowercase : String → String
to_ascii_lowercase String.[] = String.[]
to_ascii_lowercase (String.◌∷◌ c s) =
    String.◌∷◌
      (if leb b'A' (code c) && leb (code c) b'Z'
        then char_at "abcdefghijklmnopqrstuvwxyz" (code c - b'A')
        else c)
      (to_ascii_lowercase s)
