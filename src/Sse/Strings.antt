-- ===== src/Sse/Strings.antt =====
-- `str.strip` of Python, which providers/openai_compat.py and
-- core/anthropic/stream_contracts.py call.
use bailian_free_claude_code.Base.{
  String, Bool, ◌&&◌, ◌||◌, leb, if◌then◌else◌, ◌==◌, nat_eq, string_eq,
}
use Prim.Native.Char.{Char, code}
use Prim.Native.String.{String as Text}

-- The characters that `str.strip` removes.
abbrev is_space : Char → Bool
is_space c =
    let n = code c in
    n == 32
    || (leb 9 n && leb n 13)
    || (leb 28 n && leb n 31)
    || n == 133
    || n == 160
    || n == 5760
    || (leb 8192 n && leb n 8202)
    || n == 8232
    || n == 8233
    || n == 8239
    || n == 8287
    || n == 12288

lstrip : String → String
lstrip Text.[] = ""
lstrip (Text.◌∷◌ c s) = let rest = lstrip s in if is_space c then rest else Text.◌∷◌ c s

rstrip : String → String
rstrip Text.[] = ""
rstrip (Text.◌∷◌ c s) =
    let rest = rstrip s in if is_space c && rest == "" then "" else Text.◌∷◌ c rest

unfoldable pub strip : String → String
unfolding lstrip rstrip
strip s = rstrip (lstrip s)
