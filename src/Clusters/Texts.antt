-- ===== src/Clusters/Texts.antt =====
-- `str::contains`, `split('@').nth(1)`, `strip_suffix` and `eq_ignore_ascii_case`, as
-- src/controllers/restatecluster/reconcilers/ uses them.
use Prim.Native.Char.{Char, code}
use restate_operator.Base.{
  ℕ, ◌+◌, ◌==◌, leb, Bool, true, false, ◌&&◌, ◌||◌, String, Option, none, some, str_eq,
  if◌then◌else◌,
}

abbrev starts_with : String → String → Bool
starts_with String.[] s = true
starts_with (String.◌∷◌ c p) String.[] = false
starts_with (String.◌∷◌ c p) (String.◌∷◌ d s) = code c == code d && starts_with p s

unfoldable pub contains : String → String → Bool
contains part String.[] = starts_with part ""
contains part (String.◌∷◌ c s) = starts_with part (String.◌∷◌ c s) || contains part s

-- The text up to the first `@`.
unfoldable pub before_at : String → String
before_at String.[] = ""
before_at (String.◌∷◌ c s) =
    let rest = before_at s in if code c == b'@' then "" else String.◌∷◌ c rest

-- The second part of a text that is split at each `@`.
unfoldable pub second_part : String → Option String
unfolding before_at
second_part String.[] = none
second_part (String.◌∷◌ c s) =
    let rest = second_part s in if code c == b'@' then some (before_at s) else rest

abbrev prepend : Char → Option String → Option String
prepend c none = none
prepend c (some s) = some (String.◌∷◌ c s)

unfoldable pub strip_suffix : String → String → Option String
strip_suffix suffix String.[] = if str_eq "" suffix then some "" else none
strip_suffix suffix (String.◌∷◌ c s) =
    let rest = prepend c (strip_suffix suffix s) in
    if str_eq (String.◌∷◌ c s) suffix then some "" else rest

abbrev to_ascii_lowercase : ℕ → ℕ
to_ascii_lowercase c = if leb b'A' c && leb c b'Z' then c + 32 else c

unfoldable pub eq_ignore_ascii_case : String → String → Bool
eq_ignore_ascii_case String.[] String.[] = true
eq_ignore_ascii_case (String.◌∷◌ c s) (String.◌∷◌ d t) =
    to_ascii_lowercase (code c) == to_ascii_lowercase (code d) && eq_ignore_ascii_case s t
eq_ignore_ascii_case _ _ = false
