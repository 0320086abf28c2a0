-- ===== src/Text/Affix.antt =====
-- string.cc: `has_prefix` and `has_suffix`. A null pointer is `none`.
pub mod Laws
use libudjat.Base.{
  ◌-◌, Bool, true, false, ◌||◌, Option, none, some, [], ◌∷◌, ltb, if◌then◌else◌, Bytes, length,
  drop, bytes_eq, case_eq, ncase_eq, n_eq,
}

-- `!(s && *s)`
abbrev pub is_blank : Option Bytes → Bool
is_blank none = true
is_blank (some []) = true
is_blank (some (c ∷ cs)) = false

abbrev pub bytes_of : Option Bytes → Bytes
bytes_of none = []
bytes_of (some s) = s

unfoldable pub has_prefix : Option Bytes → Option Bytes → Bool → Bool
unfolding n_eq ncase_eq
has_prefix str prefix ignore_case =
    if is_blank str || is_blank prefix
    then false
    else if ignore_case
    then ncase_eq (length (bytes_of prefix)) (bytes_of str) (bytes_of prefix)
    else n_eq (length (bytes_of prefix)) (bytes_of str) (bytes_of prefix)

-- The text from `str + str_len - suffix_len` on.
abbrev pub end_of : Bytes → Bytes → Bytes
end_of str suffix = drop (length str - length suffix) str

unfoldable pub has_suffix : Option Bytes → Option Bytes → Bool → Bool
unfolding bytes_eq case_eq
has_suffix str suffix ignore_case =
    if is_blank str || is_blank suffix
    then false
    else if ltb (length (bytes_of str)) (length (bytes_of suffix))
    then false
    else if ignore_case
    then case_eq (end_of (bytes_of str) (bytes_of suffix)) (bytes_of suffix)
    else bytes_eq (end_of (bytes_of str) (bytes_of suffix)) (bytes_of suffix)
