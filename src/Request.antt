-- ===== src/Request.antt =====
-- src/library/request/request.cc: the path of a request, which is taken apart one name at a time. The
-- pointers are not null; `argptr` is what is left of the path.
pub mod Pops
mod Examples
use mathlib.Core.Option
use libudjat.Base.{
  ℕ, Bool, true, false, not, ◌||◌, Option, none, some, [], ◌∷◌, ltb, ◌==◌, if◌then◌else◌, Bytes,
  length, get_or, drop, ncase_eq,
}

pub record Request : Type 0 where
  pub reqpath : Bytes
  pub argptr : Bytes

-- `Request(path)`
abbrev pub new_request : Bytes → Request
new_request path = record { reqpath = path; argptr = path }

abbrev pub rewind : Request → Request
rewind r = record r { argptr = r.reqpath }

abbrev pub path : Request → Bytes
path r = r.argptr

abbrev pub is_blank : Bytes → Bool
is_blank [] = true
is_blank (c ∷ cs) = false

-- `has_prefix`
unfoldable pub has_prefix : Bytes → Request → Bool
unfolding ncase_eq
has_prefix prefix r =
    if is_blank prefix || is_blank r.argptr then false else ncase_eq (length prefix) r.argptr prefix

-- The character at a place, and 0 at the end of the text.
abbrev pub char_at : Bytes → ℕ → ℕ
char_at s i = get_or s i 0

-- `pop(prefix)`
unfoldable pub pop_prefix : Bytes → Request → Bool × Request
unfolding has_prefix
pop_prefix prefix r =
    if not (has_prefix prefix r)
    then (false, r)
    else if ltb (length r.argptr) (length prefix) || not (char_at r.argptr (length prefix) == b'/')
    then (false, r)
    else (true, record r { argptr = drop (length prefix) r.argptr })

-- `strchr(s,'/')`: what stands before the first slash and behind it.
unfoldable pub cut_slash : Bytes → Option (Bytes × Bytes)
cut_slash [] = none
cut_slash (c ∷ cs) =
    let rest = Option.map (λ r. (c ∷ r.0, r.1)) (cut_slash cs) in
    if c == b'/' then some ([], cs) else rest

abbrev pub skip_slash : Bytes → Bytes
skip_slash [] = []
skip_slash (c ∷ cs) = if c == b'/' then cs else c ∷ cs

-- The name before the first slash, or all that is left.
abbrev pub taken : Request → Bytes → Option (Bytes × Bytes) → Bytes × Request
taken r s none = (s, record r { argptr = [] })
taken r s (some (name, behind)) = (name, record r { argptr = behind })

-- `pop()`: the next name of the path, which is empty at the end.
abbrev pub popped : Request → Bytes → Bytes × Request
unfolding cut_slash
popped r [] = ([], record r { argptr = [] })
popped r (c ∷ cs) = taken r (c ∷ cs) (cut_slash (c ∷ cs))

unfoldable pub pop : Request → Bytes × Request
unfolding popped
pop r = popped r (skip_slash r.argptr)
