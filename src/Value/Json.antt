-- ===== src/Value/Json.antt =====
-- src/library/tools/value/json.cc: a value as JSON. What a report writes is a parameter.
pub mod Faults
use libudjat.Base.{
  ℕ, Bool, true, false, [], ◌∷◌, ◌++◌, ◌==◌, if◌then◌else◌, Bytes, codes, ◌>>=◌, Result, ok,
}
use libudjat.Value.{
  Value, Items, Members, undefined, array, object, text, timestamp, signed, boolean, unsigned,
  state, real, fraction, report, no_items, item, no_members, member,
}
use libudjat.Value.Text.{to_text, Formats, TextError}

unfoldable pub quoted : Bytes → Bytes
quoted s = b'"' ∷ (s ++ b'"' ∷ [])

-- `to_json`; in the loops `sep` is whether something stands before.
unfoldable mutual
  unfolding to_text quoted

  pub to_json : Formats → (ℕ → Bytes) → Value → Result TextError Bytes
  to_json f reports undefined = ok (codes "null")
  to_json f reports (array xs) = do
    inside ← json_items f reports false xs
    ok (b'[' ∷ (inside ++ b']' ∷ []))
  to_json f reports (object ms) = do
    inside ← json_members f reports false ms
    ok (b'{' ∷ (inside ++ b'}' ∷ []))
  to_json f reports (text t s) = do out ← to_text f (text t s); ok (quoted out)
  to_json f reports (timestamp n) = do out ← to_text f (timestamp n); ok (quoted out)
  to_json f reports (state n) = do out ← to_text f (state n); ok (quoted out)
  to_json f reports (signed n) = to_text f (signed n)
  to_json f reports (boolean n) = to_text f (boolean n)
  to_json f reports (unsigned n) = to_text f (unsigned n)
  to_json f reports (real n) = to_text f (real n)
  to_json f reports (fraction n) = to_text f (fraction n)
  to_json f reports (report n) = ok (if n == 0 then codes "[]" else reports n)

  pub json_items : Formats → (ℕ → Bytes) → Bool → Items → Result TextError Bytes
  json_items f reports sep no_items = ok []
  json_items f reports sep (item v xs) = do
    here ← to_json f reports v
    rest ← json_items f reports true xs
    ok ((if sep then b',' ∷ [] else []) ++ (here ++ rest))

  pub json_members : Formats → (ℕ → Bytes) → Bool → Members → Result TextError Bytes
  json_members f reports sep no_members = ok []
  json_members f reports sep (member k v ms) = do
    here ← to_json f reports v
    rest ← json_members f reports true ms
    ok ((if sep then b',' ∷ [] else []) ++ (quoted k ++ (b':' ∷ (here ++ rest))))
