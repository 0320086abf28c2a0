-- ===== src/Value/Yaml.antt =====
-- src/library/tools/value/yaml.cc: a value as YAML.
-- What a report writes is a parameter. What is put out before an exception is not modelled.
use libudjat.Base.{
  ℕ, zero, suc, ◌+◌, [], ◌∷◌, ◌++◌, ◌==◌, if◌then◌else◌, Bytes, codes, ◌>>=◌, Result, ok,
}
use libudjat.Value.{
  Value, Items, Members, undefined, array, object, text, timestamp, signed, boolean, unsigned,
  state, real, fraction, report, no_items, item, no_members, member,
}
use libudjat.Value.Text.{to_text, Formats, TextError}

-- `spaces.resize(left_margin,' ')`
abbrev pub spaces : ℕ → Bytes
spaces zero = []
spaces (suc n) = b' ' ∷ spaces n

abbrev pub start_line : ℕ → Bytes
start_line margin = if margin == 0 then [] else b'\n' ∷ []

-- The texts of a scalar: bare, and in quotes.
abbrev pub bare : Result TextError Bytes → Result TextError Bytes
bare r = do s ← r; ok (b' ' ∷ (s ++ b'\n' ∷ []))

abbrev pub in_quotes : Result TextError Bytes → Result TextError Bytes
in_quotes r = do s ← r; ok (codes " \"" ++ (s ++ codes "\"\n"))

-- `to_yaml`, with the left margin.
unfoldable mutual
  unfolding to_text

  pub to_yaml : Formats → (ℕ → ℕ → Bytes) → ℕ → Value → Result TextError Bytes
  to_yaml f reports margin undefined = ok []
  to_yaml f reports margin (array xs) = do
    inside ← yaml_items f reports margin xs
    ok (start_line margin ++ inside)
  to_yaml f reports margin (object ms) = do
    inside ← yaml_members f reports margin ms
    ok (start_line margin ++ inside)
  to_yaml f reports margin (text t s) = in_quotes (to_text f (text t s))
  to_yaml f reports margin (timestamp n) = in_quotes (to_text f (timestamp n))
  to_yaml f reports margin (state n) = in_quotes (to_text f (state n))
  to_yaml f reports margin (signed n) = bare (to_text f (signed n))
  to_yaml f reports margin (boolean n) = bare (to_text f (boolean n))
  to_yaml f reports margin (unsigned n) = bare (to_text f (unsigned n))
  to_yaml f reports margin (real n) = bare (to_text f (real n))
  to_yaml f reports margin (fraction n) = bare (to_text f (fraction n))
  to_yaml f reports margin (report n) = ok (if n == 0 then [] else reports n (margin + 4))

  pub yaml_items : Formats → (ℕ → ℕ → Bytes) → ℕ → Items → Result TextError Bytes
  yaml_items f reports margin no_items = ok []
  yaml_items f reports margin (item v xs) = do
    here ← to_yaml f reports (margin + 2) v
    rest ← yaml_items f reports margin xs
    ok (spaces margin ++ (b'-' ∷ (here ++ rest)))

  pub yaml_members : Formats → (ℕ → ℕ → Bytes) → ℕ → Members → Result TextError Bytes
  yaml_members f reports margin no_members = ok []
  yaml_members f reports margin (member k v ms) = do
    here ← to_yaml f reports (margin + 4) v
    rest ← yaml_members f reports margin ms
    ok (spaces margin ++ (k ++ (b':' ∷ (here ++ rest))))
