-- ===== src/Value/Json/Faults.antt =====
-- Texts that JSON does not tell apart.
use libudjat.Base.{ℕ, ◌≡◌, some, ◌++◌, append-nil, append_assoc, Bytes, codes}
use libudjat.Value.{string, object, text, no_members, member}
use libudjat.Value.Text.{get_text, to_text, Formats}
use libudjat.Value.Json.{quoted, to_json}

-- Two texts with what stands in JSON between two members: the quotes, the comma, the key and a colon.
abbrev pub between : Bytes → Bytes → Bytes → Bytes
between a key b = a ++ (codes "\",\"" ++ (key ++ (codes "\":\"" ++ b)))

-- An object with two texts and an object with one text that holds quotes have the same JSON: no
-- character is escaped.
pub to_json_collides :
    (f : Formats) (reports : ℕ → Bytes) (key other a b : Bytes)
    → to_json f reports (object (member key (text string (some (between a other b))) no_members))
      ≡ to_json f reports (
          object
            (member key (text string (some a)) (member other (text string (some b)) no_members)))
unfolding to_json to_text get_text quoted
to_json_collides f reports key other a b = simp (append_assoc, append-nil)
