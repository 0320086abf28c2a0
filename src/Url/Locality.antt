-- ===== src/Url/Locality.antt =====
-- A URL is local or remote.
use libudjat.Base.{
  ℕ, ◌≡◌, refl, ap, not, Option, none, some, [], ◌∷◌, Bytes, ◌>>=◌, Result, err, ok,
}
use libudjat.Url.{
  text_of, scheme_is_local, scheme_is_remote, is_local, is_remote, Uri, Error, invalid_url,
}

-- A URL that is not empty is remote exactly when it is not local, and both refuse the same texts.
pub is_remote-not_local :
    (parse : Bytes → Option Uri) (c : ℕ) (cs : Bytes)
    → is_remote parse (c ∷ cs) ≡ (is_local parse (c ∷ cs) >>= λ b. ok (not b))
unfolding is_remote is_local
is_remote-not_local parse c cs = cases (parse (c ∷ cs))
  where
    by_scheme : (s : Bytes) → scheme_is_remote s ≡ not (scheme_is_local s)
    by_scheme [] = refl
    by_scheme (d ∷ ds) = refl

    cases :
        (o : Option Uri)
        → (elim o as (λ o. Result Error Uri) [ none ↦ err invalid_url | some u ↦ ok u ] >>= λ u.
            ok (scheme_is_remote (text_of u.scheme)))
          ≡ ((elim o as (λ o. Result Error Uri) [ none ↦ err invalid_url | some u ↦ ok u ] >>= λ u.
                ok (scheme_is_local (text_of u.scheme)))
              >>= λ b. ok (not b))
    cases none = refl
    cases (some u) = ap ok (by_scheme (text_of u.scheme))
