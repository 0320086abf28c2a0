-- ===== src/Arguments/Examples.antt =====
-- Tests of Arguments.
use libudjat.Base.{◌≡◌, refl, true, [], ◌∷◌, arith, codes, ncase_eq}
use libudjat.Arguments.Found.{long_form, get_argument-long_form}
use libudjat.Arguments.{
  extract, is_option, has_loop, has_argument, match_short, match_argument, get_loop, get_argument,
}

get-short :
    get_argument b'v'
      (codes "verbose")
      true
      (codes "app" ∷ codes "-q" ∷ codes "-v" ∷ codes "3" ∷ codes "x" ∷ [])
    ≡ (true, codes "3", codes "app" ∷ codes "-q" ∷ codes "x" ∷ [])
unfolding get_argument get_loop match_argument match_short extract ncase_eq
get-short = refl

has-long :
    has_argument b'h' (codes "help") true (codes "app" ∷ codes "--help" ∷ codes "x" ∷ [])
    ≡ (true, codes "app" ∷ codes "x" ∷ [])
unfolding has_argument has_loop extract is_option
has-long = refl

get_argument-long_form_example :
    get_argument b'v'
      (codes "log")
      true
      (codes "app" ∷ codes "x" ∷ long_form (codes "log") (codes "a=b") ∷ codes "y" ∷ [])
    ≡ (true, codes "a=b", codes "app" ∷ codes "x" ∷ codes "y" ∷ [])
get_argument-long_form_example =
    get_argument-long_form b'v' b'l' (codes "og") (codes "a=b") (codes "app") (codes "x" ∷ [])
      (codes "y" ∷ []) (omega arith) (refl, tt)
