-- ===== src/Interface/Bound.antt =====
-- What the arguments of a handler take from the path of the request.
use libudjat.Base.{
  ℕ, ◌≡◌, refl, ap, ◌∙◌, Bool, true, false, not, ◌||◌, some, List, [], ◌∷◌, map, arith, Bytes,
  length, All, bytes_eq, ◌>>=◌, ok,
}
use libudjat.Value.{lookup, put_member, Value, Members, string_type, string, object, text}
use libudjat.Value.Merge.{lookup-put_member}
use libudjat.Value.Order.{bytes_eq_refl}
use libudjat.Value.Edit.{set_some, set_from, contains, edit_member, Readers}
use libudjat.Request.{new_request, skip_slash, pop, Request}
use libudjat.Request.Pops.{IsName, joined, pop-joined}
use libudjat.Interface.{
  set_argument, argument_text, take_argument, take_arguments, opened, Introspection, Exchange,
}

-- An input that is a text from the path.
abbrev pub path_argument : Bytes → Introspection
path_argument name = record {
  name = name;
  type = string_type;
  is_input = true;
  is_output = false;
  from_path = true;
}

-- Each name holds its text.
abbrev pub Binds : List Bytes → List Bytes → Members → Type 0
Binds [] values ms = Unit
Binds (n ∷ ns) values ms = elim values [
  | [] ↦ ⊥
  | v ∷ vs ↦ (lookup n ms ≡ some (text string (some v))) × Binds ns vs ms
]

abbrev pub AreDistinct : List Bytes → Type 0
AreDistinct [] = Unit
AreDistinct (n ∷ ns) = All (λ m. bytes_eq n m ≡ false) ns × AreDistinct ns

-- The members with those of the arguments, one after the other.
abbrev pub bound : List Bytes → List Bytes → Members → Members
unfolding put_member
bound [] values ms = ms
bound (n ∷ ns) values ms = elim values [
  | [] ↦ ms
  | v ∷ vs ↦ bound ns vs (put_member n (text string (some v)) ms)
]

lookup-bound :
    (n : Bytes) (ns values : List Bytes) (ms : Members)
    → All (λ m. bytes_eq n m ≡ false) ns
    → lookup n (bound ns values ms) ≡ lookup n ms
unfolding bound
lookup-bound n [] values ms h = refl
lookup-bound n (m ∷ ns) [] ms h = refl
lookup-bound n (m ∷ ns) (v ∷ vs) ms h =
    lookup-bound n ns vs (put_member m (text string (some v)) ms) h.1
    ∙ lookup-put_member n m (text string (some v)) ms
    ∙ rw h.0 refl

bound-Binds :
    (ns values : List Bytes) (ms : Members)
    → length ns ≡ length values
    → AreDistinct ns
    → Binds ns values (bound ns values ms)
unfolding bound
bound-Binds [] values ms e d = tt
bound-Binds (n ∷ ns) [] ms e d = absurd (omega (arith, e))
bound-Binds (n ∷ ns) (v ∷ vs) ms e d = (
  lookup-bound n ns vs (put_member n (text string (some v)) ms) d.0
      ∙ lookup-put_member n n (text string (some v)) ms
      ∙ rw (bytes_eq_refl n) refl,
  bound-Binds ns vs (put_member n (text string (some v)) ms) (omega (arith, e)) d.1,
)

or_true : (b : Bool) → b || true ≡ true
or_true true = refl
or_true false = refl

set_argument-path_argument :
    (r : Readers) (name : Bytes) (c : ℕ) (cs : Bytes) (ms : Members)
    → set_argument r (path_argument name) true (c ∷ cs) (object ms)
      ≡ ok (object (put_member name (text string (some (c ∷ cs))) ms))
unfolding set_argument edit_member set_from set_some
set_argument-path_argument r name c cs ms = rw (or_true (not (contains name (object ms)))) refl

take_argument-path_argument :
    (r : Readers) (name value full ptr : Bytes) (left : Request) (ms : Members) (response : Value)
    → IsName value
    → pop (record { reqpath = full; argptr = ptr }) ≡ (value, left)
    → take_argument r (path_argument name) (record {
      request_path = record { reqpath = full; argptr = ptr };
      request = object ms;
      response = response;
    })
      ≡ ok (record {
        request_path = left;
        request = object (put_member name (text string (some value)) ms);
        response = response;
      })
unfolding take_argument argument_text set_argument
take_argument-path_argument r name [] full ptr left ms response h e = absurd h
take_argument-path_argument r name (c ∷ cs) full ptr left ms response h e =
    rw e (rw (set_argument-path_argument r name c cs ms) refl)

abbrev pub exchange : Bytes → Bytes → Members → Value → Exchange
exchange full ptr ms response = record {
  request_path = record { reqpath = full; argptr = ptr };
  request = object ms;
  response = response;
}

take_arguments-bound :
    (r : Readers) (full : Bytes) (names values : List Bytes) (ptr : Bytes) (ms : Members)
    (response : Value)
    → All IsName values
    → length names ≡ length values
    → skip_slash ptr ≡ joined values
    → (left : Bytes) × (take_arguments r (map path_argument names) (exchange full ptr ms response)
        ≡ ok (exchange full left (bound names values ms) response))
unfolding take_arguments bound
take_arguments-bound r full [] values ptr ms response h l e = (ptr, refl)
take_arguments-bound r full (n ∷ ns) [] ptr ms response h l e = absurd (omega (arith, l))
take_arguments-bound r full (n ∷ ns) (v ∷ vs) ptr ms response h l e =
    let (rest, first, skipped, is_rest) = pop-joined full ptr v vs h e in
    let (left, done) =
      take_arguments-bound r full ns vs rest (put_member n (text string (some v)) ms) response h.1
        (omega (arith, l)) skipped in
    (
      left,
      ap (λ x. x >>= take_arguments r (map path_argument ns))
            (take_argument-path_argument r n v full ptr (record { reqpath = full; argptr = rest })
              ms response h.0 first)
          ∙ done,
    )

-- A handler whose arguments are texts from the path, with names that differ, puts the names of the
-- path, where these are as many as the arguments, into the request, each under the name of its
-- argument; the response is left as it is.
pub take_arguments-Binds :
    (r : Readers) (names : List Bytes) (value : Bytes) (values : List Bytes) (ms : Members)
    (response : Members)
    → AreDistinct names
    → All IsName (value ∷ values)
    → length names ≡ length (value ∷ values)
    → (left : Bytes) × (after : Members) × (take_arguments r (map path_argument names) (
          opened (record {
            request_path = new_request (b'/' ∷ joined (value ∷ values));
            request = object ms;
            response = object response;
          }))
        ≡ ok (exchange (b'/' ∷ joined (value ∷ values)) left after (object response)))
      × Binds names (value ∷ values) after
take_arguments-Binds r names value values ms response d h l =
    let (left, done) =
      take_arguments-bound r (b'/' ∷ joined (value ∷ values)) names (value ∷ values)
        (b'/' ∷ joined (value ∷ values)) ms (object response) h l refl in
    (left, bound names (value ∷ values) ms, done, bound-Binds names (value ∷ values) ms l d)
