-- ===== src/Request/Examples.antt =====
-- Tests and examples of the path of a request.
use libudjat.Base.{◌≡◌, refl, true, false, [], ◌∷◌, arith, codes, ncase_eq}
use libudjat.Request.{new_request, has_prefix, pop_prefix, pop}
use libudjat.Request.Pops.{pops, pops-joined}

pop-doubled : (pop (new_request (codes "//a"))).0 ≡ []
unfolding pop
pop-doubled = refl

pop_prefix-agent : (pop_prefix (codes "AGENT") (new_request (codes "agent/cpu"))).0 ≡ true
unfolding pop_prefix has_prefix ncase_eq
pop_prefix-agent = refl

pop_prefix-longer : (pop_prefix (codes "agent") (new_request (codes "agents/cpu"))).0 ≡ false
unfolding pop_prefix has_prefix ncase_eq
pop_prefix-longer = refl

pops-joined_example :
    pops 2 (new_request (codes "/a/b"))
    ≡ (codes "a" ∷ codes "b" ∷ [], record { reqpath = codes "/a/b"; argptr = [] })
pops-joined_example =
    pops-joined (codes "a") (codes "b" ∷ []) ((omega arith, tt), ((omega arith, tt), tt))
