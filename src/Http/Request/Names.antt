-- ===== src/Http/Request/Names.antt =====
-- Header names are compared without regard to case, and the first header that fits is found.
use uestc_shixvn_mini_web_se.CString.{tolower, IsCString}
use uestc_shixvn_mini_web_se.Http.Request.{
  tolower, Request, strcasecmp_safe, http_get_header, find_header, Header, same_name,
}
use uestc_shixvn_mini_web_se.Prelude.{
  Bytes, ◌≡◌, refl, ◌↔◌, inl, inr, true, Option, none, some, List, [], ◌∷◌, map, arith, Bool-cases,
}

-- Two strings compare as equal exactly if they are the same in lower case.
same_name_iff :
    (a b : Bytes)
    → IsCString a
    → IsCString b
    → (same_name a b ≡ true) ↔ (map tolower a ≡ map tolower b)
unfolding same_name strcasecmp_safe
same_name_iff [] [] h k = (λ e. refl, λ e. refl)
same_name_iff [] (y ∷ b) h k = ground arith
same_name_iff (x ∷ a) [] h k = ground arith
same_name_iff (x ∷ a) (y ∷ b) h k = ground (arith, same_name_iff a b h.1 k.1)

-- The names are the same but for the case of their letters.
abbrev pub AreAlike : Bytes → Bytes → Type 0
AreAlike a b = map tolower a ≡ map tolower b

-- No header of the list has the name, in any case.
abbrev pub Lacks : Bytes → List Header → Type 0
Lacks name [] = Unit {0}
Lacks name (h ∷ hs) = (¬ AreAlike h.name name) × Lacks name hs

-- The value is that of the first header with the name, in any case.
pub data IsFirst (name value : Bytes) : List Header → Type 0 where
  here :
      {h : Header} {hs : List Header}
      → AreAlike h.name name
      → h.value ≡ value
      → IsFirst name value (h ∷ hs)
  later :
      {h : Header} {hs : List Header}
      → ¬ AreAlike h.name name
      → IsFirst name value hs
      → IsFirst name value (h ∷ hs)

abbrev pub Looks : Bytes → List Header → Option Bytes → Type 0
Looks name hs none = Lacks name hs
Looks name hs (some value) = IsFirst name value hs

abbrev pub HasCNames : List Header → Type 0
HasCNames [] = Unit {0}
HasCNames (h ∷ hs) = IsCString h.name × HasCNames hs

Looks-cons :
    (name : Bytes) (h : Header) (hs : List Header) (r : Option Bytes)
    → ¬ AreAlike h.name name
    → Looks name hs r
    → Looks name (h ∷ hs) r
Looks-cons name h hs none e l = (e, l)
Looks-cons name h hs (some value) e l = later e l

find_header-Looks :
    (hs : List Header) (name : Bytes)
    → HasCNames hs
    → IsCString name
    → Looks name hs (find_header hs name)
unfolding find_header
find_header-Looks [] name cs c = tt
find_header-Looks (h ∷ hs) name cs c =
    let (to, from) = same_name_iff h.name name cs.0 c in
    elim (Bool-cases (same_name h.name name)) [
      | inl e ↦ rw e (here (to e) refl)
      | inr e ↦
          let differ : ¬ AreAlike h.name name = λ alike. absurd (ground (arith, e, from alike)) in
          rw e
            (Looks-cons name h hs (find_header hs name) differ (find_header-Looks hs name cs.1 c))
    ]

-- Where the names are C strings, `http_get_header` returns the value of the first header whose name
-- is the same as the given one in lower case, and NULL exactly if there is no such header.
pub http_get_header-Looks :
    (req : Request) (name : Bytes)
    → HasCNames req.headers
    → IsCString name
    → Looks name req.headers (http_get_header req name)
unfolding http_get_header
http_get_header-Looks req name cs c = find_header-Looks req.headers name cs c
