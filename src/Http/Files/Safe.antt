-- ===== src/Http/Files/Safe.antt =====
-- A path that passes `http_is_safe_path` does not lead out of the document root.
use uestc_shixvn_mini_web_se.Http.Files.{http_is_safe_path, is_slash, file_path}
use uestc_shixvn_mini_web_se.CString.{skip_while, starts_with, strstr, str_eq}
use uestc_shixvn_mini_web_se.Prelude.{
  Bytes, ℕ, zero, suc, ◌+◌, ◌-◌, ◌≤◌, ◌≡◌, refl, ap, subst, ◌∙◌, ◌≢◌, inl, inr, Bool, true, false,
  ◌||◌, Option, none, some, List, [], ◌∷◌, ◌++◌, arith, length, take, ◌==◌, if◌then◌else◌,
  Bool-cases, codes,
}

abbrev head_with : ℕ → List Bytes → List Bytes
head_with c [] = (c ∷ []) ∷ []
head_with c (s ∷ segs) = (c ∷ s) ∷ segs

-- The parts between slashes.
unfoldable pub segments : Bytes → List Bytes
segments [] = [] ∷ []
segments (c ∷ s) = if c == b'/' then [] ∷ segments s else head_with c (segments s)

-- How deep below its start a path leads; `none` if it leads out on the way.
unfoldable pub walk : ℕ → List Bytes → Option ℕ
walk depth [] = some depth
walk depth (s ∷ segs) =
    let up = walk (depth - 1) segs in
    let stay = walk depth segs in
    let down = walk (depth + 1) segs in
    if str_eq s (codes "..")
    then (if depth == 0 then none else up)
    else if str_eq s [] || str_eq s (codes ".")
    then stay
    else down

abbrev NoUp : List Bytes → Type 0
NoUp [] = Unit {0}
NoUp (s ∷ segs) = (str_eq s (codes "..") ≡ false) × NoUp segs

walk-NoUp : (depth : ℕ) (segs : List Bytes) → NoUp segs → walk depth segs ≢ none
unfolding walk
walk-NoUp depth [] n = ground arith
walk-NoUp depth (s ∷ segs) n =
    ground (arith, walk-NoUp depth segs n.1, walk-NoUp (depth + 1) segs n.1)

abbrev StartsDot : Bytes → Type 0
StartsDot [] = ⊥
StartsDot (c ∷ s) = c ≡ b'.'

-- Two dots do not stand side by side.
abbrev NoDots : Bytes → Type 0
NoDots [] = Unit {0}
NoDots (c ∷ s) = (c ≡ b'.' → ¬ (StartsDot s)) × NoDots s

strstr-tail : (p s : Bytes) (c : ℕ) → strstr p (c ∷ s) ≡ none → strstr p s ≡ none
unfolding strstr
strstr-tail p s c h = ground (arith, h)

strstr-NoDots : (s : Bytes) → strstr (codes "..") s ≡ none → NoDots s
unfolding strstr starts_with
strstr-NoDots [] h = tt
strstr-NoDots (c ∷ []) h = (λ e f. absurd f, tt)
strstr-NoDots (c ∷ d ∷ s) h = (
  (λ e f. absurd (ground (arith, h, e, f))),
  strstr-NoDots (d ∷ s) (strstr-tail (codes "..") (d ∷ s) c h),
)

-- The first part of a path starts as the path does.
segments-first :
    (s : Bytes)
    → (f : Bytes) × (rest : List Bytes) × (segments s ≡ f ∷ rest)
      × (str_eq f (codes ".") ≡ true → StartsDot s)
unfolding segments str_eq
segments-first [] = ([], [], refl, λ e. cc)
segments-first (c ∷ s) = elim (Bool-cases (c == b'/')) [
  | inl e ↦ ([], segments s, rw e refl, λ f. cc)
  | inr e ↦
      let (f, rest, same, dot) = segments-first s in
      (c ∷ f, rest, ground (arith, e, same), λ h. ground (arith, h))
]

segments-NoUp : (s : Bytes) → NoDots s → NoUp (segments s)
unfolding segments str_eq
segments-NoUp [] n = ground arith
segments-NoUp (c ∷ s) n = elim (Bool-cases (c == b'/')) [
  | inl e ↦ rw e (refl, segments-NoUp s n.1)
  | inr e ↦
      let (f, rest, same, dot) = segments-first s in
      let up : NoUp (f ∷ rest) = subst NoUp same (segments-NoUp s n.1) in
      let first : str_eq (c ∷ f) (codes "..") ≡ false = elim (Bool-cases (str_eq f (codes "."))) [
        | inl d ↦ ground (arith, d, λ (h : c ≡ b'.'). n.0 h (dot d))
        | inr d ↦ ground (arith, d)
      ] in
      rw e (rw same (first, up.1))
]

NoDots-take : (n : ℕ) (s : Bytes) → NoDots s → NoDots (take n s)
NoDots-take zero s h = tt
NoDots-take (suc n) [] h = tt
NoDots-take (suc zero) (c ∷ s) h = (λ e f. absurd f, tt)
NoDots-take (suc (suc n)) (c ∷ []) h = (λ e f. absurd f, tt)
NoDots-take (suc (suc n)) (c ∷ d ∷ s) h = (h.0, NoDots-take (suc n) (d ∷ s) h.1)

NoDots-skip_while : (p : ℕ → Bool) (s : Bytes) → NoDots s → NoDots (skip_while p s)
unfolding skip_while
NoDots-skip_while p [] h = tt
NoDots-skip_while p (c ∷ s) h = elim (Bool-cases (p c)) [
  | inl e ↦ rw e (NoDots-skip_while p s h.1)
  | inr e ↦ rw e h
]

take-append : (a b : Bytes) (n : ℕ) → length a ≤ n → take n (a ++ b) ≡ a ++ take (n - length a) b
take-append [] b n h = ap (λ k. take k b) (omega arith)
take-append (x ∷ a) b zero h = absurd (omega arith)
take-append (x ∷ a) b (suc n) h =
    ap (◌∷◌ x) (take-append a b n (omega arith) ∙ ap (λ k. a ++ take k b) (omega arith))

-- What a URI names below the document root.
abbrev below_root : Bytes → Bytes
below_root uri = if str_eq uri (codes "/") then codes "index.html" else skip_while is_slash uri

file_path-below_root :
    (www_root uri : Bytes)
    → length www_root ≤ 510
    → file_path www_root uri ≡ www_root ++ (b'/' ∷ take (510 - length www_root) (below_root uri))
unfolding file_path
file_path-below_root www_root uri h =
    let n : 511 - length www_root ≡ suc (510 - length www_root) = omega arith in
    elim (Bool-cases (str_eq uri (codes "/"))) [
      | inl e ↦ rw e (
          take-append www_root (codes "/index.html") 511 (omega arith)
          ∙ ap (λ k. www_root ++ take k (codes "/index.html")) n)
      | inr e ↦ rw e (
          take-append www_root (b'/' ∷ skip_while is_slash uri) 511 (omega arith)
          ∙ ap (λ k. www_root ++ take k (b'/' ∷ skip_while is_slash uri)) n)
    ]

index_html_no_dots : strstr (codes "..") (codes "index.html") ≡ none
unfolding strstr starts_with
index_html_no_dots = refl

below_root-NoDots : (uri : Bytes) → NoDots uri → NoDots (below_root uri)
below_root-NoDots uri h = elim (Bool-cases (str_eq uri (codes "/"))) [
  | inl e ↦ rw e (strstr-NoDots (codes "index.html") index_html_no_dots)
  | inr e ↦ rw e (NoDots-skip_while is_slash uri h)
]

-- For a URI that passes the check, and a document root of at most 510 bytes: the file's path is the
-- root, a slash and a path that, followed part by part, never leads above the root.
pub file_path_stays_below :
    (www_root uri : Bytes)
    → length www_root ≤ 510
    → http_is_safe_path uri ≡ true
    → (rest : Bytes) × (file_path www_root uri ≡ www_root ++ (b'/' ∷ rest))
      × (walk 0 (segments rest) ≢ none)
unfolding http_is_safe_path
file_path_stays_below www_root uri h safe =
    let dots : strstr (codes "..") uri ≡ none = ground (arith, safe) in
    (
      take (510 - length www_root) (below_root uri),
      file_path-below_root www_root uri h,
      walk-NoUp 0 _ (
          segments-NoUp _ (
            NoDots-take (510 - length www_root) (below_root uri)
              (below_root-NoDots uri (strstr-NoDots uri dots)))),
    )
