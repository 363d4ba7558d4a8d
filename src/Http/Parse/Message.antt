-- ===== src/Http/Parse/Message.antt =====
-- A whole request as its sender writes it, and where its blank line is found.
use uestc_shixvn_mini_web_se.Http.Headers.Fields.{
  field_line-Avoids, field_line_ne, field_line-no_nul, AreFields, fields, field_line,
}
use uestc_shixvn_mini_web_se.CString.Scan.{StartsOff, Avoids-append, Avoids}
use uestc_shixvn_mini_web_se.CString.{starts_with, strstr}
use uestc_shixvn_mini_web_se.Http.Request.{Header}
use mathlib.Core.Option
use uestc_shixvn_mini_web_se.Prelude.{
  Bytes, ℕ, ◌≡◌, refl, sym, ap, ◌∙◌, ◌≢◌, Option, none, some, List, [], ◌∷◌, ◌++◌, append-nil,
  append_assoc, arith, ◌==◌, codes,
}

-- The request line and the header lines, with a CRLF between them.
abbrev pub lines : Bytes → List Header → Bytes
lines first [] = first
lines first (h ∷ hs) = first ++ (13 ∷ 10 ∷ lines (field_line h) hs)

abbrev pub blank_line : Bytes → Bytes
blank_line body = 13 ∷ 10 ∷ 13 ∷ 10 ∷ body

abbrev pub message : Bytes → List Header → Bytes → Bytes
message first hs body = first ++ (13 ∷ 10 ∷ fields hs (13 ∷ 10 ∷ body))

pub message-lines :
    (hs : List Header) (first body : Bytes)
    → message first hs body ≡ lines first hs ++ blank_line body
message-lines [] first body = refl
message-lines (h ∷ hs) first body =
    ap (λ t. first ++ (13 ∷ 10 ∷ t)) (message-lines hs (field_line h) body)
    ∙ sym (append_assoc first (13 ∷ 10 ∷ lines (field_line h) hs) (blank_line body))

pub lines-Avoids :
    (hs : List Header) (first : Bytes) → AreFields hs → Avoids 0 first → Avoids 0 (lines first hs)
lines-Avoids [] first g a = a
lines-Avoids (h ∷ hs) first g a =
    Avoids-append 0 first _ a
      (omega arith, (omega arith, lines-Avoids hs (field_line h) g.1 (field_line-no_nul h g.0)))

abbrev before : Bytes → Option (Bytes × Bytes) → Option (Bytes × Bytes)
before line none = none
before line (some (a, b)) = some (line ++ a, b)

before-cons :
    (x : ℕ) (line : Bytes) (r : Option (Bytes × Bytes))
    → Option.map (λ (a : Bytes × Bytes). (x ∷ a.0, a.1)) (before line r) ≡ before (x ∷ line) r
before-cons x line none = refl
before-cons x line (some (a, b)) = refl

before-nil : (r : Option (Bytes × Bytes)) → before [] r ≡ r
before-nil none = refl
before-nil (some (a, b)) = refl

strstr_other :
    (x : ℕ) (q t : Bytes)
    → x ≢ 13
    → strstr (13 ∷ q) (x ∷ t)
      ≡ Option.map (λ (a : Bytes × Bytes). (x ∷ a.0, a.1)) (strstr (13 ∷ q) t)
unfolding strstr starts_with
strstr_other x q t h = ground arith

-- A line without CR holds no start of the pattern.
strstr-append :
    (line s q : Bytes)
    → Avoids 13 line
    → strstr (13 ∷ q) (line ++ s) ≡ before line (strstr (13 ∷ q) s)
strstr-append [] s q a = sym (before-nil (strstr (13 ∷ q) s))
strstr-append (x ∷ line) s q a =
    strstr_other x q (line ++ s) a.0
    ∙ rw (strstr-append line s q a.1) (before-cons x line (strstr (13 ∷ q) s))

pub strstr_crlf :
    (first s : Bytes)
    → Avoids 13 first
    → strstr (codes "\r\n") (first ++ (13 ∷ 10 ∷ s)) ≡ some (first, 13 ∷ 10 ∷ s)
unfolding strstr starts_with
strstr_crlf first s a = strstr-append first (13 ∷ 10 ∷ s) (10 ∷ []) a ∙ rw (append-nil first)

before-two :
    (x y : ℕ) (r : Option (Bytes × Bytes))
    → Option.map
        (λ (a : Bytes × Bytes). (x ∷ a.0, a.1))
        (Option.map (λ (a : Bytes × Bytes). (y ∷ a.0, a.1)) r)
      ≡ before (x ∷ y ∷ []) r
before-two x y none = refl
before-two x y (some (a, b)) = refl

strstr_cr :
    (t : Bytes)
    → StartsOff (λ c. c == 13) t
    → strstr (codes "\r\n\r\n") (13 ∷ 10 ∷ t)
      ≡ Option.map (λ (a : Bytes × Bytes). (13 ∷ a.0, a.1)) (strstr (codes "\r\n\r\n") (10 ∷ t))
unfolding strstr starts_with
strstr_cr [] h = refl
strstr_cr (x ∷ t) h = rw h refl

-- One CRLF is passed over.
skip_crlf :
    (t : Bytes)
    → StartsOff (λ c. c == 13) t
    → strstr (codes "\r\n\r\n") (13 ∷ 10 ∷ t) ≡ before (13 ∷ 10 ∷ []) (strstr (codes "\r\n\r\n") t)
skip_crlf t h =
    strstr_cr t h
    ∙ ap (Option.map (λ (a : Bytes × Bytes). (13 ∷ a.0, a.1)))
        (strstr_other 10 (codes "\n\r\n") t (omega arith))
    ∙ before-two 13 10 (strstr (codes "\r\n\r\n") t)

lines-StartsOff :
    (hs : List Header) (line b : Bytes)
    → line ≢ []
    → Avoids 13 line
    → StartsOff (λ c. c == 13) (lines line hs ++ b)
lines-StartsOff hs [] b ne a = absurd (ne refl)
lines-StartsOff [] (x ∷ line) b ne a = ground arith
lines-StartsOff (h ∷ hs) (x ∷ line) b ne a = ground arith

pub strstr_blank :
    (hs : List Header) (first s : Bytes)
    → AreFields hs
    → Avoids 13 first
    → strstr (codes "\r\n\r\n") (lines first hs ++ blank_line s)
      ≡ some (lines first hs, blank_line s)
strstr_blank [] first s g a =
    strstr-append first (blank_line s) (codes "\n\r\n") a
    ∙ unfold strstr starts_with in rw (append-nil first)
strstr_blank (h ∷ hs) first s g a =
    ap (strstr (codes "\r\n\r\n"))
      (append_assoc first (13 ∷ 10 ∷ lines (field_line h) hs) (blank_line s))
    ∙ strstr-append first (13 ∷ 10 ∷ (lines (field_line h) hs ++ blank_line s)) (codes "\n\r\n") a
    ∙ ap (before first) (
        skip_crlf (lines (field_line h) hs ++ blank_line s) (
          lines-StartsOff hs (field_line h) (blank_line s) (field_line_ne h)
            (field_line-Avoids h g.0))
        ∙ ap (before (13 ∷ 10 ∷ []))
            (strstr_blank hs (field_line h) s g.1 (field_line-Avoids h g.0)))
