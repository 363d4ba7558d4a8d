-- ===== src/CString/Scan.antt =====
-- What the scanning functions find in a string that is put together.
use uestc_shixvn_mini_web_se.CString.{cut, push_unless, trim_end, c_str, skip_while, strchr}
use uestc_shixvn_mini_web_se.Prelude.{
  Bytes, ℕ, ◌≡◌, refl, ◌≢◌, Bool, true, false, none, some, [], ◌∷◌, ◌++◌, arith, length, drop,
}

-- No byte of the string is `c`.
abbrev pub Avoids : ℕ → Bytes → Type 0
Avoids c [] = Unit {0}
Avoids c (x ∷ s) = (x ≢ c) × Avoids c s

pub strchr-append : (c : ℕ) (a b : Bytes) → Avoids c a → strchr c (a ++ c ∷ b) ≡ some (a, b)
unfolding strchr
strchr-append c [] b h = ground arith
strchr-append c (x ∷ a) b h = rw (strchr-append c a b h.1) (ground arith)

pub strchr-Avoids : (c : ℕ) (a : Bytes) → Avoids c a → strchr c a ≡ none
unfolding strchr
strchr-Avoids c [] h = refl
strchr-Avoids c (x ∷ a) h = rw (strchr-Avoids c a h.1) (ground arith)

pub Avoids-append : (c : ℕ) (a b : Bytes) → Avoids c a → Avoids c b → Avoids c (a ++ b)
Avoids-append c [] b h k = k
Avoids-append c (x ∷ a) b h k = (h.0, Avoids-append c a b h.1 k)

-- A string that is empty, or begins with a byte that fails the test, loses nothing.
abbrev pub StartsOff : (ℕ → Bool) → Bytes → Type 0
StartsOff p [] = Unit {0}
StartsOff p (x ∷ s) = p x ≡ false

pub skip_while_none : (p : ℕ → Bool) (s : Bytes) → StartsOff p s → skip_while p s ≡ s
unfolding skip_while
skip_while_none p [] h = refl
skip_while_none p (x ∷ s) h = rw h refl

pub c_str_id : (s : Bytes) → Avoids 0 s → c_str s ≡ s
unfolding c_str
c_str_id [] h = refl
c_str_id (x ∷ s) h = ground (arith, c_str_id s h.1)

-- The last byte, if there is one, fails the test.
abbrev pub EndsOff : (ℕ → Bool) → Bytes → Type 0
EndsOff p [] = Unit {0}
EndsOff p (x ∷ []) = p x ≡ false
EndsOff p (x ∷ y ∷ s) = EndsOff p (y ∷ s)

push_unless-cons : (b : Bool) (x y : ℕ) (s : Bytes) → push_unless b x (y ∷ s) ≡ x ∷ y ∷ s
push_unless-cons true x y s = refl
push_unless-cons false x y s = refl

pub trim_end_none : (p : ℕ → Bool) (s : Bytes) → EndsOff p s → trim_end p s ≡ s
unfolding trim_end
trim_end_none p [] h = refl
trim_end_none p (x ∷ []) h = rw h refl
trim_end_none p (x ∷ y ∷ s) h = rw (trim_end_none p (y ∷ s) h) (push_unless-cons (p x) x y s)

pub c_str-append : (a b : Bytes) → Avoids 0 a → c_str (a ++ b) ≡ a ++ c_str b
unfolding c_str
c_str-append [] b h = refl
c_str-append (x ∷ a) b h = ground (arith, c_str-append a b h.1)

pub drop-append : (a b : Bytes) → drop (length a) (a ++ b) ≡ b
drop-append [] b = refl
drop-append (x ∷ a) b = drop-append a b

pub cut-Avoids : (c : ℕ) (s : Bytes) → Avoids c s → cut c s ≡ s
cut-Avoids c s a = rw (strchr-Avoids c s a, cut)

pub cut-append : (c : ℕ) (s t : Bytes) → Avoids c s → cut c (s ++ c ∷ t) ≡ s
cut-append c s t a = rw (strchr-append c s t a, cut)
