-- ===== src/Handler/Decode/InPlace.antt =====
-- `url_decode_path` of src/request_handler.c writes to the memory that it reads from.
use uestc_shixvn_mini_web_se.CString.{IsCString}
use uestc_shixvn_mini_web_se.Handler.Decode.{
  isxdigit, hex_value, array_of, literal, byte_at, store, is_escape, decode_from, url_decode_path,
}
use uestc_shixvn_mini_web_se.Handler.Decode.Memory.{
  writable_str, shift, length-shift, store_lem, byte_at_lem, byte_at_here, decode_from-end,
  decode_from-plain, decode_from-escape,
}
use uestc_shixvn_mini_web_se.Prelude.{
  Bytes, ℕ, zero, suc, ◌+◌, ◌*◌, ◌<◌, ◌≡◌, refl, sym, ap, ◌∙◌, ◌≢◌, inl, inr, true, false, ◌&&◌,
  none, some, [], ◌∷◌, ◌++◌, append_assoc, arith, length, length-append, get_or, ◌==◌, Bool-cases,
}

-- What a segment stands for: '%' with two digits is a byte, and all else stands for itself.
unfoldable pub decode_path : Bytes → Bytes
decode_path (c ∷ a ∷ b ∷ s) = elim (c == b'%' && (isxdigit a && isxdigit b)) [
  | true ↦ (16 * hex_value a + hex_value b) ∷ decode_path s
  | false ↦ c ∷ decode_path (a ∷ b ∷ s)
]
decode_path s = s

-- The loop in the midst of its work: `out` is written, and `s` is left to be read.
abbrev Decodes : ℕ → Bytes → Bytes → Bytes → Type 0
Decodes fuel out gap s =
    (rest : Bytes) × (decode_from fuel (writable_str (out ++ (gap ++ (s ++ 0 ∷ []))))
        (length out + length gap) (length out)
      ≡ some (writable_str (out ++ (decode_path s ++ 0 ∷ rest))))

Decodes-nil : (fuel : ℕ) (out gap : Bytes) → Decodes (suc fuel) out gap []
unfolding decode_path
Decodes-nil fuel out gap =
    let ends : byte_at (writable_str (out ++ (gap ++ 0 ∷ []))) (length out + length gap) ≡ 0 =
      byte_at_here out gap (0 ∷ []) in
    (
      shift gap 0 ++ [],
      decode_from-end fuel _ _ (length out) ends
          ∙ store_lem out gap 0 0 []
          ∙ ap (λ (m : Bytes). some (writable_str m))
              (append_assoc out (0 ∷ []) (shift gap 0 ++ [])),
    )

-- A round that writes `v` and goes on.
Decodes-round :
    (fuel : ℕ) (out gap w gap' s : Bytes) (p v : ℕ)
    → decode_from
        (suc fuel)
        (writable_str (out ++ (gap ++ (w ++ 0 ∷ []))))
        (length out + length gap)
        (length out)
      ≡ decode_from fuel
          (writable_str ((out ++ v ∷ []) ++ (gap' ++ (s ++ 0 ∷ []))))
          p
          (length out + 1)
    → p ≡ length out + 1 + length gap'
    → decode_path w ≡ v ∷ decode_path s
    → Decodes fuel (out ++ v ∷ []) gap' s
    → Decodes (suc fuel) out gap w
Decodes-round fuel out gap w gap' s p v round pos stands (rest, done) =
    let q_eq : length out + 1 ≡ length (out ++ v ∷ []) =
      omega (arith, length-append out (v ∷ [])) in
    let p_eq : p ≡ length (out ++ v ∷ []) + length gap' = omega (arith, pos, q_eq) in
    let moved : decode_from fuel (writable_str ((out ++ v ∷ []) ++ (gap' ++ (s ++ 0 ∷ [])))) p
          (length out + 1)
        ≡ some (writable_str ((out ++ v ∷ []) ++ (decode_path s ++ 0 ∷ rest))) =
      rw (p_eq, q_eq) done in
    (
      rest,
      rw stands (
          round
          ∙ moved
          ∙ ap (λ (m : Bytes). some (writable_str m))
              (append_assoc out (v ∷ []) (decode_path s ++ 0 ∷ rest))),
    )

Decodes-plain :
    (fuel : ℕ) (out gap : Bytes) (c : ℕ) (s : Bytes)
    → c ≢ 0
    → is_escape (writable_str (out ++ (gap ++ (c ∷ s ++ 0 ∷ [])))) (length out + length gap) ≡ false
    → decode_path (c ∷ s) ≡ c ∷ decode_path s
    → Decodes fuel (out ++ c ∷ []) (shift gap c) s
    → Decodes (suc fuel) out gap (c ∷ s)
Decodes-plain fuel out gap c s nz plain stands =
    let str = writable_str (out ++ (gap ++ (c ∷ s ++ 0 ∷ []))) in
    let reads : byte_at str (length out + length gap) ≡ c =
      byte_at_here out gap (c ∷ s ++ 0 ∷ []) in
    let goes_on : (byte_at str (length out + length gap) == 0) ≡ false =
      rw reads (ground (arith, nz)) in
    let stored : store str (length out) (byte_at str (length out + length gap))
        ≡ some (writable_str ((out ++ c ∷ []) ++ (shift gap c ++ (s ++ 0 ∷ [])))) =
      rw reads (store_lem out gap c c (s ++ 0 ∷ [])) in
    Decodes-round fuel out gap (c ∷ s) (shift gap c) s (length out + length gap + 1) c
      (decode_from-plain fuel str (length out + length gap) (length out) _ goes_on plain stored)
      (omega (arith, length-shift gap c)) stands

Decodes-escape :
    (fuel : ℕ) (out gap : Bytes) (c a b : ℕ) (s : Bytes)
    → c ≢ 0
    → (c == b'%' && (isxdigit a && isxdigit b)) ≡ true
    → Decodes fuel (out ++ (16 * hex_value a + hex_value b) ∷ []) (shift gap c ++ a ∷ b ∷ []) s
    → Decodes (suc fuel) out gap (c ∷ a ∷ b ∷ s)
unfolding decode_path
Decodes-escape fuel out gap c a b s nz escaped =
    let v = 16 * hex_value a + hex_value b in
    let left = c ∷ a ∷ b ∷ (s ++ 0 ∷ []) in
    let str = writable_str (out ++ (gap ++ left)) in
    let p = length out + length gap in
    let reads : byte_at str p ≡ c = byte_at_here out gap left in
    let reads_a : byte_at str (p + 1) ≡ a = byte_at_lem out gap left 1 in
    let reads_b : byte_at str (p + 2) ≡ b = byte_at_lem out gap left 2 in
    let goes_on : (byte_at str p == 0) ≡ false = rw reads (ground (arith, nz)) in
    let is_one : is_escape str p ≡ true = rw (reads, reads_a, reads_b) escaped in
    let stored : store str (length out)
          (16 * hex_value (byte_at str (p + 1)) + hex_value (byte_at str (p + 2)))
        ≡ some (writable_str ((out ++ v ∷ []) ++ (shift gap c ++ a ∷ b ∷ (s ++ 0 ∷ [])))) =
      rw (reads_a, reads_b) (store_lem out gap c v (a ∷ b ∷ (s ++ 0 ∷ []))) in
    let regroup = sym (append_assoc (shift gap c) (a ∷ b ∷ []) (s ++ 0 ∷ [])) in
    Decodes-round fuel out gap (c ∷ a ∷ b ∷ s) (shift gap c ++ a ∷ b ∷ []) s (p + 3) v
      (decode_from-escape fuel str p (length out) _ goes_on is_one
        (stored ∙ ap (λ (m : Bytes). some (writable_str ((out ++ v ∷ []) ++ m))) regroup))
      (omega (arith, length-shift gap c, length-append (shift gap c) (a ∷ b ∷ [])))
      (rw (escaped, decode_path) refl)

-- A '%' is no escape if a NUL follows it too soon.
not_escape :
    (out gap : Bytes) (c a b : ℕ) (s : Bytes)
    → (c == b'%' && (isxdigit a && isxdigit b)) ≡ false
    → get_or (c ∷ s) 1 0 ≡ a
    → get_or (c ∷ s) 2 0 ≡ b
    → is_escape (writable_str (out ++ (gap ++ c ∷ s))) (length out + length gap) ≡ false
not_escape out gap c a b s no_escape at_a at_b =
    rw (byte_at_here out gap (c ∷ s), byte_at_lem out gap (c ∷ s) 1, byte_at_lem out gap (c ∷ s) 2)
      (rw (at_a, at_b) no_escape)

path_decoded :
    (fuel : ℕ) (out gap s : Bytes) → IsCString s → length s < fuel → Decodes fuel out gap s
unfolding decode_path
path_decoded zero out gap s cs h = absurd (omega (arith, h))
path_decoded (suc fuel) out gap [] cs h = Decodes-nil fuel out gap
path_decoded (suc fuel) out gap (c ∷ []) (nz, cs) h =
    Decodes-plain fuel out gap c [] nz (not_escape out gap c 0 0 (0 ∷ []) (ground arith) refl refl)
      refl (path_decoded fuel (out ++ c ∷ []) (shift gap c) [] cs (omega arith))
path_decoded (suc fuel) out gap (c ∷ a ∷ []) (nz, cs) h =
    Decodes-plain fuel out gap c (a ∷ []) nz
      (not_escape out gap c a 0 (a ∷ 0 ∷ []) (ground arith) refl refl) refl
      (path_decoded fuel (out ++ c ∷ []) (shift gap c) (a ∷ []) cs (omega arith))
path_decoded (suc fuel) out gap (c ∷ a ∷ b ∷ s) (nz, cs) h =
    elim (Bool-cases (c == b'%' && (isxdigit a && isxdigit b))) [
      | inl escaped ↦ Decodes-escape fuel out gap c a b s nz escaped (
          path_decoded fuel (out ++ (16 * hex_value a + hex_value b) ∷ [])
            (shift gap c ++ a ∷ b ∷ []) s cs.1.1 (omega arith))
      | inr plain ↦
          Decodes-plain fuel out gap c (a ∷ b ∷ s) nz
            (not_escape out gap c a b (a ∷ b ∷ s ++ 0 ∷ []) plain refl refl)
            (rw (plain, decode_path) refl)
            (path_decoded fuel (out ++ c ∷ []) (shift gap c) (a ∷ b ∷ s) cs (omega arith))
    ]

-- A C string in an array is decoded in place: the loop ends without a fault, and what stands in the
-- array up to the NUL that is written is what the string stands for.
pub url_decode_path-decode_path :
    (s : Bytes)
    → IsCString s
    → (rest : Bytes) × (url_decode_path (array_of s)
        ≡ some (record { memory = decode_path s ++ 0 ∷ rest; writable = true }))
unfolding url_decode_path
url_decode_path-decode_path s cs =
    path_decoded (length (s ++ 0 ∷ [])) [] [] s cs (omega (arith, length-append s (0 ∷ [])))

decode_from_faults :
    (fuel : ℕ) (m : Bytes) (p q : ℕ)
    → decode_from fuel (record { memory = m; writable = false }) p q ≡ none
unfolding decode_from
decode_from_faults zero m p q = refl
decode_from_faults (suc fuel) m p q = ground arith

-- In a literal the first write is a fault, and there always is one.
pub url_decode_path-literal : (s : Bytes) → url_decode_path (literal s) ≡ none
unfolding url_decode_path
url_decode_path-literal s = decode_from_faults _ (s ++ 0 ∷ []) 0 0
