-- ===== src/Keys/Encoded.antt =====
-- `KeyReader.read` on characters in UTF-8.
use l.Base.{
  ℕ, zero, suc, ◌+◌, ◌-◌, ◌/◌, ◌%◌, ◌<◌, ◌≢◌, Bool, true, false, Option, some, List, [], ◌∷◌, ◌++◌,
  ◌≡◌, refl, sym, ap, ◌∙◌, ◌==◌, ◌&&◌, ltb, if◌then◌else◌, length, arith, Bool-cases, inl, inr,
}
use mathlib.Core.List.{append_assoc, append-nil}
use l.Lexer.Chars.{utf8}
use l.Keys.{Arrival, arrives, Reader, utf8_loop, wanted, read}

-- the bytes arrive one after the other, and then the rest
abbrev pub then_rest : List ℕ → List Arrival → List Arrival
then_rest [] rest = rest
then_rest (b ∷ bs) rest = arrives b ∷ then_rest bs rest

abbrev pub waiting : List Arrival → Reader
waiting xs = record { pushback = []; input = xs }

-- the length of an encoding, by the range of its first byte
abbrev width : ℕ → ℕ
width b =
    if ltb b 0xc0
    then 1
    else if ltb b 0xe0
    then 2
    else if ltb b 0xf0
    then 3
    else if ltb b 0xf8
    then 4
    else 1

abbrev all_below : ℕ → (ℕ → Bool) → Bool
all_below zero p = true
all_below (suc n) p = p n && all_below n p

all_below_lem : (n : ℕ) (p : ℕ → Bool) → all_below n p ≡ true → (b : ℕ) → b < n → p b ≡ true
all_below_lem zero p h b lt = absurd (omega arith)
all_below_lem (suc n) p h b lt = elim (Bool-cases (b == n)) [
  | inl e ↦ let same : b ≡ n = ground arith in rw same (l.Base.and_left (p n) (all_below n p) h)
  | inr e ↦ all_below_lem n p (l.Base.and_right (p n) (all_below n p) h) b (ground arith)
]

table : all_below 256 (λ b. wanted b == width b) ≡ true
unfolding wanted
table = refl

wanted-width : (b : ℕ) → b < 256 → wanted b ≡ width b
wanted-width b lt = let e = all_below_lem 256 (λ b. wanted b == width b) table b lt in ground arith

utf8_loop_all :
    (tail out : List ℕ) (rest : List Arrival)
    → utf8_loop (length tail) out (waiting (then_rest tail rest)) ≡ (out ++ tail, waiting rest)
unfolding utf8_loop
utf8_loop_all [] out rest = ap (λ t. (t, waiting rest)) (sym (append-nil out))
utf8_loop_all (b ∷ tail) out rest =
    utf8_loop_all tail (out ++ b ∷ []) rest
    ∙ ap (λ t. (t, waiting rest)) (append_assoc out (b ∷ []) tail)

read_lead :
    (timed : Bool) (first : ℕ) (tail : List ℕ) (rest : List Arrival)
    → (first == 0x1b) ≡ false
    → wanted first - 1 ≡ length tail
    → read timed (waiting (then_rest (first ∷ tail) rest)) ≡ (some (first ∷ tail), waiting rest)
unfolding read
read_lead timed first tail rest n w =
    let all = utf8_loop_all tail (first ∷ []) rest in rw (n, w, all)

-- A character other than Escape that arrives in UTF-8 is one event, whatever arrives behind it.
pub read-utf8 :
    (timed : Bool) (c : ℕ) (rest : List Arrival)
    → c < 0x110000
    → c ≢ 0x1b
    → read timed (waiting (then_rest (utf8 c) rest)) ≡ (some (utf8 c), waiting rest)
unfolding utf8
read-utf8 timed c rest lt ne = elim (Bool-cases (ltb c 0x80)) [
  | inl e ↦
      let w = wanted-width c (ground arith) in
      rw e (read_lead timed c [] rest (ground arith) (ground (arith, w)))
  | inr e ↦ elim (Bool-cases (ltb c 0x800)) [
    | inl e₁ ↦
        let b = 0xc0 + c / 64 in
        let w = wanted-width b (ground arith) in
        rw (e, e₁)
          (read_lead timed b ((0x80 + c % 64) ∷ []) rest (ground arith) (ground (arith, w)))
    | inr e₁ ↦ elim (Bool-cases (ltb c 0x10000)) [
      | inl e₂ ↦
          let b = 0xe0 + c / 4096 in
          let w = wanted-width b (ground arith) in
          rw (e, e₁, e₂)
            (read_lead timed b ((0x80 + c / 64 % 64) ∷ (0x80 + c % 64) ∷ []) rest (ground arith)
              (ground (arith, w)))
      | inr e₂ ↦
          let b = 0xf0 + c / 262144 in
          let w = wanted-width b (ground arith) in
          rw (e, e₁, e₂)
            (read_lead timed b
              ((0x80 + c / 4096 % 64) ∷ (0x80 + c / 64 % 64) ∷ (0x80 + c % 64) ∷ []) rest
              (ground arith) (ground (arith, w)))
    ]
  ]
]
