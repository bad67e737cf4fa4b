-- ===== src/Keys/Loops.antt =====
-- The loops of `KeyReader.read`, and the bytes that are pending before and after them.
use l.Base.{
  ℕ, zero, suc, ◌+◌, ◌-◌, ◌<◌, ◌≤◌, Bool, true, false, Option, none, some, List, [], ◌∷◌, ◌++◌, ◌≡◌,
  refl, ap, ◌∙◌, ◌&&◌, leb, if◌then◌else◌, length, length-append, arith,
}
use mathlib.Core.List.{append_assoc}
use l.Keys.{
  Arrival, arrives, quiet, Reader, next_input, take_byte, read_byte, Event, csi_loop, utf8_loop,
}

-- the bytes of the list of arrivals
abbrev pub arriving : List Arrival → List ℕ
arriving [] = []
arriving (arrives b ∷ xs) = b ∷ arriving xs
arriving (quiet ∷ xs) = arriving xs

-- every byte that the reader has still to hand out, in order
abbrev pub pending : Reader → List ℕ
pending r = r.pushback ++ arriving r.input

-- What one byte read does to a reader with these pending bytes and so many bytes pushed back.
abbrev pub ByteRead : List ℕ → ℕ → Option ℕ × Reader → Type 0
ByteRead p n (none, r) = (pending r ≡ p) × (r.pushback ≡ [])
ByteRead p n (some b, r) = (b ∷ pending r ≡ p) × (length r.pushback ≤ n - 1)

next_input-ByteRead :
    (timed : Bool) (n : ℕ) (xs : List Arrival)
    → let (b, ys) : Option ℕ × List Arrival = next_input timed xs in
      ByteRead (arriving xs) n (b, record { pushback = []; input = ys })
unfolding next_input
next_input-ByteRead timed n [] = (refl, refl)
next_input-ByteRead timed n (arrives b ∷ xs) = (refl, omega arith)
next_input-ByteRead true n (quiet ∷ xs) = (refl, refl)
next_input-ByteRead false n (quiet ∷ xs) = next_input-ByteRead false n xs

take_byte-ByteRead :
    (timed : Bool) (bs : List ℕ) (xs : List Arrival)
    → ByteRead (bs ++ arriving xs) (length bs) (take_byte timed bs xs)
unfolding take_byte
take_byte-ByteRead timed [] xs = next_input-ByteRead timed 0 xs
take_byte-ByteRead timed (b ∷ bs) xs = (refl, omega arith)

pub read_byte-ByteRead :
    (timed : Bool) (r : Reader) → ByteRead (pending r) (length r.pushback) (read_byte timed r)
unfolding read_byte
read_byte-ByteRead timed r = take_byte-ByteRead timed r.pushback r.input

-- An event at the end of a reading that began with these bytes pending: it took its bytes off the
-- front of them, has at least one and at most n, and leaves at most k bytes pushed back.
pub record IsEvent (p : List ℕ) (n k : ℕ) (e : Event) : Type 0 where
  pub conserves : e.0 ++ pending e.1 ≡ p
  pub some_bytes : 0 < length e.0
  pub at_most : length e.0 ≤ n
  pub pushed : length e.1.pushback ≤ k

pub extend_out : (out : List ℕ) (v : ℕ) (q p : List ℕ) → v ∷ q ≡ p → (out ++ v ∷ []) ++ q ≡ out ++ p
extend_out out v q p h = append_assoc out (v ∷ []) q ∙ ap (λ t. out ++ t) h

pub length-snoc : (out : List ℕ) (v : ℕ) → length (out ++ v ∷ []) ≡ length out + 1
length-snoc out v = omega (arith, length-append out (v ∷ []))

pub csi_loop-IsEvent :
    (k j : ℕ) (out : List ℕ) (r : Reader)
    → 0 < length out
    → length r.pushback ≤ j
    → IsEvent (out ++ pending r) (length out + k) j (csi_loop k out r)
unfolding csi_loop
csi_loop-IsEvent zero j out r h e = record {
  conserves = refl;
  some_bytes = h;
  at_most = omega arith;
  pushed = e;
}
csi_loop-IsEvent (suc k) j out r h e =
    go (read_byte true r) (read_byte-ByteRead true r) (csi_loop-IsEvent k j)
  where
    go :
        (a : Option ℕ × Reader)
        → ByteRead (pending r) (length r.pushback) a
        → ((out' : List ℕ) (r' : Reader)
            → 0 < length out'
            → length r'.pushback ≤ j
            → IsEvent (out' ++ pending r') (length out' + k) j (csi_loop k out' r'))
        → IsEvent (out ++ pending r) (length out + suc k) j (
            let (b, r₁) = a in
            elim b [
              | none ↦ (out, r₁)
              | some v ↦
                  if leb 0x40 v && leb v 0x7e
                  then (out ++ v ∷ [], r₁)
                  else csi_loop k (out ++ v ∷ []) r₁
            ])
    go (none, r₁) (c, p) ih = record {
      conserves = ap (λ t. out ++ t) c;
      some_bytes = h;
      at_most = omega arith;
      pushed = rw p (omega arith);
    }
    go (some v, r₁) (c, p) ih =
        let more = ih (out ++ v ∷ []) r₁ (omega (arith, length-snoc out v)) (omega (arith, p, e)) in
        elim (leb 0x40 v && leb v 0x7e)
          as (λ t.
            IsEvent (out ++ pending r) (length out + suc k) j
              (if t then (out ++ v ∷ [], r₁) else csi_loop k (out ++ v ∷ []) r₁)) [
                | true ↦ record {
                  conserves = extend_out out v (pending r₁) (pending r) c;
                  some_bytes = omega (arith, length-snoc out v);
                  at_most = omega (arith, length-snoc out v);
                  pushed = omega (arith, p, e);
                }
                | false ↦ record {
                  conserves = more.conserves ∙ extend_out out v (pending r₁) (pending r) c;
                  some_bytes = more.some_bytes;
                  at_most = omega (arith, length-snoc out v, more.at_most);
                  pushed = more.pushed;
                }
              ]

pub utf8_loop-IsEvent :
    (k j : ℕ) (out : List ℕ) (r : Reader)
    → 0 < length out
    → length r.pushback ≤ j
    → IsEvent (out ++ pending r) (length out + k) j (utf8_loop k out r)
unfolding utf8_loop
utf8_loop-IsEvent zero j out r h e = record {
  conserves = refl;
  some_bytes = h;
  at_most = omega arith;
  pushed = e;
}
utf8_loop-IsEvent (suc k) j out r h e =
    go (read_byte true r) (read_byte-ByteRead true r) (utf8_loop-IsEvent k j)
  where
    go :
        (a : Option ℕ × Reader)
        → ByteRead (pending r) (length r.pushback) a
        → ((out' : List ℕ) (r' : Reader)
            → 0 < length out'
            → length r'.pushback ≤ j
            → IsEvent (out' ++ pending r') (length out' + k) j (utf8_loop k out' r'))
        → IsEvent (out ++ pending r) (length out + suc k) j (
            let (b, r₁) = a in
            elim b [ none ↦ (out, r₁) | some v ↦ utf8_loop k (out ++ v ∷ []) r₁ ])
    go (none, r₁) (c, p) ih = record {
      conserves = ap (λ t. out ++ t) c;
      some_bytes = h;
      at_most = omega arith;
      pushed = rw p (omega arith);
    }
    go (some v, r₁) (c, p) ih =
        let more = ih (out ++ v ∷ []) r₁ (omega (arith, length-snoc out v)) (omega (arith, p, e)) in
        record {
          conserves = more.conserves ∙ extend_out out v (pending r₁) (pending r) c;
          some_bytes = more.some_bytes;
          at_most = omega (arith, length-snoc out v, more.at_most);
          pushed = more.pushed;
        }
