-- ===== src/Keys/Frames.antt =====
-- `KeyReader.read`: the bytes of an event against the bytes that were pending.
use mathlib.Core.Path.{subst}
use l.Base.{
  ◌⊎◌, ℕ, ◌-◌, ◌≤◌, Bool, true, false, Option, none, some, List, [], ◌∷◌, ◌++◌, ◌≡◌, refl, sym, ap,
  ◌∙◌, ◌==◌, ◌||◌, if◌then◌else◌, length, arith, Bool-cases, inl, inr,
}
use l.Keys.{Reader, read_byte, Event, csi_loop, utf8_loop, wanted, after_escape, read}
use l.Keys.Loops.{
  arriving, pending, ByteRead, read_byte-ByteRead, IsEvent, length-snoc, csi_loop-IsEvent,
  utf8_loop-IsEvent,
}

nil_of_length : (xs : List ℕ) → length xs ≤ 0 → xs ≡ []
nil_of_length [] h = refl
nil_of_length (x ∷ xs) h = absurd (omega arith)

pushed_back :
    (xs : List ℕ) (v : ℕ) (rest : List ℕ) → xs ≡ [] → (xs ++ v ∷ []) ++ rest ≡ v ∷ (xs ++ rest)
pushed_back xs v rest e = rw e

after_escape-IsEvent :
    (r : Reader) → r.pushback ≡ [] → IsEvent (0x1b ∷ pending r) 16 1 (after_escape r)
unfolding after_escape
after_escape-IsEvent r e = go (read_byte true r) (read_byte-ByteRead true r)
  where
    go :
        (a : Option ℕ × Reader)
        → ByteRead (pending r) (length r.pushback) a
        → IsEvent (0x1b ∷ pending r) 16 1 (
            let (b, r₁) = a in
            elim b [
              | none ↦ (0x1b ∷ [], r₁)
              | some v ↦
                  if v == b'[' || v == b'O'
                  then csi_loop 14 (0x1b ∷ v ∷ []) r₁
                  else (0x1b ∷ [], record r₁ { pushback = r₁.pushback ++ v ∷ [] })
            ])
    go (none, r₁) (c, p) = record {
      conserves = ap (λ t. 0x1b ∷ t) c;
      some_bytes = omega arith;
      at_most = omega arith;
      pushed = rw p (omega arith);
    }
    go (some v, r₁) (c, p) =
        let none_left : r₁.pushback ≡ [] =
          nil_of_length r₁.pushback (omega (arith, p, ap length e)) in
        let seq =
          csi_loop-IsEvent 14 1 (0x1b ∷ v ∷ []) r₁ (omega arith)
            (omega (arith, ap length none_left)) in
        elim (v == b'[' || v == b'O')
          as (λ t. IsEvent (0x1b ∷ pending r) 16 1 (
            if t
            then csi_loop 14 (0x1b ∷ v ∷ []) r₁
            else (0x1b ∷ [], record r₁ { pushback = r₁.pushback ++ v ∷ [] }))) [
              | true ↦ record {
                conserves = seq.conserves ∙ ap (λ t. 0x1b ∷ t) c;
                some_bytes = seq.some_bytes;
                at_most = seq.at_most;
                pushed = seq.pushed;
              }
              | false ↦ record {
                conserves =
                    ap (λ t. 0x1b ∷ t)
                      (pushed_back r₁.pushback v (arriving r₁.input) none_left ∙ c);
                some_bytes = omega arith;
                at_most = omega arith;
                pushed = omega (arith, length-snoc r₁.pushback v, ap length none_left);
              }
            ]

wanted_le : (b : ℕ) → wanted b ≤ 4
unfolding wanted
wanted_le b = ground arith

framed-IsEvent :
    (first : ℕ) (r : Reader)
    → r.pushback ≡ []
    → IsEvent
        (first ∷ pending r)
        16
        1
        (if first == 0x1b then after_escape r else utf8_loop (wanted first - 1) (first ∷ []) r)
framed-IsEvent first r e = elim (Bool-cases (first == 0x1b)) [
  | inl t ↦
      let same : first ≡ 0x1b = ground (arith, t) in
      rw t (
        subst (λ b. IsEvent (b ∷ pending r) 16 1 (after_escape r)) (sym same)
          (after_escape-IsEvent r e))
  | inr t ↦
      let ev =
        utf8_loop-IsEvent (wanted first - 1) 1 (first ∷ []) r (omega arith)
          (omega (arith, ap length e)) in
      rw t (record {
        conserves = ev.conserves;
        some_bytes = ev.some_bytes;
        at_most = omega (arith, ev.at_most, wanted_le first);
        pushed = ev.pushed;
      })
]

abbrev some_event : Event → Option (List ℕ) × Reader
some_event (out, r) = (some out, r)

event-eq : (e : Event) (out : List ℕ) (r : Reader) → some_event e ≡ (some out, r) → e ≡ (out, r)
event-eq (o, q) out r h = cc

-- Framing conserves bytes, from a reader with at most one byte pushed back: an event is the front of
-- the pending bytes, has between 1 and 16 of them, and leaves at most one byte pushed back. A read that
-- gives up leaves every byte pending and none pushed back.
pub read-IsEvent :
    (timed : Bool) (r r' : Reader) (got : Option (List ℕ))
    → length r.pushback ≤ 1
    → read timed r ≡ (got, r')
    → ((out : List ℕ) × (got ≡ some out) × IsEvent (pending r) 16 1 (out, r'))
      ⊎ ((got ≡ none) × (pending r' ≡ pending r) × (r'.pushback ≡ []))
unfolding read
read-IsEvent timed r r' got h e = go (read_byte timed r) (read_byte-ByteRead timed r) e
  where
    go :
        (a : Option ℕ × Reader)
        → ByteRead (pending r) (length r.pushback) a
        → (let (b, r₁) = a in
            let x : Option (List ℕ) × Reader = elim b [
              | none ↦ (none, r₁)
              | some first ↦ some_event (
                  if first == 0x1b
                  then after_escape r₁
                  else utf8_loop (wanted first - 1) (first ∷ []) r₁)
            ] in
            x)
          ≡ (got, r')
        → ((out : List ℕ) × (got ≡ some out) × IsEvent (pending r) 16 1 (out, r'))
          ⊎ ((got ≡ none) × (pending r' ≡ pending r) × (r'.pushback ≡ []))
    go (none, r₁) (c, p) g =
        let same : r₁ ≡ r' = cc in
        inr (cc, subst (λ z. pending z ≡ pending r) same c, subst (λ z. z.pushback ≡ []) same p)
    go (some first, r₁) (c, p) g =
        let none_left = nil_of_length r₁.pushback (omega (arith, p, h)) in
        let ev = framed-IsEvent first r₁ none_left in
        as_event
          (if first == 0x1b then after_escape r₁ else utf8_loop (wanted first - 1) (first ∷ []) r₁)
          (subst
            (λ q. IsEvent q 16 1 (
              if first == 0x1b
              then after_escape r₁
              else utf8_loop (wanted first - 1) (first ∷ []) r₁))
            c ev)
          g
      where
        as_event :
            (e : Event)
            → IsEvent (pending r) 16 1 e
            → some_event e ≡ (got, r')
            → ((out : List ℕ) × (got ≡ some out) × IsEvent (pending r) 16 1 (out, r'))
              ⊎ ((got ≡ none) × (pending r' ≡ pending r) × (r'.pushback ≡ []))
        as_event (o, q) ev k =
            let same : q ≡ r' = cc in
            inl (o, cc, subst (λ z. IsEvent (pending r) 16 1 (o, z)) same ev)
