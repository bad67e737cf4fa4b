-- ===== src/Examples/Keys.antt =====
-- Runs and instances for the key reader of src/lang/term_keys.py.
use l.Base.{false, ℕ, true, ◌≡◌, ◌⊎◌, refl, none, some, List, [], ◌∷◌, arith}
use l.Keys.{Reader, arrives, quiet, read}
use l.Keys.Loops.{IsEvent, pending}
use l.Keys.Encoded.{then_rest, waiting, read-utf8}
use l.Lexer.Chars.{utf8}
use l.Keys.Frames.{read-IsEvent}

-- ESC [ A, an arrow key, and the letter q
abbrev arrow_key : Reader
arrow_key = record {
  pushback = [];
  input = arrives 0x1b ∷ arrives 0x5b ∷ arrives 0x41 ∷ arrives 0x71 ∷ [];
}

abbrev q_left : Reader
q_left = record { pushback = []; input = arrives 0x71 ∷ [] }

-- ESC, q: the q is pushed back
abbrev escape_key : Reader
escape_key = record { pushback = []; input = arrives 0x1b ∷ arrives 0x71 ∷ [] }

abbrev arrow_bytes : List ℕ
arrow_bytes = 0x1b ∷ 0x5b ∷ 0x41 ∷ []

reads_arrow : read true arrow_key ≡ (some arrow_bytes, q_left)
unfolding read
reads_arrow = refl

reads_escape :
    read true escape_key ≡ (some (0x1b ∷ []), record { pushback = 0x71 ∷ []; input = [] })
unfolding read
reads_escape = refl

gives_up : read true (record { pushback = []; input = quiet ∷ arrives 0x71 ∷ [] }) ≡ (none, q_left)
unfolding read
gives_up = refl

read-IsEvent_example :
    ((out : List ℕ) × (some arrow_bytes ≡ some out)
      × IsEvent (pending arrow_key) 16 1 (out, q_left))
    ⊎ ((some arrow_bytes ≡ none) × (pending q_left ≡ pending arrow_key) × (q_left.pushback ≡ []))
read-IsEvent_example =
    read-IsEvent true arrow_key q_left (some arrow_bytes) (omega arith) reads_arrow

-- the euro sign, and an Escape behind it
euro_bytes : utf8 0x20ac ≡ 0xe2 ∷ 0x82 ∷ 0xac ∷ []
unfolding utf8
euro_bytes = refl

read-utf8_example :
    read false (waiting (then_rest (utf8 0x20ac) (arrives 0x1b ∷ [])))
    ≡ (some (utf8 0x20ac), waiting (arrives 0x1b ∷ []))
read-utf8_example =
    read-utf8 false 0x20ac (arrives 0x1b ∷ []) (omega arith) (λ e. ground (arith, e))
