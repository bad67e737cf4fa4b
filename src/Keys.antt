-- ===== src/Keys.antt =====
-- src/lang/term_keys.py, class `KeyReader`: terminal bytes framed into key events.
-- `select.select` and `os.read` are the list of what arrives: a byte, or a quiet time in which a timed
-- wait gives up. Behind its end the descriptor is closed and `os.read` returns no data.
pub mod Loops
pub mod Frames
pub mod Encoded
use Prim.Native.Nat.{bit_and}
use l.Base.{
  ℕ, zero, suc, ◌+◌, ◌-◌, ◌<◌, Bool, true, false, Option, none, some, List, [], ◌∷◌, ◌++◌, ◌==◌,
  ◌&&◌, ◌||◌, ltb, leb, if◌then◌else◌, length,
}

pub data Arrival : Type 0 where
  arrives : ℕ → Arrival
  quiet : Arrival

pub record Reader : Type 0 where
  pub pushback : List ℕ
  pub input : List Arrival

-- os.read(fd, 1), behind a select with a timeout if `timed`
unfoldable pub next_input : Bool → List Arrival → Option ℕ × List Arrival
next_input timed [] = (none, [])
next_input timed (arrives b ∷ xs) = (some b, xs)
next_input true (quiet ∷ xs) = (none, xs)
next_input false (quiet ∷ xs) = next_input false xs

unfoldable pub take_byte : Bool → List ℕ → List Arrival → Option ℕ × Reader
unfolding next_input
take_byte timed (b ∷ bs) xs = (some b, record { pushback = bs; input = xs })
take_byte timed [] xs =
    let (b, ys) = next_input timed xs in (b, record { pushback = []; input = ys })

unfoldable pub read_byte : Bool → Reader → Option ℕ × Reader
unfolding take_byte
read_byte timed r = take_byte timed r.pushback r.input

abbrev pub Event : Type 0
Event = List ℕ × Reader

-- while len(out) < 16: the rounds left are 16 - len(out)
unfoldable pub csi_loop : ℕ → List ℕ → Reader → Event
unfolding read_byte
csi_loop zero out r = (out, r)
csi_loop (suc k) out r =
    let (b, r₁) = read_byte true r in
    elim b [
      | none ↦ (out, r₁)
      | some v ↦
          if leb 0x40 v && leb v 0x7e then (out ++ v ∷ [], r₁) else csi_loop k (out ++ v ∷ []) r₁
    ]

-- while len(out) < wanted
unfoldable pub utf8_loop : ℕ → List ℕ → Reader → Event
unfolding read_byte
utf8_loop zero out r = (out, r)
utf8_loop (suc k) out r =
    let (b, r₁) = read_byte true r in
    elim b [ none ↦ (out, r₁) | some v ↦ utf8_loop k (out ++ v ∷ []) r₁ ]

unfoldable pub wanted : ℕ → ℕ
wanted first =
    if bit_and first 0xe0 == 0xc0
    then 2
    else if bit_and first 0xf0 == 0xe0
    then 3
    else if bit_and first 0xf8 == 0xf0
    then 4
    else 1

-- the bytes after ESC
unfoldable pub after_escape : Reader → Event
unfolding csi_loop
after_escape r =
    let (b, r₁) = read_byte true r in
    elim b [
      | none ↦ (0x1b ∷ [], r₁)
      | some v ↦
          if v == b'[' || v == b'O'
          then csi_loop 14 (0x1b ∷ v ∷ []) r₁
          else (0x1b ∷ [], record r₁ { pushback = r₁.pushback ++ v ∷ [] })
    ]

unfoldable pub read : Bool → Reader → Option (List ℕ) × Reader
unfolding after_escape utf8_loop wanted
read timed r =
    let (b, r₁) = read_byte timed r in
    elim b [
      | none ↦ (none, r₁)
      | some first ↦
          let (out, r₂) =
            if first == 0x1b
            then after_escape r₁
            else utf8_loop (wanted first - 1) (first ∷ []) r₁ in
          (some out, r₂)
    ]
