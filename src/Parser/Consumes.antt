-- ===== src/Parser/Consumes.antt =====
-- How far a parse reads: rules for the steps of Parser.Monad.
use l.Base.{
  ℕ, zero, suc, ◌+◌, ◌-◌, ◌*◌, ◌<◌, ◌≤◌, String, Bool, true, false, Option, none, some, List, [],
  ◌∷◌, ◌≡◌, refl, length, arith, str_eq, if◌then◌else◌,
}
use l.Base.Results.{Result, ok, err}
use l.Parser.Tokens.{Token, name, int, float, byte, string, word, eof}
use l.Parser.Monad.{
  Parse, Failure, lang, index_error, out_of_fuel, SyntaxError, ◌>>=◌, ret, fail, exhausted, look,
  look_in, peek, attempt, follow, is_word, a_word, a_name, take, take_name, expected, expected_name,
}

-- The last token is the end of the file.
abbrev pub EndsEof : List Token → Type 0
EndsEof [] = ⊥
EndsEof (t ∷ []) = t ≡ eof
EndsEof (t ∷ u ∷ ts) = EndsEof (u ∷ ts)

-- at most so many tokens, the last of them the end of the file
abbrev pub Within : ℕ → List Token → Type 0
Within a ts = (length ts ≤ a) × EndsEof ts

-- The parse leaves at most so many tokens, or raises a LangError.
abbrev pub Leaves : {A : Type 0} → ℕ → Result Failure (A × List Token) → Type 0
Leaves b (ok (x, ts)) = Within b ts
Leaves b (err (lang e)) = Unit
Leaves b (err index_error) = ⊥
Leaves b (err out_of_fuel) = ⊥

-- From at most a tokens it leaves at most b.
pub record Consumes {A : Type 0} (a b : ℕ) (p : Parse A) : Type 0 where
  pub at : (ts : List Token) → Within a ts → Leaves b (p ts)

Within-tail :
    (a : ℕ) (t : Token) (ts : List Token) → ¬ (t ≡ eof) → Within a (t ∷ ts) → Within (a - 1) ts
Within-tail a t [] n (le, e) = absurd (n e)
Within-tail a t (u ∷ ts) n (le, e) = (omega arith, e)

Within-weaken : (a b : ℕ) (ts : List Token) → a ≤ b → Within a ts → Within b ts
Within-weaken a b ts le (h, e) = (omega arith, e)

module _ {A : Type 0} where
  pub Consumes-ret : {a b : ℕ} (x : A) → a ≤ b → Consumes a b (ret x)
  unfolding ret
  Consumes-ret {a = a} {b = b} x le = record { at = λ ts w. Within-weaken a b ts le w }

  pub Consumes-fail : {a b : ℕ} (e : SyntaxError) → Consumes {A = A} a b (fail e)
  unfolding fail
  Consumes-fail e = record { at = λ ts w. tt }

  Leaves-weaken : (a b : ℕ) (r : Result Failure (A × List Token)) → a ≤ b → Leaves a r → Leaves b r
  Leaves-weaken a b (ok (x, ts)) le h = Within-weaken a b ts le h
  Leaves-weaken a b (err (lang e)) le h = tt
  Leaves-weaken a b (err index_error) le h = absurd h
  Leaves-weaken a b (err out_of_fuel) le h = absurd h

  pub Consumes-weaken : {a b c : ℕ} {p : Parse A} → Consumes a b p → b ≤ c → Consumes a c p
  Consumes-weaken {a = a} {b = b} {c = c} {p = p} h le = record {
    at = λ ts w. Leaves-weaken b c (p ts) le (h.at ts w);
  }

  -- No text is without its end, so at least one token is there.
  pub Consumes-some :
      {a b : ℕ} {p : Parse A} → ((n : ℕ) → a ≡ suc n → Consumes a b p) → Consumes a b p
  Consumes-some {a = zero} h = record { at = λ ts w. absurd (none_left ts w) }
    where
      none_left : (ts : List Token) → Within zero ts → ⊥
      none_left [] w = w.1
      none_left (t ∷ ts) w = omega (arith, w.0)
  Consumes-some {a = suc n} h = h n refl

  pub Consumes-look :
      {X : Type 0} {a b : ℕ} (test : Token → Option X) {found : X → Parse A} {missing : Parse A}
      → test eof ≡ none
      → ((x : X) → Consumes (a - 1) b (found x))
      → Consumes a b missing
      → Consumes a b (look test found missing)
  unfolding look
  Consumes-look {X = X} {a = a} {b = b} test {found = found} {missing = missing} e h k = record {
    at = here;
  }
    where
      not_eof : (t : Token) (x : X) → test t ≡ some x → ¬ (t ≡ eof)
      not_eof t x s n = let same : test t ≡ test eof = l.Base.ap test n in cc (same, s, e)

      go :
          (t : Token) (ts : List Token) (o : Option X)
          → test t ≡ o
          → Within a (t ∷ ts)
          → Leaves b (elim o [ some x ↦ found x ts | none ↦ missing (t ∷ ts) ])
      go t ts (some x) s w = (h x).at ts (Within-tail a t ts (not_eof t x s) w)
      go t ts none s w = k.at (t ∷ ts) w

      here : (ts : List Token) → Within a ts → Leaves b (look test found missing ts)
      here [] w = absurd w.1
      here (t ∷ ts) w = go t ts (test t) refl w

  pub Consumes-peek :
      {a b : ℕ} (test : Token → Bool) {p q : Parse A}
      → Consumes a b p
      → Consumes a b q
      → Consumes a b (peek test p q)
  unfolding peek
  Consumes-peek {a = a} {b = b} test {p = p} {q = q} h k = record { at = here }
    where
      go : (c : Bool) (ts : List Token) → Within a ts → Leaves b (if c then p ts else q ts)
      go true ts w = h.at ts w
      go false ts w = k.at ts w

      here : (ts : List Token) → Within a ts → Leaves b (peek test p q ts)
      here [] w = absurd w.1
      here (t ∷ ts) w = go (test t) (t ∷ ts) w

  pub Consumes-if :
      {a b : ℕ} {p q : Parse A} (c : Bool)
      → Consumes a b p
      → Consumes a b q
      → Consumes a b (if c then p else q)
  Consumes-if true h k = h
  Consumes-if false h k = k

  pub Consumes-look_in :
      {a b : ℕ} {found : String → Parse A} {missing : Parse A}
      → ((n : String) → Consumes (a - 1) b (found n))
      → Consumes a b missing
      → Consumes a b (look_in found missing)
  unfolding look_in
  Consumes-look_in {a = a} {b = b} {found = found} {missing = missing} h k = record { at = here }
    where
      in_eof : (t : Token) → is_word "in" t ≡ true → ¬ (t ≡ eof)
      in_eof (word w) s n = cc
      in_eof (name w) s n = cc
      in_eof (int w) s n = cc
      in_eof (float w) s n = cc
      in_eof (byte w) s n = cc
      in_eof (string w) s n = cc
      in_eof eof s n = cc

      go :
          (n : String) (t : Token) (ts : List Token) (c : Bool)
          → is_word "in" t ≡ c
          → Within a (name n ∷ t ∷ ts)
          → Leaves b (if c then found n ts else missing (name n ∷ t ∷ ts))
      go n t ts true s w =
          let later =
            Within-tail (a - 1) t ts (in_eof t s) (Within-tail a (name n) (t ∷ ts) (λ e. cc) w) in
          (h n).at ts (Within-weaken (a - 1 - 1) (a - 1) ts (omega arith) later)
      go n t ts false s w = k.at (name n ∷ t ∷ ts) w

      here : (ts : List Token) → Within a ts → Leaves b (look_in found missing ts)
      here [] w = absurd w.1
      here (name n ∷ []) w = cc (w.1)
      here (name n ∷ t ∷ ts) w = go n t ts (is_word "in" t) refl w
      here (int x ∷ ts) w = k.at (int x ∷ ts) w
      here (float x ∷ ts) w = k.at (float x ∷ ts) w
      here (word x ∷ ts) w = k.at (word x ∷ ts) w
      here (byte x ∷ ts) w = k.at (byte x ∷ ts) w
      here (string x ∷ ts) w = k.at (string x ∷ ts) w
      here (eof ∷ ts) w = k.at (eof ∷ ts) w

  pub Consumes-attempt :
      {a b : ℕ} {p : Parse (Option A)} → Consumes a b p → b ≤ a → Consumes a a (attempt p)
  unfolding attempt
  Consumes-attempt {a = a} {b = b} {p = p} h le = record { at = λ ts w. go ts (p ts) w (h.at ts w) }
    where
      go :
          (ts : List Token) (r : Result Failure (Option A × List Token))
          → Within a ts
          → Leaves b r
          → Leaves a (l.Parser.Monad.restore ts r)
      go ts (ok (some x, rest)) w l = Within-weaken b a rest le l
      go ts (ok (none, rest)) w l = w
      go ts (err (lang e)) w l = w
      go ts (err index_error) w l = absurd l
      go ts (err out_of_fuel) w l = absurd l

pub Consumes-bind :
    {A B : Type 0} {a b c : ℕ} {p : Parse A} {k : A → Parse B}
    → Consumes a b p
    → ((x : A) → Consumes b c (k x))
    → Consumes a c (p >>= k)
unfolding ◌>>=◌
Consumes-bind {A = A} {B = B} {a = a} {b = b} {c = c} {p = p} {k = k} h g = record {
  at = λ ts w. go (p ts) (h.at ts w);
}
  where
    go : (r : Result Failure (A × List Token)) → Leaves b r → Leaves c (follow r k)
    go (ok (x, ts)) l = (g x).at ts l
    go (err (lang e)) l = tt
    go (err index_error) l = absurd l
    go (err out_of_fuel) l = absurd l

pub Consumes-take : {a : ℕ} (k : String) → Consumes a (a - 1) (take k)
Consumes-take {a = a} k =
    Consumes-look _ refl (λ x. Consumes-ret x (omega arith)) (Consumes-fail (expected k))

pub Consumes-take_name : {a : ℕ} → Consumes a (a - 1) take_name
Consumes-take_name {a = a} =
    Consumes-look _ refl (λ x. Consumes-ret x (omega arith)) (Consumes-fail expected_name)
