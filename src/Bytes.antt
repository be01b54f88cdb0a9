-- ===== src/Bytes.antt =====
-- Text as the source walks it: a `std::string` or a view is the list of its bytes, each below 256.
use Prim.Native.Char.{code}
use Prim.Native.String.{String}
use Prim.Native.Nat.{bit_xor}
use flight_telemetry.Prelude.{
  ℕ, zero, suc, ◌+◌, ◌≡◌, ◌<◌, ◌≤◌, ◌↔◌, refl, ap, Bool, true, false, Bool-cases, inl, inr, ◌&&◌,
  ◌==◌, ==_iff, ltb, ltb→lt, if◌then◌else◌, Option, none, some, List, [], ◌∷◌, ◌++◌, All, arith,
  sym, ◌∙◌,
}

abbrev pub Bytes : Type 0
Bytes = List ℕ

-- The bytes of an ASCII text.
abbrev pub codes : String → Bytes
codes String.[] = []
codes (String.◌∷◌ c s) = code c ∷ codes s

-- `==` on strings.
abbrev pub same : Bytes → Bytes → Bool
same [] [] = true
same [] (b ∷ bs) = false
same (a ∷ as') [] = false
same (a ∷ as') (b ∷ bs) = a == b && same as' bs

pub same_iff : (a b : Bytes) → (same a b ≡ true) ↔ (a ≡ b)
same_iff [] [] = (λ _. refl, λ _. refl)
same_iff [] (b ∷ bs) = (λ e. cc, λ e. cc)
same_iff (a ∷ as') [] = (λ e. cc, λ e. cc)
same_iff (a ∷ as') (b ∷ bs) =
    let (from, to) = same_iff as' bs in
    (
      λ e.
          let (p, q) = both e in
          let head = (==_iff a b).0 p in let tail = from q in λ t. head t ∷ tail t,
      λ e.
          let same_head : a ≡ b = cc in
          let same_tail : as' ≡ bs = cc in rw ((==_iff a b).1 same_head, to same_tail) refl,
    )
  where
    both : {x y : Bool} → x && y ≡ true → (x ≡ true) × (y ≡ true)
    both h = ground arith

abbrev pub is_empty : Bytes → Bool
is_empty [] = true
is_empty (b ∷ bs) = false

-- The text before the first `mark` and the text after it, if there is one: `find` and two `substr`.
unfoldable pub split_at : ℕ → Bytes → Option (Bytes × Bytes)
split_at mark [] = none
split_at mark (b ∷ bs) =
    let rest = split_at mark bs in
    if b == mark
    then some ([], bs)
    else elim rest [ none ↦ none | some (before, after) ↦ some (b ∷ before, after) ]

-- A text without the byte.
abbrev pub Without : ℕ → Bytes → Type 0
Without mark bs = All (λ (b : ℕ). (b == mark) ≡ false) bs

pub split_at-first :
    (mark : ℕ) (before after : Bytes)
    → Without mark before
    → split_at mark (before ++ (mark ∷ after)) ≡ some (before, after)
unfolding split_at
split_at-first mark [] after w = rw (self mark) refl
  where
    self : (n : ℕ) → (n == n) ≡ true
    self n = ground arith
split_at-first mark (b ∷ before) after (e, w) = rw (e, split_at-first mark before after w) refl

pub split_at-none : (mark : ℕ) (bs : Bytes) → Without mark bs → split_at mark bs ≡ none
unfolding split_at
split_at-none mark [] w = refl
split_at-none mark (b ∷ bs) (e, w) = rw (e, split_at-none mark bs w) refl

-- The exclusive or of bytes, from a start.
unfoldable pub xor_of : ℕ → Bytes → ℕ
xor_of sum [] = sum
xor_of sum (b ∷ bs) = xor_of (bit_xor sum b) bs

-- A test run on `left` numbers from `first` on.
passes_from : ℕ → ℕ → (ℕ → Bool) → Bool
passes_from first zero test = true
passes_from first (suc left) test =
    let later = passes_from (first + 1) left test in if test first then later else false

-- A number in the range is the first one, or in the rest of it.
passes_from-number :
    (first left : ℕ) (test : ℕ → Bool) (n : ℕ)
    → passes_from first left test ≡ true
    → first ≤ n
    → n < first + left
    → test n ≡ true
unfolding passes_from
passes_from-number first zero test n ok low high = absurd (omega (arith, low, high))
passes_from-number first (suc left) test n ok low high = elim (Bool-cases (n == first)) [
  | inl e ↦ let same_number = (==_iff n first).0 e in rw same_number (ground (arith, ok))
  | inr e ↦
      let beyond : first + 1 ≤ n = ground (arith, low, e) in
      passes_from-number (first + 1) left test n (ground (arith, ok)) beyond (omega (arith, high))
]

abbrev xor_laws : ℕ → ℕ → Bool
xor_laws a b =
    ltb (bit_xor a b) 256 && (bit_xor (bit_xor a b) b == a && bit_xor a (bit_xor a b) == b)

xor_table : passes_from 0 256 (λ a. passes_from 0 256 (xor_laws a)) ≡ true
unfolding passes_from
xor_table = refl

xor_law : (a b : ℕ) → a < 256 → b < 256 → xor_laws a b ≡ true
xor_law a b h k =
    let row = passes_from-number 0 256 (λ x. passes_from 0 256 (xor_laws x)) a xor_table in
    passes_from-number 0 256 (xor_laws a) b (row (omega arith) (omega (arith, h))) (omega arith)
      (omega (arith, k))

xor_byte : (a b : ℕ) → a < 256 → b < 256 → bit_xor a b < 256
xor_byte a b h k = let law = xor_law a b h k in ltb→lt _ _ (ground (arith, law))

xor_right : (a b : ℕ) → a < 256 → b < 256 → bit_xor (bit_xor a b) b ≡ a
xor_right a b h k = let law = xor_law a b h k in (==_iff _ _).0 (ground (arith, law))

xor_left : (a b : ℕ) → a < 256 → b < 256 → bit_xor a (bit_xor a b) ≡ b
xor_left a b h k = let law = xor_law a b h k in (==_iff _ _).0 (ground (arith, law))

abbrev pub AreBytes : Bytes → Type 0
AreBytes bs = All (λ (b : ℕ). b < 256) bs

-- Two sums that the same bytes make equal were equal.
xor_of-injective :
    (a b : ℕ) (bs : Bytes) → a < 256 → b < 256 → AreBytes bs → xor_of a bs ≡ xor_of b bs → a ≡ b
unfolding xor_of
xor_of-injective a b [] h k w e = e
xor_of-injective a b (x ∷ bs) h k (l, w) e =
    let inner =
      xor_of-injective (bit_xor a x) (bit_xor b x) bs (xor_byte a x h l) (xor_byte b x k l) w e in
    sym (xor_right a x h l) ∙ ap (λ s. bit_xor s x) inner ∙ xor_right b x k l

-- A sum over a text tells any single byte of it from any other.
pub xor_of-one_byte :
    (sum a b : ℕ) (before after : Bytes)
    → sum < 256
    → a < 256
    → b < 256
    → AreBytes before
    → AreBytes after
    → xor_of sum (before ++ (a ∷ after)) ≡ xor_of sum (before ++ (b ∷ after))
    → a ≡ b
unfolding xor_of
xor_of-one_byte sum a b [] after s h k v w e =
    let inner =
      xor_of-injective (bit_xor sum a) (bit_xor sum b) after (xor_byte sum a s h)
        (xor_byte sum b s k) w e in
    sym (xor_left sum a s h) ∙ ap (bit_xor sum) inner ∙ xor_left sum b s k
xor_of-one_byte sum a b (x ∷ before) after s h k (l, v) w e =
    xor_of-one_byte (bit_xor sum x) a b before after (xor_byte sum x s l) h k v w e
