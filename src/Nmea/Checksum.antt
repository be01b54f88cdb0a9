-- ===== src/Nmea/Checksum.antt =====
-- The checksum of `src/drivers/nmea.cpp`: a sentence that passes fails with any one byte of its body changed.
use flight_telemetry.Prelude.{
  ℕ, ◌≡◌, ◌≢◌, ◌<◌, refl, sym, ◌∙◌, Bool, true, false, Bool-cases, inl, inr, ◌==◌, ==_iff, Option,
  none, some, [], ◌∷◌, ◌++◌, arith,
}
use flight_telemetry.Bytes.{Bytes, Without, AreBytes, split_at-first, xor_of, xor_of-one_byte}
use flight_telemetry.Nmea.{checksum_ok, checksum_value, dollar, star}

-- A sentence by its body and what follows the "*".
abbrev pub sentence : Bytes → Bytes → Bytes
sentence body digits = dollar ∷ (body ++ (star ∷ digits))

abbrev agrees : Option ℕ → ℕ → Bool
agrees none sum = false
agrees (some value) sum = sum == value

-- The check of a sentence is that of the sum over its body.
pub checksum_ok-sentence :
    (body digits : Bytes)
    → Without star body
    → checksum_ok (sentence body digits) ≡ agrees (checksum_value digits) (xor_of 0 body)
unfolding checksum_ok
checksum_ok-sentence body digits w =
    rw (split_at-first star body digits w)
      (elim (checksum_value digits)
        as (λ v.
          elim v [ none ↦ false | some value ↦ xor_of 0 body == value ]
          ≡ agrees v (xor_of 0 body)) [ none ↦ refl | some value ↦ refl ])

agrees-same : (v : Option ℕ) (a b : ℕ) → agrees v a ≡ true → agrees v b ≡ true → a ≡ b
agrees-same none a b h k = cc
agrees-same (some value) a b h k = (==_iff a value).0 h ∙ sym ((==_iff b value).0 k)

Without-change :
    (mark a b : ℕ) (before after : Bytes)
    → (b == mark) ≡ false
    → Without mark (before ++ (a ∷ after))
    → Without mark (before ++ (b ∷ after))
Without-change mark a b [] after e (_, w) = (e, w)
Without-change mark a b (x ∷ before) after e (p, w) = (p, Without-change mark a b before after e w)

-- A sentence that passes the checksum fails it with one byte of its body replaced by another byte that is
-- not a "*".
pub checksum-one_byte :
    (a b : ℕ) (before after digits : Bytes)
    → a ≢ b
    → a < 256
    → b < 256
    → AreBytes before
    → AreBytes after
    → Without star (before ++ (a ∷ after))
    → (b == star) ≡ false
    → checksum_ok (sentence (before ++ (a ∷ after)) digits) ≡ true
    → checksum_ok (sentence (before ++ (b ∷ after)) digits) ≡ false
checksum-one_byte a b before after digits d h k v w no_star e ok =
    let right = checksum_ok-sentence (before ++ (a ∷ after)) digits no_star in
    let wrong =
      checksum_ok-sentence (before ++ (b ∷ after)) digits
        (Without-change star a b before after e no_star) in
    elim (Bool-cases (checksum_ok (sentence (before ++ (b ∷ after)) digits))) [
      | inr f ↦ f
      | inl t ↦ absurd (
          d (
            xor_of-one_byte 0 a b before after (omega arith) h k v w
              (agrees-same (checksum_value digits) _ _ (sym right ∙ ok) (sym wrong ∙ t))))
    ]
