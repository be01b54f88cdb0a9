-- ===== src/Nmea/Fields.antt =====
-- The fields of a sentence in `src/drivers/nmea.cpp`: splitting undoes joining, and joining splitting.
use flight_telemetry.Prelude.{
  ℕ, ◌≡◌, refl, sym, ap, ◌∙◌, Bool-cases, inl, inr, ◌==◌, ==_iff, List, [], ◌∷◌, ◌++◌, All,
}
use flight_telemetry.Bytes.{Bytes, Without, split_at-first}
use flight_telemetry.Nmea.{fields, fields_from, comma, star}
use flight_telemetry.Nmea.Checksum.{sentence}

-- The body that has these fields.
unfoldable pub join : List Bytes → Bytes
join [] = []
join (f ∷ []) = f
join (f ∷ g ∷ more) = f ++ (comma ∷ join (g ∷ more))

join-cons : (b : ℕ) (f : Bytes) (more : List Bytes) → join ((b ∷ f) ∷ more) ≡ b ∷ join (f ∷ more)
unfolding join
join-cons b f [] = refl
join-cons b f (g ∷ more) = refl

-- A body is the join of its fields, of which there is at least one.
pub join-fields_from :
    (body : Bytes)
    → (join (fields_from body) ≡ body)
      × ((f : Bytes) × (more : List Bytes) × (fields_from body ≡ f ∷ more))
unfolding fields_from join
join-fields_from [] = (refl, ([], [], refl))
join-fields_from (b ∷ bs) =
    let (back, (f, more, shape)) = join-fields_from bs in
    elim (Bool-cases (b == comma)) [
      | inl e ↦
          let same : b ≡ comma = (==_iff b comma).0 e in
          let back' : join (f ∷ more) ≡ bs = rw shape at back in
          rw (e, shape) (λ t. sym same t ∷ back' t, ([], f ∷ more, refl))
      | inr e ↦
          let back' : join (f ∷ more) ≡ bs = rw shape at back in
          rw (e, shape) (join-cons b f more ∙ ap (λ t. b ∷ t) back', (b ∷ f, more, refl))
    ]

fields_from-one : (f : Bytes) → Without comma f → fields_from f ≡ f ∷ []
unfolding fields_from
fields_from-one [] w = refl
fields_from-one (b ∷ f) (e, w) = rw (e, fields_from-one f w) refl

fields_from-next :
    (f rest : Bytes) → Without comma f → fields_from (f ++ (comma ∷ rest)) ≡ f ∷ fields_from rest
unfolding fields_from
fields_from-next [] rest w = refl
fields_from-next (b ∷ f) rest (e, w) = rw (e, fields_from-next f rest w) refl

fields_from-join :
    (f : Bytes) (more : List Bytes)
    → All (Without comma) (f ∷ more)
    → fields_from (join (f ∷ more)) ≡ f ∷ more
unfolding join
fields_from-join f [] (w, ws) = fields_from-one f w
fields_from-join f (g ∷ more) (w, ws) =
    fields_from-next f (join (g ∷ more)) w ∙ ap (λ fs. f ∷ fs) (fields_from-join g more ws)

-- A sentence made of fields without a comma, at least one, in a body without a "*", splits into them.
pub fields-join :
    (f : Bytes) (more : List Bytes) (digits : Bytes)
    → All (Without comma) (f ∷ more)
    → Without star (join (f ∷ more))
    → fields (sentence (join (f ∷ more)) digits) ≡ f ∷ more
unfolding fields
fields-join f more digits w no_star =
    rw (split_at-first star (join (f ∷ more)) digits no_star) (fields_from-join f more w)
