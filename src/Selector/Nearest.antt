-- ===== src/Selector/Nearest.antt =====
-- The loop of `AircraftSelector::update` of `src/drivers/aircraft_selector.cpp` over the states of a response.
use mathlib.Core.List.Memᴰ
use mathlib.Core.List.{Memᴰ}
use flight_telemetry.Prelude.{
  ℕ, ◌≡◌, refl, Bool, true, false, Bool-cases, ◌⊎◌, inl, inr, not, ◌&&◌, ◌||◌, ltb, ◌==◌, Option,
  none, some, List, [], ◌∷◌, ◌++◌, All, All-snoc, All-imp, arith, append-nil, append_assoc, subst,
}
use flight_telemetry.Float.{Double}
use flight_telemetry.Double.{DoubleOps, double_is_nan, double_place}
use flight_telemetry.Bytes.{Bytes}
use flight_telemetry.Selector.{
  AircraftState, SelectorConfig, text_lt, candidate, distance_of, is_nearer, consider, nearest_from,
}

and_false : {x y : Bool} → (x ≡ false) ⊎ (y ≡ false) → (x && y) ≡ false
and_false h = ground (arith, h)

and_true : {x y : Bool} → (x && y) ≡ false → y ≡ true → x ≡ false
and_true h k = ground (arith, h, k)

both : {x y : Bool} → x && y ≡ true → (x ≡ true) × (y ≡ true)
both h = ground arith

text_lt_trans : (a b c : Bytes) → text_lt a b ≡ true → text_lt b c ≡ true → text_lt a c ≡ true
unfolding text_lt
text_lt_trans [] [] c h k = absurd cc
text_lt_trans [] (b ∷ bs) [] h k = absurd cc
text_lt_trans [] (b ∷ bs) (c ∷ cs) h k = refl
text_lt_trans (a ∷ as') [] c h k = absurd cc
text_lt_trans (a ∷ as') (b ∷ bs) [] h k = absurd cc
text_lt_trans (a ∷ as') (b ∷ bs) (c ∷ cs) h k =
    let later = text_lt_trans as' bs cs in ground (arith, h, k, later)

-- The comparison of two candidates by whether their distances are numbers, their places and their names.
abbrev closer : Bool → Bool → ℕ → ℕ → Bool → Bool
closer m n p q name = not m && not n && ltb p q || not m && not n && p == q && name

closer_trans :
    (l m n : Bool) (p q r : ℕ) (s t u : Bool)
    → (s ≡ true → t ≡ true → u ≡ true)
    → closer l m p q s ≡ true
    → closer m n q r t ≡ true
    → closer l n p r u ≡ true
closer_trans l m n p q r s t u names h k = ground (arith, names, h, k)

text_lt_self : (a : Bytes) → text_lt a a ≡ false
unfolding text_lt
text_lt_self [] = refl
text_lt_self (a ∷ as') = let later = text_lt_self as' in ground (arith, later)

closer_self : (n : Bool) (p : ℕ) (s : Bool) → s ≡ false → closer n n p p s ≡ false
closer_self n p s e = ground (arith, e)

module _ (ops : DoubleOps) (config : SelectorConfig) where
  abbrev Seen : Type 0
  Seen = Option (AircraftState × Double)

  nearer_trans :
      (a b c : AircraftState) (d e f : Double)
      → is_nearer ops config a d b e ≡ true
      → is_nearer ops config b e c f ≡ true
      → is_nearer ops config a d c f ≡ true
  nearer_trans a b c d e f h k =
      closer_trans (double_is_nan d) (double_is_nan e) (double_is_nan f) (double_place d)
        (double_place e) (double_place f) (text_lt a.icao24 b.icao24) (text_lt b.icao24 c.icao24)
        (text_lt a.icao24 c.icao24) (text_lt_trans a.icao24 b.icao24 c.icao24) h k

  -- No candidate among the states comes before this one.
  abbrev pub NoneNearer : List AircraftState → AircraftState → Double → Type 0
  NoneNearer states best best_m =
      All
        (λ (a : AircraftState).
          (candidate ops config a && is_nearer ops config a (distance_of ops config a) best best_m)
          ≡ false)
        states

  -- What the loop has after the states it has seen.
  abbrev pub IsChosen : List AircraftState → Seen → Type 0
  IsChosen states none = All (λ (a : AircraftState). candidate ops config a ≡ false) states
  IsChosen states (some (best, best_m)) =
      Memᴰ best states
      × (candidate ops config best ≡ true)
      × (best_m ≡ distance_of ops config best)
      × NoneNearer states best best_m

  NoneNearer-snoc :
      (seen : List AircraftState) (a best : AircraftState) (m : Double)
      → NoneNearer seen best m
      → is_nearer ops config a (distance_of ops config a) best m ≡ false
      → NoneNearer (seen ++ (a ∷ [])) best m
  NoneNearer-snoc seen a best m h e = All-snoc _ seen a h (and_false (inr e))

  -- A nearer one is nearest, since none is nearer than the one it replaces.
  NoneNearer-replaced :
      (seen : List AircraftState) (a b : AircraftState) (m : Double)
      → is_nearer ops config a (distance_of ops config a) b m ≡ true
      → NoneNearer seen b m
      → NoneNearer seen a (distance_of ops config a)
  NoneNearer-replaced seen a b m n h = All-imp _ _ shift seen h
    where
      d : AircraftState → Double
      d = distance_of ops config

      shift :
          (x : AircraftState)
          → (candidate ops config x && is_nearer ops config x (d x) b m) ≡ false
          → (candidate ops config x && is_nearer ops config x (d x) a (d a)) ≡ false
      shift x h = elim (Bool-cases (is_nearer ops config x (d x) a (d a))) [
        | inr e ↦ and_false (inr e)
        | inl e ↦ and_false (inl (and_true h (nearer_trans x a b (d x) (d a) m e n)))
      ]

  is_nearer_self :
      (a : AircraftState)
      → is_nearer ops config a (distance_of ops config a) a (distance_of ops config a) ≡ false
  is_nearer_self a =
      let d = distance_of ops config a in
      closer_self (double_is_nan d) (double_place d) (text_lt a.icao24 a.icao24)
        (text_lt_self a.icao24)

  consider-IsChosen :
      (seen : List AircraftState) (a : AircraftState) (best : Seen)
      → IsChosen seen best
      → IsChosen (seen ++ (a ∷ [])) (consider ops config a best)
  unfolding consider
  consider-IsChosen seen a none h = elim (Bool-cases (candidate ops config a)) [
    | inr e ↦ rw e (All-snoc _ seen a h e)
    | inl e ↦ rw e (
      Memᴰ.append_right seen (Memᴰ.head refl),
      e,
      refl,
      All-snoc _ seen a (All-imp _ _ (λ x c. and_false (inl c)) seen h)
          (and_false (inr (is_nearer_self a))),
    )
  ]
  consider-IsChosen seen a (some (b, m)) (i, c, d, h) = elim (Bool-cases (candidate ops config a)) [
    | inr e ↦ rw e (Memᴰ.append_left (a ∷ []) i, c, d, All-snoc _ seen a h (and_false (inl e)))
    | inl e ↦ elim (Bool-cases (is_nearer ops config a (distance_of ops config a) b m)) [
      | inl n ↦
          rw (e, n)
            (
              Memᴰ.append_right seen (Memᴰ.head refl),
              e,
              refl,
              NoneNearer-snoc seen a a (distance_of ops config a)
                  (NoneNearer-replaced seen a b m n h) (is_nearer_self a),
            )
      | inr n ↦ rw (e, n) (Memᴰ.append_left (a ∷ []) i, c, d, NoneNearer-snoc seen a b m h n)
    ]
  ]

  nearest_from_after :
      (seen rest : List AircraftState) (best : Seen)
      → IsChosen seen best
      → IsChosen (seen ++ rest) (nearest_from ops config best rest)
  unfolding nearest_from
  nearest_from_after seen [] best h = rw (append-nil seen) h
  nearest_from_after seen (a ∷ rest) best h =
      subst
        (λ (l : List AircraftState).
          IsChosen l (nearest_from ops config (consider ops config a best) rest))
        (append_assoc seen (a ∷ []) rest)
        (nearest_from_after (seen ++ (a ∷ [])) rest (consider ops config a best)
          (consider-IsChosen seen a best h))

  -- The loop over a response ends with one of its candidates, than which no candidate of it is nearer or
  -- as near with a smaller address, at the distance of that one; and with none only when no state is a
  -- candidate.
  pub nearest_from-IsChosen :
      (states : List AircraftState) → IsChosen states (nearest_from ops config none states)
  nearest_from-IsChosen states = nearest_from_after [] states none tt
