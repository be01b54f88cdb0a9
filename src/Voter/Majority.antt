-- ===== src/Voter/Majority.antt =====
-- The majority of `src/processing/voter.cpp`: `find_representative` finds it when there is one, and
-- whichever lane represents it, the frame that `vote` emits is the same.
use flight_telemetry.Prelude.{
  ◌≡◌, ◌≢◌, ◌⊎◌, inl, inr, refl, Bool, true, false, Option, none, some, arith, Bool-cases, sym,
}
use flight_telemetry.Frame.{TelemetryFrame}
use flight_telemetry.Voter.{Voter, begin_cycle, eligible_lanes, stale_lanes}
use flight_telemetry.Lanes.{
  Three, Lane, first, second, third, get, tabulate, lanes_agree, pair_agrees, find_representative,
  copy_computed, for_this_frame,
}
use flight_telemetry.Voter.Agreement.{SameVerdict, lanes_agree_sym, lanes_agree_trans}

-- Two lanes in the vote that agree.
pub record Agreeing (lanes : Three TelemetryFrame) (eligible : Three Bool) (i j : Lane)
    : Type 0 where
  pub distinct : i ≢ j
  pub left : get eligible i ≡ true
  pub right : get eligible j ≡ true
  pub agree : lanes_agree (get lanes i) (get lanes j) ≡ true

pair_agrees-Agreeing :
    (lanes : Three TelemetryFrame) (eligible : Three Bool) (i j : Lane)
    → i ≢ j
    → pair_agrees lanes eligible i j ≡ true
    → Agreeing lanes eligible i j
pair_agrees-Agreeing lanes eligible i j d h = record {
  distinct = d;
  left = ground arith;
  right = ground arith;
  agree = ground arith;
}

Agreeing-pair_agrees :
    (lanes : Three TelemetryFrame) (eligible : Three Bool) (i j : Lane)
    → Agreeing lanes eligible i j
    → pair_agrees lanes eligible i j ≡ true
Agreeing-pair_agrees lanes eligible i j g = rw (g.left, g.right, g.agree) refl

Agreeing-sym :
    (lanes : Three TelemetryFrame) (eligible : Three Bool) (i j : Lane)
    → Agreeing lanes eligible i j
    → Agreeing lanes eligible j i
Agreeing-sym lanes eligible i j g = record {
  distinct = λ e. g.distinct (sym e);
  left = g.right;
  right = g.left;
  agree = lanes_agree_sym _ _ g.agree;
}

-- The three pairs, whatever the order of the two lanes.
in_order :
    (lanes : Three TelemetryFrame) (eligible : Three Bool) (i j : Lane)
    → Agreeing lanes eligible i j
    → (pair_agrees lanes eligible first second ≡ true)
      ⊎ ((pair_agrees lanes eligible first third ≡ true)
          ⊎ (pair_agrees lanes eligible second third ≡ true))
in_order lanes eligible first first g = absurd (g.distinct refl)
in_order lanes eligible second second g = absurd (g.distinct refl)
in_order lanes eligible third third g = absurd (g.distinct refl)
in_order lanes eligible first second g = inl (Agreeing-pair_agrees _ _ _ _ g)
in_order lanes eligible first third g = inr (inl (Agreeing-pair_agrees _ _ _ _ g))
in_order lanes eligible second third g = inr (inr (Agreeing-pair_agrees _ _ _ _ g))
in_order lanes eligible second first g = inl (Agreeing-pair_agrees _ _ _ _ (Agreeing-sym _ _ _ _ g))
in_order lanes eligible third first g =
    inr (inl (Agreeing-pair_agrees _ _ _ _ (Agreeing-sym _ _ _ _ g)))
in_order lanes eligible third second g =
    inr (inr (Agreeing-pair_agrees _ _ _ _ (Agreeing-sym _ _ _ _ g)))

-- What the search promises: the representative has a partner, and none means that no two agree.
abbrev pub Elected : Three TelemetryFrame → Three Bool → Option Lane → Type 0
Elected lanes eligible none = (i j : Lane) → ¬ Agreeing lanes eligible i j
Elected lanes eligible (some k) = (j : Lane) × Agreeing lanes eligible k j

pub find_representative-Elected :
    (lanes : Three TelemetryFrame) (eligible : Three Bool)
    → Elected lanes eligible (find_representative lanes eligible)
unfolding find_representative
find_representative-Elected lanes eligible =
    elim (Bool-cases (pair_agrees lanes eligible first second)) [
      | inl p ↦ rw p (second, pair_agrees-Agreeing _ _ first second (λ e. cc) p)
      | inr p ↦ rw p (elim (Bool-cases (pair_agrees lanes eligible first third)) [
        | inl q ↦ rw q (third, pair_agrees-Agreeing _ _ first third (λ e. cc) q)
        | inr q ↦ rw q (elim (Bool-cases (pair_agrees lanes eligible second third)) [
          | inl r ↦ rw r (third, pair_agrees-Agreeing _ _ second third (λ e. cc) r)
          | inr r ↦ rw r (λ i j g. elim (in_order lanes eligible i j g) [
            | inl h ↦ cc
            | inr (inl h) ↦ cc
            | inr (inr h) ↦ cc
          ])
        ])
      ])
    ]

-- Among three lanes two pairs share one.
shared_lane : (i j k l : Lane) → i ≢ j → k ≢ l → (i ≡ k) ⊎ ((i ≡ l) ⊎ ((j ≡ k) ⊎ (j ≡ l)))
shared_lane i j k l p q = ground arith

-- All agreeing lanes agree with one another: there is one majority.
pub Agreeing-agree :
    (lanes : Three TelemetryFrame) (eligible : Three Bool) (i j k l : Lane)
    → Agreeing lanes eligible i j
    → Agreeing lanes eligible k l
    → lanes_agree (get lanes i) (get lanes k) ≡ true
Agreeing-agree lanes eligible i j k l g h = elim (shared_lane i j k l g.distinct h.distinct) [
  | inl e ↦ rw (← e) (lanes_agree_trans _ _ _ g.agree (lanes_agree_sym _ _ g.agree))
  | inr (inl e) ↦ rw e (lanes_agree_sym _ _ h.agree)
  | inr (inr (inl e)) ↦ rw (← e) g.agree
  | inr (inr (inr e)) ↦ lanes_agree_trans _ _ _ g.agree (rw e (lanes_agree_sym _ _ h.agree))
]

-- The search finds a representative whenever two lanes agree, and they agree with it.
pub find_representative-Agreeing :
    (lanes : Three TelemetryFrame) (eligible : Three Bool) (i j : Lane)
    → Agreeing lanes eligible i j
    → (k : Lane) × (l : Lane) × (find_representative lanes eligible ≡ some k)
      × Agreeing lanes eligible k l
      × (lanes_agree (get lanes i) (get lanes k) ≡ true)
find_representative-Agreeing lanes eligible i j g =
    found (find_representative lanes eligible) refl (find_representative-Elected lanes eligible)
  where
    found :
        (r : Option Lane)
        → find_representative lanes eligible ≡ r
        → Elected lanes eligible r
        → (k : Lane) × (l : Lane) × (find_representative lanes eligible ≡ some k)
          × Agreeing lanes eligible k l
          × (lanes_agree (get lanes i) (get lanes k) ≡ true)
    found none e h = absurd (h i j g)
    found (some k) e (l, h) = (k, l, e, h, Agreeing-agree lanes eligible i j k l g h)

pub copy_computed-SameVerdict :
    (a b to : TelemetryFrame) → SameVerdict a b → copy_computed a to ≡ copy_computed b to
copy_computed-SameVerdict a b to s = ground arith

-- Two lanes in the vote, with outputs for this frame, that agree.
pub record Majority (v : Voter) (checked : TelemetryFrame) (lanes : Three TelemetryFrame)
    (i j : Lane) : Type 0 where
  pub distinct : i ≢ j
  pub left_in : (get v.lanes i).faulted ≡ false
  pub right_in : (get v.lanes j).faulted ≡ false
  pub left_fresh : for_this_frame (get lanes i) checked ≡ true
  pub right_fresh : for_this_frame (get lanes j) checked ≡ true
  pub agree : lanes_agree (get lanes i) (get lanes j) ≡ true

pub get-tabulate {ℓ} : {A : Type ℓ} (f : Lane → A) (k : Lane) → get (tabulate f) k ≡ f k
get-tabulate f first = refl
get-tabulate f second = refl
get-tabulate f third = refl

abbrev pub eligible_in : Voter → TelemetryFrame → Three TelemetryFrame → Three Bool
eligible_in v checked lanes = eligible_lanes v (stale_lanes v checked lanes)

lane_eligible :
    (v : Voter) (checked : TelemetryFrame) (lanes : Three TelemetryFrame) (k : Lane)
    → (get v.lanes k).faulted ≡ false
    → for_this_frame (get lanes k) checked ≡ true
    → get (eligible_in v checked lanes) k ≡ true
lane_eligible v checked lanes first p q = rw (p, q) refl
lane_eligible v checked lanes second p q = rw (p, q) refl
lane_eligible v checked lanes third p q = rw (p, q) refl

pub begin_cycle-lanes :
    (v : Voter) (checked : TelemetryFrame) → (begin_cycle v checked).lanes ≡ v.lanes
unfolding begin_cycle
begin_cycle-lanes v checked = ground arith

pub Majority-Agreeing :
    (v : Voter) (checked : TelemetryFrame) (lanes : Three TelemetryFrame) (i j : Lane)
    → Majority v checked lanes i j
    → Agreeing lanes (eligible_in v checked lanes) i j
Majority-Agreeing v checked lanes i j m = record {
  distinct = m.distinct;
  left = lane_eligible v checked lanes i m.left_in m.left_fresh;
  right = lane_eligible v checked lanes j m.right_in m.right_fresh;
  agree = m.agree;
}
