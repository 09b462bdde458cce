-- ===== src/Event/Period.antt =====
-- utils.get_active_period_from_intervals: the period that a list of intervals spans.
use openleadr_python.Base.{◌≡◌, refl, ◌⊎◌, none, List, [], ◌∷◌, map, arith, All, if◌then◌else◌}
use openleadr_python.Base.Int.{ℤ, ◌+ℤ◌, ◌-ℤ◌, ◌≤ℤ◌, leb_ℤ, int_laws}
use openleadr_python.Base.Exec.{Result, ok, raise, index_error}
use openleadr_python.Event.{Instant, Duration, Interval, ActivePeriod}

-- A start and a duration: what the function reads of an interval or of an active period.
pub record Span : Type 0 where
  pub dtstart : Instant
  pub duration : Duration

abbrev pub span_of_interval : Interval → Span
span_of_interval i = record { dtstart = i.dtstart; duration = i.duration }

abbrev pub span_end : Span → Instant
span_end s = s.dtstart +ℤ s.duration

unfoldable pub lesser : ℤ → ℤ → ℤ
lesser a b = if leb_ℤ a b then a else b

unfoldable pub greater : ℤ → ℤ → ℤ
greater a b = if leb_ℤ a b then b else a

-- `min` and `max` of a first number and others
unfoldable pub min_of : ℤ → List ℤ → ℤ
unfolding lesser
min_of a [] = a
min_of a (b ∷ l) = min_of (lesser a b) l

unfoldable pub max_of : ℤ → List ℤ → ℤ
unfolding greater
max_of a [] = a
max_of a (b ∷ l) = max_of (greater a b) l

unfoldable pub get_active_period_from_intervals : List Span → Result Span
unfolding min_of max_of
get_active_period_from_intervals [] = raise index_error
get_active_period_from_intervals (s ∷ l) =
    let start = min_of s.dtstart (map Span.dtstart l) in
    ok (record {
      dtstart = start;
      duration = max_of (span_end s -ℤ start) (map (λ i. span_end i -ℤ start) l);
    })

-- A period with no other member than its start and its duration.
abbrev pub plain_period : Span → ActivePeriod
plain_period s = record {
  dtstart = s.dtstart;
  duration = s.duration;
  tolerance = none;
  notification_period = none;
  ramp_up_period = none;
  recovery_period = none;
}

lesser_bounds :
    (a b : ℤ) → (lesser a b ≤ℤ a) × (lesser a b ≤ℤ b) × ((lesser a b ≡ a) ⊎ (lesser a b ≡ b))
unfolding lesser
lesser_bounds a b = ground arith

greater_bounds :
    (a b : ℤ) → (a ≤ℤ greater a b) × (b ≤ℤ greater a b) × ((greater a b ≡ a) ⊎ (greater a b ≡ b))
unfolding greater
greater_bounds a b = ground arith

min_of-le : (a : ℤ) (l : List ℤ) → (min_of a l ≤ℤ a) × All (λ x. min_of a l ≤ℤ x) l
unfolding min_of
min_of-le a [] = omega arith
min_of-le a (b ∷ l) =
    let h = min_of-le (lesser a b) l in
    let k = lesser_bounds a b in (omega (arith, h.0, k.0), (omega (arith, h.0, k.1), h.1))

max_of-le : (a : ℤ) (l : List ℤ) → (a ≤ℤ max_of a l) × All (λ x. x ≤ℤ max_of a l) l
unfolding max_of
max_of-le a [] = omega arith
max_of-le a (b ∷ l) =
    let h = max_of-le (greater a b) l in
    let k = greater_bounds a b in (omega (arith, h.0, k.0), (omega (arith, h.0, k.1), h.1))

min_of_greatest : (q a : ℤ) (l : List ℤ) → q ≤ℤ a → All (λ x. q ≤ℤ x) l → q ≤ℤ min_of a l
unfolding min_of
min_of_greatest q a [] h hs = h
min_of_greatest q a (b ∷ l) h hs =
    min_of_greatest q (lesser a b) l (unfold lesser in ground (arith, hs.0)) hs.1

max_of_least : (q a : ℤ) (l : List ℤ) → a ≤ℤ q → All (λ x. x ≤ℤ q) l → max_of a l ≤ℤ q
unfolding max_of
max_of_least q a [] h hs = h
max_of_least q a (b ∷ l) h hs =
    max_of_least q (greater a b) l (unfold greater in ground (arith, hs.0)) hs.1

-- A span is inside another one.
abbrev pub Within : Span → Span → Type 0
Within p i = (p.dtstart ≤ℤ i.dtstart) × (span_end i ≤ℤ span_end p)

module _ (start d : ℤ) where
  starts-Within :
      (l : List Span)
      → All (λ x. start ≤ℤ x) (map Span.dtstart l)
      → All (λ x. x ≤ℤ d) (map (λ i. span_end i -ℤ start) l)
      → All (Within (record { dtstart = start; duration = d })) l
  starts-Within [] h k = tt
  starts-Within (i ∷ l) h k = ((h.0, omega (int_laws, k.0)), starts-Within l h.1 k.1)

module _ (q : Span) (start : ℤ) where
  starts_after : (l : List Span) → All (Within q) l → All (λ x. q.dtstart ≤ℤ x) (map Span.dtstart l)
  starts_after [] h = tt
  starts_after (i ∷ l) h = (h.0.0, starts_after l h.1)

  ends_before :
      (l : List Span)
      → All (Within q) l
      → All (λ x. x ≤ℤ span_end q -ℤ start) (map (λ i. span_end i -ℤ start) l)
  ends_before [] h = tt
  ends_before (i ∷ l) h = (omega (int_laws, h.0.1), ends_before l h.1)

-- For one interval or more the function returns a period which holds every interval, and which
-- is inside of every other period that does.
pub get_active_period_from_intervals_spans :
    (s : Span) (l : List Span)
    → (p : Span) × (get_active_period_from_intervals (s ∷ l) ≡ ok p)
      × All (Within p) (s ∷ l)
      × ((q : Span) → All (Within q) (s ∷ l) → Within q p)
unfolding get_active_period_from_intervals
get_active_period_from_intervals_spans s l =
    let low = min_of-le s.dtstart (map Span.dtstart l) in
    let high = max_of-le (span_end s -ℤ start) (map (λ i. span_end i -ℤ start) l) in
    (
      record { dtstart = start; duration = width },
      refl,
      ((low.0, omega (int_laws, high.0)), starts-Within start width l low.1 high.1),
      λ q h. (
        min_of_greatest q.dtstart s.dtstart (map Span.dtstart l) h.0.0 (starts_after q start l h.1),
        let top =
              max_of_least (span_end q -ℤ start) (span_end s -ℤ start)
                (map (λ i. span_end i -ℤ start) l) (omega (int_laws, h.0.1))
                (ends_before q start l h.1) in
            omega (int_laws, top),
      ),
    )
  where
    start : ℤ
    start = min_of s.dtstart (map Span.dtstart l)

    width : ℤ
    width = max_of (span_end s -ℤ start) (map (λ i. span_end i -ℤ start) l)
