-- ===== src/Event/Objects/Periods.antt =====
-- The period that the constructor of events makes.
use openleadr_python.Base.{◌≡◌, sym, refl, ap, ◌∙◌, inl, inr, List, [], ◌∷◌, map, arith, Bool-cases}
use openleadr_python.Base.Int.{ℤ, ◌-ℤ◌, leb_ℤ, -ℤ_parts}
use openleadr_python.Base.Exec.{ok}
use openleadr_python.Event.Period.{
  Span, span_end, greater, min_of, max_of, plain_period, get_active_period_from_intervals,
}
use openleadr_python.Event.Objects.{period_of_spans}

leb_ℤ-shift : (a b c : ℤ) → leb_ℤ (a -ℤ c) (b -ℤ c) ≡ leb_ℤ a b
leb_ℤ-shift a b c = ground (arith, -ℤ_parts a c, -ℤ_parts b c)

greater-shift : (a b c : ℤ) → greater (a -ℤ c) (b -ℤ c) ≡ greater a b -ℤ c
unfolding greater
greater-shift a b c = elim (Bool-cases (leb_ℤ a b)) [
  | inl k ↦ rw (leb_ℤ-shift a b c, k) refl
  | inr k ↦ rw (leb_ℤ-shift a b c, k) refl
]

max_of-shift :
    (a c : ℤ) (l : List Span)
    → max_of (a -ℤ c) (map (λ i. span_end i -ℤ c) l) ≡ max_of a (map span_end l) -ℤ c
unfolding max_of
max_of-shift a c [] = refl
max_of-shift a c (s ∷ l) =
    ap (λ z. max_of z (map (λ i. span_end i -ℤ c) l)) (greater-shift a (span_end s) c)
    ∙ max_of-shift (greater a (span_end s)) c l

-- For one interval or more, over all signals, the constructor's period is the one that
-- `get_active_period_from_intervals` finds, though the two take their differences in another order.
pub period_of_spans-get_active_period :
    (s : Span) (l : List Span)
    → (p : Span) × (get_active_period_from_intervals (s ∷ l) ≡ ok p)
      × (period_of_spans (s ∷ l) ≡ ok (plain_period p))
unfolding get_active_period_from_intervals period_of_spans
period_of_spans-get_active_period s l =
    let start = min_of s.dtstart (map Span.dtstart l) in
    (
      record {
        dtstart = start;
        duration = max_of (span_end s -ℤ start) (map (λ i. span_end i -ℤ start) l);
      },
      refl,
      ap (λ d. ok (plain_period (record { dtstart = start; duration = d })))
          (sym (max_of-shift (span_end s) start l)),
    )
