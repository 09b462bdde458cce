-- ===== src/Ven/Reports/Add/Adds.antt =====
-- What adding a datapoint does to the reports that the client offers.
use mathlib.Core.List.{Perm}
use openleadr_python.Base.{ℕ, String, ◌≡◌, ◌⊎◌, false, Option, none, some, ◌∷◌}
use openleadr_python.Base.Exec.{Result, ok, raise}
use openleadr_python.Ven.Reports.Add.{r_id_of, description_of}
use openleadr_python.Ven.Reports.Add.Input.{same_key, get_callback, Offers, Arguments}
use openleadr_python.Ven.Reports.Add.Prepared.{IsLeft, HasScale, IsMeasured}
use openleadr_python.Ven.Reports.Add.Datapoints.{datapoints}

-- What a call that returns has done: the reports have one more datapoint, all the others as they
-- were; it has its callback, and every other callback stays; its measurement is the object that the
-- argument stands for, and has the scale.
pub record Adds (a : Arguments) (s : Offers) (r : Option ℕ × ℕ) (t : Offers) : Type 0 where
  pub report : ℕ
  pub item : Option ℕ
  pub scale : String
  pub offered :
      Perm
        (datapoints t.reports)
        ((report, a.report_name, description_of a item) ∷ datapoints s.reports)
  pub callback : get_callback (report, r_id_of a) t.report_callbacks ≡ some a.callback
  pub others :
      (k : ℕ × ℕ)
      → same_key k (report, r_id_of a) ≡ false
      → get_callback k t.report_callbacks ≡ get_callback k s.report_callbacks
  pub asked : a.scale ≡ some scale
  pub scaled : HasScale scale item t.items
  pub measured : IsMeasured a s item
  pub datapoint : r.1 ≡ r_id_of a
  pub specifier : (r.0 ≡ some report) ⊎ ((r.0 ≡ none) × (a.report_specifier_id ≡ none))
  pub as_given : (k : ℕ) → a.report_specifier_id ≡ some k → report ≡ k
  pub dicts_kept : t.dicts ≡ s.dicts

abbrev pub Outcome : Arguments → Offers → Result (Option ℕ × ℕ) × Offers → Type 0
Outcome a s (raise e, t) = IsLeft a.measurement s t
Outcome a s (ok r, t) = Adds a s r t
