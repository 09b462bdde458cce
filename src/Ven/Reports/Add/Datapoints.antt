-- ===== src/Ven/Reports/Add/Datapoints.antt =====
-- The datapoints of the reports before and after one is added, and the table of callbacks.
use mathlib.Core.List.{Perm, append_assoc, append-nil, perm_middle}
use mathlib.Core.List.Perm
use openleadr_python.Base.{
  ℕ, String, ◌≡◌, refl, sym, ap, subst, ◌∙◌, inl, inr, Bool, true, false, some, List, [], ◌∷◌, ◌++◌,
  map, arith, find, Bool-cases, if◌then◌else◌,
}
use openleadr_python.Event.{Instant}
use openleadr_python.Ven.Reports.{DataCollectionMode}
use openleadr_python.Ven.Reports.Add.{is_wanted, new_offer, describe, describe_first}
use openleadr_python.Ven.Reports.Add.Input.{
  Description, Offer, CallbackTable, same_key, get_callback, set_callback, Arguments,
}

pub some-inj {ℓ} : {A : Type ℓ} {x y : A} → some x ≡ some y → x ≡ y
some-inj h = cc

-- The datapoints of all reports, each with the id and the name of its report.
abbrev pub tag : Offer → Description → ℕ × String × Description
tag o d = (o.report_specifier_id, o.report_name, d)

abbrev pub datapoints : List Offer → List (ℕ × String × Description)
datapoints [] = []
datapoints (o ∷ l) = map (tag o) o.report_descriptions ++ datapoints l

pub tagged-append :
    (o : Offer) (l : List Description) (d : Description)
    → map (tag o) (l ++ d ∷ []) ≡ map (tag o) l ++ tag o d ∷ []
tagged-append o [] d = refl
tagged-append o (e ∷ l) d = ap (◌∷◌ (tag o e)) (tagged-append o l d)

pub described_here :
    (o : Offer) (d : Description) (rest : List (ℕ × String × Description))
    → Perm
        (map (tag o) (o.report_descriptions ++ d ∷ []) ++ rest)
        (tag o d ∷ (map (tag o) o.report_descriptions ++ rest))
described_here o d rest =
    subst (λ l. Perm l (tag o d ∷ (map (tag o) o.report_descriptions ++ rest)))
      (sym (
        ap (λ l. l ++ rest) (tagged-append o o.report_descriptions d)
        ∙ append_assoc (map (tag o) o.report_descriptions) (tag o d ∷ []) rest))
      (perm_middle (map (tag o) o.report_descriptions) rest)

pub described_first :
    (a : Arguments) (d : Description) (l : List Offer) (o : Offer)
    → find (is_wanted a) l ≡ some o
    → Perm (datapoints (describe_first a d l)) (tag o d ∷ datapoints l)
described_first a d [] o h = absurd (ground (arith, h))
described_first a d (x ∷ l) o h = elim (Bool-cases (is_wanted a x)) [
  | inl k ↦
      let same = some-inj (sym (ap (λ b. if b then some x else find (is_wanted a) l) k) ∙ h) in
      subst (λ q. Perm (datapoints (describe_first a d (x ∷ l))) (tag q d ∷ datapoints (x ∷ l)))
        same
        (subst
          (λ b.
            Perm (datapoints (if b then describe d x ∷ l else x ∷ describe_first a d l))
              (tag x d ∷ datapoints (x ∷ l)))
          (sym k) (described_here x d (datapoints l)))
  | inr k ↦
      let later =
        described_first a d l o
          (sym (ap (λ b. if b then some x else find (is_wanted a) l) k) ∙ h) in
      subst
        (λ b.
          Perm (datapoints (if b then describe d x ∷ l else x ∷ describe_first a d l))
            (tag o d ∷ datapoints (x ∷ l)))
        (sym k)
        (Perm.trans (Perm.append_left (map (tag x) x.report_descriptions) later)
          (perm_middle (map (tag x) x.report_descriptions) (datapoints l)))
]

pub datapoints-append :
    (l : List Offer) (o : Offer)
    → datapoints (l ++ o ∷ []) ≡ datapoints l ++ map (tag o) o.report_descriptions
datapoints-append [] o = append-nil _
datapoints-append (x ∷ l) o =
    ap (λ q. map (tag x) x.report_descriptions ++ q) (datapoints-append l o)
    ∙ sym (
        append_assoc (map (tag x) x.report_descriptions) (datapoints l)
          (map (tag o) o.report_descriptions))

-- A new report has this one datapoint.
pub described_new :
    (now : Instant) (mode : DataCollectionMode) (a : Arguments) (d : Description) (l : List Offer)
    → Perm
        (datapoints (l ++ describe d (new_offer now mode a) ∷ []))
        (tag (new_offer now mode a) d ∷ datapoints l)
described_new now mode a d l =
    subst (λ q. Perm q (tag (new_offer now mode a) d ∷ datapoints l))
      (sym (datapoints-append l (describe d (new_offer now mode a))))
      (subst
        (λ q.
          Perm (datapoints l ++ tag (new_offer now mode a) d ∷ [])
            (tag (new_offer now mode a) d ∷ q))
        (append-nil (datapoints l)) (perm_middle (datapoints l) []))

pub get_callback-set_self :
    (k : ℕ × ℕ) (f : ℕ) (t : CallbackTable) → get_callback k (set_callback k f t) ≡ some f
get_callback-set_self k f [] = ground arith
get_callback-set_self k f ((j, g) ∷ t) = ground (arith, get_callback-set_self k f t)

pub get_callback-set_other :
    (j k : ℕ × ℕ) (f : ℕ) (t : CallbackTable)
    → same_key j k ≡ false
    → get_callback j (set_callback k f t) ≡ get_callback j t
get_callback-set_other j k f [] h = ground arith
get_callback-set_other j k f ((i, g) ∷ t) h = ground (arith, get_callback-set_other j k f t h)

pub find-passes {ℓ} :
    {A : Type ℓ} (p : A → Bool) (l : List A) (x : A) → find p l ≡ some x → p x ≡ true
find-passes p [] x h = absurd (ground (arith, h))
find-passes p (y ∷ l) x h = elim (Bool-cases (p y)) [
  | inl k ↦
      subst (λ z. p z ≡ true) (some-inj (sym (ap (λ b. if b then some y else find p l) k) ∙ h)) k
  | inr k ↦ find-passes p l x (sym (ap (λ b. if b then some y else find p l) k) ∙ h)
]
