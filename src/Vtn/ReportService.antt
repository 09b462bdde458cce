-- ===== src/Vtn/ReportService.antt =====
-- openleadr/service/report_service.py: the reports that a VEN offers, the requests that the server
-- makes of them, with `validate_report_request_tuples` of openleadr/utils.py.
pub mod Callbacks
pub mod Rounds
pub mod Forms
pub mod Registration
pub mod Updates
pub mod Requests
pub mod Values
use Prim.Native.String.{len, slice}
use openleadr_python.Base.{
  ℕ, zero, suc, String, Bool, true, false, not, ◌&&◌, ◌||◌, Option, none, some, List, [], ◌∷◌, ◌++◌,
  map, all, find, select, elem, get_elem?, length, is_some, ◌==◌, if◌then◌else◌,
}
use openleadr_python.Base.Int.{ℤ}
use openleadr_python.Base.Exec.{
  Exec, Result, ok, raise, type_error, key_error, pure, throw, gets, or_throw, lift, modify, ◌>>=◌,
  ◌>>◌, for_each,
}
use openleadr_python.Base.Dict.{Dict, lookup, lookup_or, contains, insert}
use openleadr_python.Event.{Instant, Duration}
use openleadr_python.Event.Objects.{same_text}

pub record ReportDescription : Type 0 where
  pub r_id : ℕ
  pub resource_id : Option ℕ
  pub reading_type : ℕ
  pub measurement : Option ℕ
  pub min_period : Option Duration
  pub max_period : Option Duration

pub record Report : Type 0 where
  pub report_name : String
  pub report_specifier_id : ℕ
  pub report_descriptions : List ReportDescription

-- An element of a tuple that a handler returns.
pub data Item : Type 0 where
  text callable : ℕ → Item
  delta : Duration → Item
  other : ℕ → Item

-- What a handler returns for one datapoint.
pub data Requested : Type 0 where
  nothing not_tuple : Requested
  tuple : List Item → Requested

-- What a handler returns for a report as a whole.
pub data Returned : Type 0 where
  nothing not_list : Returned
  list : List Requested → Returned

abbrev pub is_callable : Option Item → Bool
is_callable (some (callable c)) = true
is_callable _ = false

abbrev pub is_delta : Option Item → Bool
is_delta (some (delta d)) = true
is_delta _ = false

-- The chain of checks on one tuple.
unfoldable pub is_valid_tuple : List Item → Bool
is_valid_tuple l =
    if not (length l == 3 || length l == 4)
    then false
    else if not (is_callable (get_elem? l 1))
    then false
    else if not (is_delta (get_elem? l 2))
    then false
    else if length l == 4 && not (is_delta (get_elem? l 3))
    then false
    else true

unfoldable pub validate : Requested → Requested
unfolding is_valid_tuple
validate Requested.nothing = Requested.nothing
validate not_tuple = Requested.nothing
validate (tuple l) = if is_valid_tuple l then tuple l else Requested.nothing

unfoldable pub validate_report_request_tuples :
    List (Option (List Requested)) → List (Option (List Requested))
unfolding validate
validate_report_request_tuples [] = []
validate_report_request_tuples (none ∷ l) = none ∷ validate_report_request_tuples l
validate_report_request_tuples (some r ∷ l) =
    some (map validate r) ∷ validate_report_request_tuples l

pub record SpecifierPayload : Type 0 where
  pub r_id : ℕ
  pub reading_type : ℕ

pub record ReportRequest : Type 0 where
  pub report_request_id : ℕ
  pub report_specifier_id : ℕ
  pub granularity : Duration
  pub report_back_duration : Duration
  pub specifier_payloads : List SpecifierPayload

-- A value that a VEN reports.
pub record ReportInterval : Type 0 where
  pub dtstart : Instant
  pub r_id : ℕ
  pub value : ℤ

-- The keys of the callbacks are pairs of a request's id and a datapoint's. `delivered` holds the
-- calls of callbacks so far, with the values that they were given, and `next_id` numbers the
-- identifiers that are generated.
pub record ReportService : Type 0 where
  pub report_callbacks : List ((ℕ × ℕ) × ℕ)
  pub registered_reports : Dict (List Report)
  pub requested_reports : Dict (List ReportRequest)
  pub created_reports : Dict (List ℕ)
  pub next_id : ℕ
  pub delivered : List (ℕ × List (Instant × ℤ))

abbrev pub same_key : ℕ × ℕ → ℕ × ℕ → Bool
same_key (a, b) (c, d) = a == c && b == d

abbrev pub lookup_callback : ℕ × ℕ → List ((ℕ × ℕ) × ℕ) → Option ℕ
lookup_callback k [] = none
lookup_callback k ((j, c) ∷ l) = if same_key k j then some c else lookup_callback k l

abbrev pub insert_callback : ℕ × ℕ → ℕ → List ((ℕ × ℕ) × ℕ) → List ((ℕ × ℕ) × ℕ)
insert_callback k c [] = (k, c) ∷ []
insert_callback k c ((j, b) ∷ l) =
    if same_key k j then (k, c) ∷ l else (j, b) ∷ insert_callback k c l

abbrev pub note_callback : ℕ × ℕ → ℕ → ReportService → ReportService
note_callback k c s = record s { report_callbacks = insert_callback k c s.report_callbacks }

-- `utils.generate_id()`
abbrev pub generate_id : Exec ReportService ℕ
generate_id s = (ok s.next_id, record s { next_id = suc s.next_id })

-- The sampling interval and the report interval of a tuple.
pub record Intervals : Type 0 where
  pub sampling_interval : Duration
  pub report_interval : Duration

-- One tuple: `r_id, callback, sampling_interval[, report_interval]`.
abbrev pub unpack : List Item → Option (Item × ℕ × Intervals)
unpack (r ∷ callable c ∷ delta d ∷ []) =
    some (r, c, record { sampling_interval = d; report_interval = d })
unpack (r ∷ callable c ∷ delta d ∷ delta e ∷ []) =
    some (r, c, record { sampling_interval = d; report_interval = e })
unpack _ = none

-- The description that an `r_id` names; `None['reading_type']` is a TypeError.
abbrev pub described : Report → Item → Result ReportDescription
described report (text k) =
    elim (find (λ d. ReportDescription.r_id d == k) report.report_descriptions) [
      | none ↦ raise type_error
      | some d ↦ ok d
    ]
described report _ = raise type_error

-- The body of the loop over the tuples of a request; `len(None)` is a TypeError.
unfoldable pub request_one :
    ℕ → Report → Requested → Exec ReportService (SpecifierPayload × Intervals)
request_one report_request_id report (tuple l) s = elim (unpack l) [
  | none ↦ (raise type_error, s)
  | some (r, c, i) ↦ elim (described report r) [
    | raise x ↦ (raise x, s)
    | ok rd ↦ (
      ok (record { r_id = rd.r_id; reading_type = rd.reading_type }, i),
      note_callback (report_request_id, rd.r_id) c s,
    )
  ]
]
request_one report_request_id report Requested.nothing s = (raise type_error, s)
request_one report_request_id report not_tuple s = (raise type_error, s)

-- The loop, which leaves the intervals of the last tuple behind.
unfoldable pub request_all :
    ℕ → Report → List Requested → Intervals → Exec ReportService (List SpecifierPayload × Intervals)
unfolding request_one
request_all k report [] last s = (ok ([], last), s)
request_all k report (r ∷ l) last s =
    (do
      (p, i) ← request_one k report r
      (ps, final) ← request_all k report l i
      pure (p ∷ ps, final))
      s

abbrev pub is_nothing : Requested → Bool
is_nothing Requested.nothing = true
is_nothing _ = false

-- A report is skipped if nothing of it is requested.
abbrev pub is_skipped : Option (List Requested) → Bool
is_skipped none = true
is_skipped (some l) = all is_nothing l

abbrev pub report_request : ℕ → Report → List SpecifierPayload × Intervals → ReportRequest
report_request k report (ps, i) = record {
  report_request_id = k;
  report_specifier_id = report.report_specifier_id;
  granularity = i.sampling_interval;
  report_back_duration = i.report_interval;
  specifier_payloads = ps;
}

-- The variables before the loop; no request is formed without a round of it.
abbrev pub no_intervals : Intervals
no_intervals = record { sampling_interval = ℤ.pos 0; report_interval = ℤ.pos 0 }

-- The loop that forms the requests, for each report beside what is requested of it.
unfoldable pub form_requests :
    List Report → List (Option (List Requested)) → Exec ReportService (List ReportRequest)
unfolding request_all
form_requests [] l s = (ok [], s)
form_requests (report ∷ reports) [] s = (ok [], s)
form_requests (report ∷ reports) (none ∷ l) s = form_requests reports l s
form_requests (report ∷ reports) (some r ∷ l) s =
    if is_skipped (some r)
    then form_requests reports l s
    else (do
      k ← generate_id
      found ← request_all k report r no_intervals
      rest ← form_requests reports l
      pure (report_request k report found ∷ rest))
        s
