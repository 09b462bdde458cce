-- ===== src/Ven/Reports/Queue.antt =====
-- openleadr/client.py: `_report_queue_worker`, which sends the reports that are queued.
use openleadr_python.Base.{ℕ, suc, zero, ◌≡◌, ◌≢◌, refl, ap, sym, ◌∙◌, List, [], ◌∷◌, ◌++◌, length}
use openleadr_python.Base.Exec.{Exec, ok, raise, type_error, continue}
use mathlib.Core.List.{append_assoc, append-nil}
use openleadr_python.Ven.Transport.{Performed, nothing, no_message, received}
use openleadr_python.Ven.Reports.{Outgoing}

-- The queue, and the reports that have been sent in oadrUpdateReport messages.
pub record Worker : Type 0 where
  pub pending_reports : List Outgoing
  pub updates : List Outgoing

-- The VTN answers by all that it was sent.
abbrev pub Vtn : Type 0
Vtn = List Outgoing → Performed ℕ

-- What follows the answer. It is the pair of the type and the payload, in which the text
-- 'cancel_report' is looked for and never found; None has no members, and the worker ends.
unfoldable pub after_answer : Performed ℕ → Exec Worker (Unit {0})
after_answer nothing w = (raise type_error, w)
after_answer no_message w = (ok tt, w)
after_answer (received m) w = (ok tt, w)

abbrev pub send_report : Outgoing → List Outgoing → Worker → Worker
send_report r l w = record { pending_reports = l; updates = w.updates ++ r ∷ [] }

-- One round of the worker; with an empty queue it waits.
unfoldable pub work : Vtn → Exec Worker (Unit {0})
unfolding after_answer
work vtn w = elim w.pending_reports [
  | [] ↦ (ok tt, w)
  | r ∷ l ↦ after_answer (vtn (w.updates ++ r ∷ [])) (send_report r l w)
]

-- So many rounds, until one raises.
unfoldable pub rounds : Vtn → ℕ → Exec Worker (Unit {0})
unfolding work
rounds vtn zero w = (ok tt, w)
rounds vtn (suc n) w = continue (work vtn w) (λ _. rounds vtn n)

after_answer_ok : (x : Performed ℕ) (w : Worker) → x ≢ nothing → after_answer x w ≡ (ok tt, w)
unfolding after_answer
after_answer_ok nothing w h = absurd (h refl)
after_answer_ok no_message w h = refl
after_answer_ok (received m) w h = refl

-- As long as the VTN gives no empty answer, the worker sends every report that is queued, once and
-- in the order of the queue, in as many rounds as there are reports.
pub rounds_drain :
    (vtn : Vtn) (l done : List Outgoing)
    → ((log : List Outgoing) → vtn log ≢ nothing)
    → rounds vtn (length l) (record { pending_reports = l; updates = done })
      ≡ (ok tt, record { pending_reports = []; updates = done ++ l })
unfolding rounds
rounds_drain vtn [] done h =
    ap (λ u. (ok tt, record { pending_reports = []; updates = u })) (sym (append-nil done))
rounds_drain vtn (r ∷ l) done h =
    ap (λ x. continue x (λ _. rounds vtn (length l)))
      (after_answer_ok (vtn (done ++ r ∷ []))
        (record { pending_reports = l; updates = done ++ r ∷ [] }) (h (done ++ r ∷ [])))
    ∙ rounds_drain vtn l (done ++ r ∷ []) h
    ∙ ap (λ u. (ok tt, record { pending_reports = []; updates = u })) (append_assoc done (r ∷ []) l)
