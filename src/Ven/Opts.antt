-- ===== src/Ven/Opts.antt =====
-- openleadr/client.py: `create_opt` and `cancel_opt`, the opt messages of the client.
pub mod Kept
use openleadr_python.Base.{
  ℕ, Bool, true, false, ◌&&◌, Option, none, some, List, [], ◌∷◌, ◌++◌, find, remove_first, ◌==◌,
  if◌then◌else◌,
}
use openleadr_python.Base.Exec.{Exec, Result, ok, raise, type_error, value_error, ◌>>=◌}
use openleadr_python.Event.{Instant}
use openleadr_python.Event.Objects.{is_member}
use openleadr_python.Event.Objects.Opts.{Opt, opt_types, opt_reasons, make_opt}
use openleadr_python.Ven.Transport.{Performed, nothing, no_message, received}

pub data OptMessage : Type 0 where
  create : Opt → OptMessage
  cancel : ℕ → OptMessage

pub record OptClient : Type 0 where
  pub opts : List Opt
  pub outbox : List OptMessage

-- The VTN answers by all that it was sent; of the answer only a member `opt_id` counts.
abbrev pub Vtn : Type 0
Vtn = List OptMessage → Performed (Option ℕ)

-- An answer of None cannot be unpacked, and without a message there are no members.
unfoldable pub opt_id_in : Performed (Option ℕ) → Exec OptClient (Option ℕ)
opt_id_in nothing s = (raise type_error, s)
opt_id_in no_message s = (ok none, s)
opt_id_in (received o) s = (ok o, s)

abbrev pub logged : OptMessage → OptClient → OptClient
logged m s = record s { outbox = s.outbox ++ m ∷ [] }

abbrev pub ask : Vtn → OptMessage → Exec OptClient (Option ℕ)
ask vtn m s = opt_id_in (vtn (logged m s).outbox) (logged m s)

abbrev pub has_opt_id : ℕ → Opt → Bool
has_opt_id k o = elim (Opt.opt_id o) [ none ↦ false | some j ↦ j == k ]

-- `opt_id or generate_id()`
abbrev pub with_id : ℕ → Opt → Opt
with_id generated o = elim (Opt.opt_id o) [
  | none ↦ record o { opt_id = some generated }
  | some k ↦ o
]

abbrev pub store_opt : Opt → OptClient → OptClient
store_opt o s = record s { opts = s.opts ++ o ∷ [] }

abbrev pub send_opt : Vtn → Result Opt → Exec OptClient (Option ℕ)
send_opt vtn (raise e) s = (raise e, s)
send_opt vtn (ok o) s = ask vtn (create o) (store_opt o s)

-- The result is the id that the VTN acknowledges, or False. The opt is stored before it is sent,
-- and stays whatever the answer is.
unfoldable pub create_opt : Vtn → Instant → ℕ → Opt → Exec OptClient (Option ℕ)
unfolding opt_id_in
create_opt vtn now generated o s =
    if is_member o.opt_type opt_types && is_member o.opt_reason opt_reasons
    then send_opt vtn (make_opt now (with_id generated o)) s
    else (raise value_error, s)

-- The opt that is found is the first with its id, and so the first that is equal to it.
abbrev pub drop_opt : ℕ → Option ℕ → Exec OptClient Bool
drop_opt k none s = (ok false, s)
drop_opt k (some _) s = (ok true, record s { opts = remove_first (has_opt_id k) s.opts })

abbrev pub cancel_found : Vtn → ℕ → Option Opt → Exec OptClient Bool
cancel_found vtn k none s = (ok false, s)
cancel_found vtn k (some o) s = (ask vtn (cancel k) >>= drop_opt k) s

unfoldable pub cancel_opt : Vtn → ℕ → Exec OptClient Bool
unfolding opt_id_in
cancel_opt vtn k s = cancel_found vtn k (find (has_opt_id k) s.opts) s
