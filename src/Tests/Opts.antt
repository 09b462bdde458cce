-- ===== src/Tests/Opts.antt =====
-- The theorem on opts at a concrete input.
use openleadr_python.Base.{◌≡◌, refl, true, some, [], ◌∷◌, ◌++◌}
use openleadr_python.Base.Int.{pos}
use openleadr_python.Base.Exec.{ok}
use openleadr_python.Ven.Transport.{received}
use openleadr_python.Ven.Opts.{Vtn, OptClient, create_opt, cancel_opt}
use openleadr_python.Ven.Opts.Kept.{create_opt-cancel_opt}
use openleadr_python.Tests.Event.{opt, made_opt, opt_is_made}

abbrev acknowledges : Vtn
acknowledges _ = received (some 1)

abbrev no_opts : OptClient
no_opts = record { opts = []; outbox = [] }

create_opt-cancel_opt_example :
    let t = create_opt acknowledges (pos 5) 9 opt no_opts in
    let u = cancel_opt acknowledges 1 t.1 in
    (t.0 ≡ ok (some 1)) × (t.1.opts ≡ [] ++ made_opt ∷ []) × (u.0 ≡ ok true) × (u.1.opts ≡ [])
create_opt-cancel_opt_example =
    create_opt-cancel_opt acknowledges (pos 5) 9 1 opt made_opt no_opts 1 refl opt_is_made refl refl
      refl
