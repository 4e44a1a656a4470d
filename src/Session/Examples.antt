-- ===== src/Session/Examples.antt =====
-- A session on a page, and the theorems about the session store at it.
use whiparc.Prelude.{
  String, zero, ◌≡◌, ◌≢◌, refl, true, false, Option, none, some, [], ◌∷◌, ◌⊎◌, is_some,
}
use whiparc.Canvas.Json.{str, Fields, end, field}
use whiparc.Session.{initial, ok, text_field, object_field}
use whiparc.Session.Replies.{login_reply}
use whiparc.Session.Calls.{fetch_me, World, log_in, called, replied, step, run}
use whiparc.Session.Tokens.{Move, step-Move}
use whiparc.Session.Loading.{is_idle_or_busy, run_waits}
use whiparc.Session.Races.{login_reply-cases}

-- No token can be decoded.
abbrev parse : String → Option Fields
parse s = none

abbrev fresh : World
fresh = record { session = initial; pending = [] }

abbrev refreshing : World
refreshing = record { session = record initial { token = some "t" }; pending = fetch_me ∷ [] }

abbrev accepted : Fields
accepted = field "token" (str "t2") end

step-Move_example :
    Move refreshing
      (replied zero (ok accepted))
      (step parse (replied zero (ok accepted)) refreshing).0.session.token
step-Move_example = step-Move parse (replied zero (ok accepted)) refreshing

run_waits_example :
    is_idle_or_busy (run parse (called log_in ∷ replied zero (ok accepted) ∷ []) fresh) ≡ true
unfolding is_idle_or_busy
run_waits_example = run_waits parse (called log_in ∷ replied zero (ok accepted) ∷ []) fresh refl

signs_in :
    (run parse (called log_in ∷ replied zero (ok accepted) ∷ []) fresh).session.token ≡ some "t2"
unfolding run
signs_in = refl

login_reply-cases_example :
    ((login_reply (ok accepted) initial).0.is_loading ≡ false)
    × ((((login_reply (ok accepted) initial).1.success ≡ true)
          × ((body : Fields) × (ok accepted ≡ ok body)
              × ((login_reply (ok accepted) initial).0.token ≡ text_field "token" body)
              × ((login_reply (ok accepted) initial).0.user ≡ object_field "user" body)))
        ⊎ (((login_reply (ok accepted) initial).1.success ≡ false)
            × ((body : Fields) → ok accepted ≢ ok body)
            × ((login_reply (ok accepted) initial).0.token ≡ none)
            × ((login_reply (ok accepted) initial).0.user ≡ none)
            × (is_some (login_reply (ok accepted) initial).0.error ≡ true)))
login_reply-cases_example = login_reply-cases (ok accepted) initial
