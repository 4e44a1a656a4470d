-- ===== src/Session/Loading.antt =====
-- The loading flag of the session over a run.
use whiparc.Prelude.{
  String, ◌≡◌, refl, Bool, true, ◌||◌, not, Option, List, [], ◌∷◌, any, Option-cases, Bool-cases,
  inl, inr,
}
use whiparc.Canvas.Json.{Fields}
use whiparc.Session.Calls.{World, take_request, Event, called, replied, step, run}
use whiparc.Session.Pending.{is_awaited}
use whiparc.Session.Busy.{IsBusy, call-IsBusy, reply-IsBusy}

module _ (parse_base64 : String → Option Fields) where
  step-IsBusy : (e : Event) (w : World) → IsBusy w → IsBusy (step parse_base64 e w).0
  unfolding step
  step-IsBusy (called c) w h = call-IsBusy parse_base64 c w h
  step-IsBusy (replied i r) w h = elim (Option-cases (take_request i w.pending)) [
    | inl e ↦ rw (e, step) h
    | inr ((q, rest), e) ↦ rw (e, step) (reply-IsBusy w i rest q r e h)
  ]

  run-IsBusy : (es : List Event) (w : World) → IsBusy w → IsBusy (run parse_base64 es w)
  unfolding run
  run-IsBusy [] w h = h
  run-IsBusy (e ∷ es) w h = run-IsBusy es (step parse_base64 e w).0 (step-IsBusy e w h)

-- Is the store idle, or is a request that the pages wait for in flight?
unfoldable pub is_idle_or_busy : World → Bool
unfolding any is_awaited
is_idle_or_busy w = not w.session.is_loading || any is_awaited w.pending

-- The store never waits for nothing: after any calls and replies in any order, if it says that it is
-- loading, then the reply to a login, a signup or a verification is still to come.
pub run_waits :
    (parse_base64 : String → Option Fields) (es : List Event) (w : World)
    → is_idle_or_busy w ≡ true
    → is_idle_or_busy (run parse_base64 es w) ≡ true
unfolding is_idle_or_busy
run_waits parse_base64 es w h =
    let busy : IsBusy w = λ loading. rw loading at h in
    let after = run parse_base64 es w in
    elim (Bool-cases after.session.is_loading) [
      | inl loading ↦ rw loading (run-IsBusy parse_base64 es w busy loading)
      | inr idle ↦ rw idle refl
    ]
