-- ===== src/Workspace/Pipeline/Stuck.antt =====
-- A console whose socket is lost.
use whiparc.Prelude.{String, ◌≡◌, refl, ◌∙◌, Bool, true, false, List, [], ◌∷◌, arith, All}
use whiparc.Workspace.Blocks.{is_pipeline_busy}
use whiparc.Workspace.Pipeline.{
  Kind, deploy_run, plan_run, destroy_run, Console, is_enabled, is_header_busy, sync_executing,
}
use whiparc.Workspace.Pipeline.Runs.{
  Event, pressed, answered, heard, opened, failed, closed, toggled, act, step, run,
}

-- Does an event come from the user, or say that a socket is lost?
unfoldable pub is_silent : Event → Bool
is_silent (answered i r) = false
is_silent (heard source m) = false
is_silent (opened source) = false
is_silent e = true

busy_disables :
    (k : Kind) (c : Console)
    → is_pipeline_busy c.deploy_status c.plan_status ≡ true
    → is_enabled k c ≡ false
unfolding is_enabled is_header_busy is_pipeline_busy
busy_disables plan_run c h = ground arith
busy_disables deploy_run c h = ground arith
busy_disables destroy_run c h = ground arith

-- What a busy console keeps
abbrev Kept : Console → Console → Type 0
Kept c' c =
    (c'.deploy_status ≡ c.deploy_status)
    × (c'.plan_status ≡ c.plan_status)
    × (c'.posts ≡ c.posts)
    × (c'.canvas.is_executing ≡ true)

step_stuck :
    (encode : String → String) (e : Event) (c : Console)
    → is_silent e ≡ true
    → is_pipeline_busy c.deploy_status c.plan_status ≡ true
    → Kept (step encode e c) c
unfolding step act sync_executing is_silent
step_stuck encode (pressed k) c quiet busy = rw (busy_disables k c busy) (refl, refl, refl, busy)
step_stuck encode (answered i r) c quiet busy = absurd (ground arith)
step_stuck encode (heard source m) c quiet busy = absurd (ground arith)
step_stuck encode (opened source) c quiet busy = absurd (ground arith)
step_stuck encode failed c quiet busy = (refl, refl, refl, busy)
step_stuck encode (closed code) c quiet busy = (refl, refl, refl, busy)
step_stuck encode (toggled b) c quiet busy = (refl, refl, refl, busy)

-- While a run is pending or running and no message of it arrives, nothing that the user presses and
-- no error or end of its socket changes its status: the canvas stays locked and every button disabled.
pub run_stuck :
    (encode : String → String) (es : List Event) (c : Console)
    → All (λ e. is_silent e ≡ true) es
    → is_pipeline_busy c.deploy_status c.plan_status ≡ true
    → c.canvas.is_executing ≡ true
    → ((run encode es c).deploy_status ≡ c.deploy_status)
      × ((run encode es c).plan_status ≡ c.plan_status)
      × ((run encode es c).posts ≡ c.posts)
      × ((run encode es c).canvas.is_executing ≡ true)
unfolding run
run_stuck encode [] c quiet busy on = (refl, refl, refl, on)
run_stuck encode (e ∷ es) c quiet busy on =
    let (same_d, same_p, same_posts, still_on) = step_stuck encode e c quiet.0 busy in
    let still_busy : is_pipeline_busy (step encode e c).deploy_status (step encode e c).plan_status
        ≡ true =
      rw (same_d, same_p) busy in
    let (d, p, posts, executing) =
      run_stuck encode es (step encode e c) quiet.1 still_busy still_on in
    (d ∙ same_d, p ∙ same_p, posts ∙ same_posts, executing)
