-- ===== src/Workspace/Pipeline/Exclusive.antt =====
-- At most one of the two machines of a console is in use.
use whiparc.Prelude.{
  ℕ, zero, suc, ◌≤◌, String, ◌≡◌, refl, ap, ◌∙◌, ◌⊎◌, inl, inr, Option, none, some, List, [], ◌∷◌,
  arith, length, Bool-cases, Option-cases,
}
use whiparc.Workspace.Pipeline.{
  Kind, deploy_run, plan_run, destroy_run, Post, Console, handle_click, post_of, is_refused,
  PostReply, accepted, rejected, thrown, take_post_reply, fail, Message, status_change, log,
  node_status, other, raw, hear, is_enabled, sync_executing,
}
use whiparc.Workspace.Pipeline.Runs.{
  Source, held, stray, Event, pressed, answered, heard, opened, failed, closed, toggled, kind_at,
  nth_kind, take_post, act, step, run,
}
use whiparc.Workspace.Pipeline.Phases.{
  OtherIdle, Phase, IsOrderly, Phase-free, Phase-stream, Phase-post, enabled_free, begin-Waits,
  begin_kept, set_machine-OtherIdle, set_machine_kept, OtherIdle-free, Phase-idle,
}

-- After a failure of its machine nothing is under way.
fail-IsOrderly :
    (k : Kind) (message : String) (c : Console)
    → c.posts ≡ []
    → c.stream ≡ none
    → c.strays ≡ []
    → OtherIdle k c.deploy_status c.plan_status
    → IsOrderly (fail k message c)
unfolding fail
fail-IsOrderly k message c free unheld unstrayed idle =
    let kept = set_machine_kept k "FAILED" c in
    record {
      phase =
          Phase-free _ _ _ _ (kept.0 ∙ free) (kept.1 ∙ unheld)
            (OtherIdle-free k _ _ (set_machine-OtherIdle k "FAILED" c idle));
      no_strays = kept.2 ∙ unstrayed;
    }

reply-IsOrderly :
    (k : Kind) (r : PostReply) (c : Console)
    → c.posts ≡ []
    → c.stream ≡ none
    → c.strays ≡ []
    → OtherIdle k c.deploy_status c.plan_status
    → IsOrderly (take_post_reply k r c)
unfolding take_post_reply
reply-IsOrderly k (accepted run_id status) c free unheld unstrayed idle =
    let kept = set_machine_kept k status c in
    record {
      phase = Phase-stream _ _ k _ _ (kept.0 ∙ free) refl (set_machine-OtherIdle k status c idle);
      no_strays = rw (unstrayed, unheld) refl;
    }
reply-IsOrderly k (rejected status detail) c free unheld unstrayed idle =
    fail-IsOrderly k _ c free unheld unstrayed idle
reply-IsOrderly k (thrown message) c free unheld unstrayed idle =
    fail-IsOrderly k message c free unheld unstrayed idle

answered-IsOrderly :
    (i : ℕ) (r : PostReply) (ps : List Post) (s : Option Kind) (c : Console)
    → Phase ps s c.deploy_status c.plan_status
    → c.stream ≡ s
    → c.strays ≡ []
    → (q : Post) (rest : List Post) → take_post i ps ≡ some (q, rest)
    → IsOrderly (take_post_reply q.kind r (record c { posts = rest }))
unfolding take_post
answered-IsOrderly i r [] s c h es ev q rest e = absurd (cc)
answered-IsOrderly zero r (p ∷ []) none c h es ev q rest e =
    let same_q : p ≡ q = cc in
    let same_rest : [] ≡ rest = cc in
    rw (← same_q)
      (rw (← same_rest) (reply-IsOrderly p.kind r (record c { posts = [] }) refl es ev h.0))
answered-IsOrderly (suc i) r (p ∷ []) none c h es ev q rest e = absurd (cc)
answered-IsOrderly i r (p ∷ []) (some k) c h es ev q rest e = absurd h
answered-IsOrderly i r (p ∷ p' ∷ ps) s c h es ev q rest e = absurd h

-- A stream's run is under way alone.
streaming :
    (ps : List Post) (k : Kind) (d p : String) → Phase ps (some k) d p → (ps ≡ []) × OtherIdle k d p
streaming [] k d p h = (refl, h)
streaming (q ∷ []) k d p h = absurd h
streaming (q ∷ r ∷ ps) k d p h = absurd h

hear-IsOrderly :
    (k : Kind) (m : Message) (c : Console)
    → c.stream ≡ some k
    → IsOrderly c
    → IsOrderly (hear k m c)
unfolding hear
hear-IsOrderly k (status_change t) c held_one h =
    let kept = set_machine_kept k t c in
    let alone = streaming c.posts k _ _ (rw held_one at h.phase) in
    record {
      phase =
          Phase-stream _ _ k _ _ (kept.0 ∙ alone.0) (kept.1 ∙ held_one)
            (set_machine-OtherIdle k t c alone.1);
      no_strays = kept.2 ∙ h.no_strays;
    }
hear-IsOrderly k (log t) c held_one h = record { phase = h.phase; no_strays = h.no_strays }
hear-IsOrderly plan_run (node_status id st) c held_one h = h
hear-IsOrderly deploy_run (node_status id st) c held_one h = record {
  phase = h.phase;
  no_strays = h.no_strays;
}
hear-IsOrderly destroy_run (node_status id st) c held_one h = record {
  phase = h.phase;
  no_strays = h.no_strays;
}
hear-IsOrderly k other c held_one h = h
hear-IsOrderly k (raw t f) c held_one h = record { phase = h.phase; no_strays = h.no_strays }

module _ (encode : String → String) where
  post_of-kind : (k : Kind) (c : Console) → (post_of encode k c).kind ≡ k
  unfolding post_of
  post_of-kind plan_run c = refl
  post_of-kind deploy_run c = refl
  post_of-kind destroy_run c = refl

  pressed-IsOrderly : (k : Kind) (c : Console) → IsOrderly c → IsOrderly (act encode (pressed k) c)
  unfolding act handle_click
  pressed-IsOrderly k c h = elim (Bool-cases (is_enabled k c)) [
    | inr off ↦ rw off h
    | inl on ↦ rw on (elim (Bool-cases (is_refused k c.canvas.nodes)) [
      | inl r ↦ rw r record { phase = h.phase; no_strays = h.no_strays }
      | inr r ↦ rw r (
          let free = enabled_free k c.posts c.stream c h.phase on in
          let kept = begin_kept k c in
          record {
            phase = Phase-post _ _ k _ _ _ free kept.1 (post_of-kind k c) (begin-Waits k c);
            no_strays = kept.0 ∙ h.no_strays;
          })
    ])
  ]

  heard_kind :
      (source : Source) (c : Console) (k : Kind)
      → c.strays ≡ []
      → kind_at source c ≡ some k
      → c.stream ≡ some k
  unfolding kind_at nth_kind
  heard_kind held c k none_left e = e
  heard_kind (stray i) c k none_left e = absurd (ground (arith, ap (nth_kind i) none_left))

  act-IsOrderly : (e : Event) (c : Console) → IsOrderly c → IsOrderly (act encode e c)
  unfolding act
  act-IsOrderly (pressed k) c h = pressed-IsOrderly k c h
  act-IsOrderly (answered i r) c h = elim (Option-cases (take_post i c.posts)) [
    | inl gone ↦ rw (gone, act) h
    | inr ((q, rest), here) ↦
        rw (here, act)
          (answered-IsOrderly i r c.posts c.stream c h.phase refl h.no_strays q rest here)
  ]
  act-IsOrderly (heard source m) c h = elim (Option-cases (kind_at source c)) [
    | inl gone ↦ rw (gone, act) h
    | inr (k, here) ↦
        rw (here, act) (hear-IsOrderly k m c (heard_kind source c k h.no_strays here) h)
  ]
  act-IsOrderly (opened source) c h = elim (Option-cases (kind_at source c)) [
    | inl gone ↦ rw (gone, act) h
    | inr (k, here) ↦ rw (here, act) record { phase = h.phase; no_strays = h.no_strays }
  ]
  act-IsOrderly failed c h = record { phase = h.phase; no_strays = h.no_strays }
  act-IsOrderly (closed code) c h = record { phase = h.phase; no_strays = h.no_strays }
  act-IsOrderly (toggled b) c h = record { phase = h.phase; no_strays = h.no_strays }

  run-IsOrderly : (es : List Event) (c : Console) → IsOrderly c → IsOrderly (run encode es c)
  unfolding run step sync_executing
  run-IsOrderly [] c h = h
  run-IsOrderly (e ∷ es) c h =
      let after = act-IsOrderly e c h in
      run-IsOrderly es (step encode e c) record { phase = after.phase; no_strays = after.no_strays }

-- On a page that was just opened, whatever is pressed, answered and heard in whatever order, one of
-- the two machines is idle, at most one request is in flight, and no socket is left open that the
-- page does not hold.
pub run_exclusive :
    (encode : String → String) (c : Console) (es : List Event)
    → c.deploy_status ≡ "IDLE"
    → c.plan_status ≡ "IDLE"
    → c.posts ≡ []
    → c.stream ≡ none
    → c.strays ≡ []
    → (((run encode es c).deploy_status ≡ "IDLE") ⊎ ((run encode es c).plan_status ≡ "IDLE"))
      × (length (run encode es c).posts ≤ 1)
      × ((run encode es c).strays ≡ [])
run_exclusive encode c es d p free unheld unstrayed =
    let after =
      run-IsOrderly encode es c
        record { phase = Phase-free _ _ _ _ free unheld (inl d); no_strays = unstrayed } in
    let idle = Phase-idle _ _ _ _ after.phase in (idle.0, idle.1, after.no_strays)
