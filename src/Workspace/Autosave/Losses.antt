-- ===== src/Workspace/Autosave/Losses.antt =====
-- Which changes the effect of Workspace/Autosave saves and sends, and which it loses.
use whiparc.Prelude.{
  ℕ, ◌≡◌, refl, sym, ap, ◌∙◌, ◌⊎◌, inl, inr, Bool, true, false, none, some, List, arith, eqb,
  if◌then◌else◌, Bool-cases,
}
use whiparc.Store.{SaveStatus, saved, saving, error, readonly}
use whiparc.Workspace.Autosave.{
  Copy, Watched, Put, Editor, edited, peer_changed, loaded, replied, PutReply, stored, conflict,
  refused, lost, is_readonly, remember, is_remembered, broadcast, arm, effect, is_seen, settle, act,
  step, load, take_reply, without, set_canvas, set_version,
}
use whiparc.Workspace.Autosave.Renders.{
  is_seen-same, is_seen_refl, effect-cases, cleaned, settle-cases,
}
use whiparc.Workspace.Autosave.Laws.{IsCurrent}

unfoldable pub is_saving : SaveStatus → Bool
is_saving saving = true
is_saving _ = false

-- The page with a change of the canvas, not yet rendered.
abbrev changed : Copy → Copy → Editor → Editor
changed nodes edges e = set_canvas nodes edges e

-- Another array than the one seen
unseen : (e : Editor) (w : Watched) → IsCurrent e → (e.now ≡ w → ⊥) → is_seen e.seen w ≡ false
unseen e w h other = elim (Bool-cases (is_seen e.seen w)) [
  | inr s ↦ s
  | inl s ↦
      let same : some e.now ≡ some w =
        sym (is_seen-same e.seen e.now h.seen_now) ∙ is_seen-same e.seen w s in
      absurd (other (cc))
]

-- The run of the effect on a change that is neither received nor remembered
effect_on_change :
    (e : Editor)
    → e.is_incoming ≡ false
    → is_readonly e.now.status ≡ false
    → is_remembered e ≡ false
    → effect (cleaned e) ≡ record (remember (broadcast (cleaned e))) {
      now = record e.now { status = saving };
      armed = some e.now.draft;
    }
unfolding effect arm is_remembered broadcast
effect_on_change e i w m = rw i (rw m (rw w refl))

saving-cases : (s : SaveStatus) → (s ≡ saving) ⊎ (is_saving s ≡ false)
unfolding is_saving
saving-cases saved = inr refl
saving-cases saving = inl refl
saving-cases error = inr refl
saving-cases readonly = inr refl

stopped :
    (w : Watched)
    → is_seen (some w) (record w { status = saving }) ≡ false
    → none ≡ (if is_saving w.status then some w.draft else none)
stopped w t = elim (saving-cases w.status) [
  | inr other ↦ rw other refl
  | inl status ↦
      let same : record w { status = saving } ≡ w = rw (← status) refl in
      let seen : is_seen (some w) w ≡ false = rw same at t in
      let clash : true ≡ false = sym (is_seen_refl w) ∙ seen in absurd (ground arith)
]

-- The second run of the effect stops the timer when the first has set another status.
rest_of_change :
    (e : Editor)
    → e.is_incoming ≡ false
    → is_readonly e.now.status ≡ false
    → is_remembered e ≡ false
    → is_seen e.seen e.now ≡ false
    → ((settle e).armed ≡ (if is_saving e.now.status then some e.now.draft else none))
      × ((settle e).now ≡ record e.now { status = saving })
      × ((settle e).puts ≡ e.puts)
unfolding broadcast is_saving
rest_of_change e i w m s =
    let first = effect_on_change e i w m in
    elim (settle-cases e) [
      | inl (s', r) ↦ absurd (ground arith)
      | inr (inl (s', t, r)) ↦
          let same : some e.now ≡ some (record e.now { status = saving }) =
            is_seen-same _ _ (rw first at t) in
          let status : e.now.status ≡ saving = cc in rw r (rw first (rw status (refl, refl, refl)))
      | inr (inr (s', t, r)) ↦ rw r (rw first (stopped e.now (rw first at t), refl, refl))
    ]

-- On a page that was opened and is not readonly, where the next change is not taken for a received
-- one, a change to a canvas other than the remembered one sets the status to saving, and the timer of
-- its save goes on only if the status said so before. From saved or error no timer runs afterwards.
-- No request of a save is added.
pub edit_armed :
    (nodes edges : Copy) (e : Editor)
    → IsCurrent e
    → e.is_incoming ≡ false
    → is_readonly e.now.status ≡ false
    → is_remembered (set_canvas nodes edges e) ≡ false
    → ((step (edited nodes edges) e).armed
        ≡ (if is_saving e.now.status then some (set_canvas nodes edges e).now.draft else none))
      × ((step (edited nodes edges) e).now
          ≡ record (set_canvas nodes edges e).now { status = saving })
      × ((step (edited nodes edges) e).puts ≡ e.puts)
unfolding step act is_remembered
edit_armed nodes edges e h i w other =
    let new = set_canvas nodes edges e in
    let fresh : is_seen e.seen new.now ≡ false = unseen e new.now h (λ (same : e.now ≡ new.now).
      elim h.known [
        | inl on ↦ ground arith
        | inr m ↦ let moved : is_remembered new ≡ true = rw same at m in ground arith
      ]) in
    rest_of_change new i w other fresh

-- When the canvas is remembered or taken for received, the renders only stop the timer.
quiet_renders :
    (e : Editor)
    → (e.is_incoming ≡ true) ⊎ (is_remembered e ≡ true)
    → is_seen e.seen e.now ≡ false
    → ((settle e).armed ≡ none)
      × ((settle e).now ≡ e.now)
      × ((settle e).puts ≡ e.puts)
      × ((settle e).broadcasts ≡ e.broadcasts)
unfolding is_remembered
quiet_renders e known s =
    let same = quiet_effect (cleaned e) known in
    elim (settle-cases e) [
      | inl (s', r) ↦ absurd (ground arith)
      | inr (inl (s', t, r)) ↦ rw r same
      | inr (inr (s', t, r)) ↦ rw r (refl, same.1, same.2, same.3)
    ]
  where
    quiet_effect :
        (e : Editor)
        → (e.is_incoming ≡ true) ⊎ (is_remembered e ≡ true)
        → ((effect e).armed ≡ e.armed)
          × ((effect e).now ≡ e.now)
          × ((effect e).puts ≡ e.puts)
          × ((effect e).broadcasts ≡ e.broadcasts)
    quiet_effect e known = elim (effect-cases e) [
      | inl (i, r) ↦ rw r (refl, refl, refl, refl)
      | inr (inl (i, m, r)) ↦ rw r (refl, refl, refl, refl)
      | inr (inr (i, m, r)) ↦ absurd (ground arith)
    ]

-- The status and the version that a reply sets
abbrev after_reply : PutReply → Watched → Watched
after_reply (stored v) w = record w { draft = record w.draft { version = v }; status = saved }
after_reply conflict w = record w { status = error }
after_reply refused w = record w { status = error }
after_reply lost w = record w { status = error }

take_reply_lem :
    (reply : PutReply) (e : Editor)
    → take_reply reply e ≡ record e { now = after_reply reply e.now }
unfolding take_reply
take_reply_lem (stored v) e = refl
take_reply_lem conflict e = refl
take_reply_lem refused e = refl
take_reply_lem lost e = refl

after_reply-other :
    (reply : PutReply) (w : Watched) → w.status ≡ saving → w ≡ after_reply reply w → ⊥
after_reply-other (stored v) w h same =
    ground (arith, ap (λ (x : Watched). is_saving x.status) same)
after_reply-other conflict w h same = ground (arith, ap (λ (x : Watched). is_saving x.status) same)
after_reply-other refused w h same = ground (arith, ap (λ (x : Watched). is_saving x.status) same)
after_reply-other lost w h same = ground (arith, ap (λ (x : Watched). is_saving x.status) same)

still_known :
    (reply : PutReply) (rest : List Put) (e : Editor)
    → (e.is_incoming ≡ true) ⊎ (is_remembered e ≡ true)
    → (e.is_incoming ≡ true)
      ⊎ (is_remembered (record e { puts = rest; now = after_reply reply e.now }) ≡ true)
unfolding is_remembered
still_known (stored v) rest e h = h
still_known conflict rest e h = h
still_known refused rest e h = h
still_known lost rest e h = h

act_replied :
    (i : ℕ) (reply : PutReply) (rest : List Put) (e : Editor)
    → without i e.puts ≡ some rest
    → act (replied i reply) e ≡ record e { puts = rest; now = after_reply reply e.now }
unfolding act
act_replied i reply rest e here = rw (here, act) (take_reply_lem reply (record e { puts = rest }))

-- A reply to a save that comes while the status says saving sets the status and stops the timer of
-- every change made since the save was sent: none of them is saved, also where the status now says
-- saved.
pub reply_disarms :
    (i : ℕ) (reply : PutReply) (rest : List Put) (e : Editor)
    → IsCurrent e
    → e.now.status ≡ saving
    → without i e.puts ≡ some rest
    → ((step (replied i reply) e).armed ≡ none)
      × ((step (replied i reply) e).now ≡ after_reply reply e.now)
      × ((step (replied i reply) e).puts ≡ rest)
unfolding step
reply_disarms i reply rest e h status here =
    let new : Editor = record e { puts = rest; now = after_reply reply e.now } in
    let quiet =
      quiet_renders new (still_known reply rest e h.known)
        (unseen e new.now h (after_reply-other reply e.now status)) in
    let stepped : settle (act (replied i reply) e) ≡ settle new =
      ap settle (act_replied i reply rest e here) in
    rw stepped (quiet.0, quiet.1, quiet.2)

-- With a change that is taken for a received one nothing is sent to the members or to the server, and
-- the timer goes on only if nothing of what is shown has changed.
received_quietly :
    (e : Editor)
    → e.is_incoming ≡ true
    → ((settle e).broadcasts ≡ e.broadcasts)
      × ((settle e).puts ≡ e.puts)
      × ((settle e).now ≡ e.now)
      × ((settle e).armed ≡ (if is_seen e.seen e.now then e.armed else none))
received_quietly e on = elim (settle-cases e) [
  | inl (s, r) ↦ rw r (refl, refl, refl, rw s refl)
  | inr (inl (s, t, r)) ↦
      let quiet = quiet_renders e (inl on) s in (quiet.3, quiet.2, quiet.1, rw s quiet.0)
  | inr (inr (s, t, r)) ↦
      let quiet = quiet_renders e (inl on) s in (quiet.3, quiet.2, quiet.1, rw s quiet.0)
]

-- A change from a member, and a canvas that is loaded, is shown and not sent to the members, no request
-- of a save is made, and no timer of a save is started: one that runs is stopped if anything
-- shown differs from what the effect last saw, and goes on otherwise.
pub no_echo :
    (nodes edges : Copy) (version : ℕ) (e : Editor)
    → let theirs = (set_canvas nodes edges e).now in
      let ours =
        (set_version (if eqb version 0 then 1 else version) (set_canvas nodes edges e)).now in
      let changed = step (peer_changed (some nodes) (some edges)) e in
      let fetched = step (loaded nodes edges version) e in
      (changed.broadcasts ≡ e.broadcasts)
      × (changed.puts ≡ e.puts)
      × (changed.now ≡ theirs)
      × (changed.armed ≡ (if is_seen e.seen theirs then e.armed else none))
      × (fetched.broadcasts ≡ e.broadcasts)
      × (fetched.puts ≡ e.puts)
      × (fetched.now ≡ ours)
      × (fetched.armed ≡ (if is_seen e.seen ours then e.armed else none))
unfolding step act load
no_echo nodes edges version e =
    let a = received_quietly (act (peer_changed (some nodes) (some edges)) e) refl in
    let b = received_quietly (act (loaded nodes edges version) e) refl in
    (a.0, a.1, a.2, a.3, b.0, b.1, b.2, b.3)
