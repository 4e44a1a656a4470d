-- ===== src/Workspace/Autosave/Laws.antt =====
-- What holds between two events: a timer that runs would save the canvas as it is shown.
use whiparc.Prelude.{
  String, ◌≡◌, refl, sym, ◌∙◌, ◌⊎◌, inl, inr, true, false, Option, none, some, List, [], ◌∷◌,
  Bool-cases, Option-cases,
}
use whiparc.Store.{saving}
use whiparc.Workspace.Autosave.{
  Draft, Watched, Put, Editor, Event, edited, peer_changed, opened, loaded, signed, connected,
  fired, replied, PutReply, stored, conflict, refused, lost, is_readonly, remember, is_remembered,
  broadcast, arm, effect, is_seen, settle, act, step, run, blank, load, take_reply, without,
}
use whiparc.Workspace.Autosave.Renders.{
  is_seen-same, is_seen_refl, effect-cases, effect_remembers, cleaned, settle-cases,
}

-- A timer's draft is what the page shows, which waits to be saved.
abbrev pub ArmedIs : Option Draft → Watched → Type 0
ArmedIs none w = Unit {0}
ArmedIs (some d) w = (d ≡ w.draft) × (w.status ≡ saving)

-- Between two events: the effect has run on what is shown; what is shown is the canvas that the page
-- remembers, unless the next change is taken for a received one; and a timer saves what is shown.
pub record IsCurrent (e : Editor) : Type 0 where
  pub seen_now : is_seen e.seen e.now ≡ true
  pub known : (e.is_incoming ≡ true) ⊎ (is_remembered e ≡ true)
  pub armed_now : ArmedIs e.armed e.now

arm-ArmedIs : (e : Editor) → e.armed ≡ none → ArmedIs (arm e).armed (arm e).now
unfolding arm
arm-ArmedIs e idle = elim (Bool-cases (is_readonly e.now.status)) [
  | inl r ↦ rw r (rw idle tt)
  | inr r ↦ rw r (refl, refl)
]

broadcast_armed : (e : Editor) → (broadcast e).armed ≡ e.armed
unfolding broadcast
broadcast_armed e = refl

effect-ArmedIs : (e : Editor) → e.armed ≡ none → ArmedIs (effect e).armed (effect e).now
effect-ArmedIs e idle = elim (effect-cases e) [
  | inl (i, r) ↦ rw r (rw idle tt)
  | inr (inl (i, m, r)) ↦ rw r (rw idle tt)
  | inr (inr (i, m, r)) ↦ rw r (arm-ArmedIs (remember (broadcast e)) (broadcast_armed e ∙ idle))
]

settle-IsCurrent : (e : Editor) → (is_seen e.seen e.now ≡ true → IsCurrent e) → IsCurrent (settle e)
settle-IsCurrent e same = elim (settle-cases e) [
  | inl (s, r) ↦ rw r (same s)
  | inr (inl (s, s', r)) ↦ rw r record {
    seen_now = s';
    known = inr (effect_remembers (cleaned e)).0;
    armed_now = effect-ArmedIs (cleaned e) refl;
  }
  | inr (inr (s, s', r)) ↦ rw r record {
    seen_now = is_seen_refl (effect (cleaned e)).now;
    known = inr (unfold is_remembered in (effect_remembers (cleaned e)).0);
    armed_now = tt;
  }
]

-- What an event leaves alone before the renders.
abbrev Like : Editor → Editor → Type 0
Like e' e =
    (e'.seen ≡ e.seen)
    × (e'.last_nodes ≡ e.last_nodes)
    × (e'.last_edges ≡ e.last_edges)
    × ((e'.armed ≡ e.armed) ⊎ (e'.armed ≡ none))
    × ((e'.is_incoming ≡ e.is_incoming) ⊎ (e'.is_incoming ≡ true))

act-Like : (event : Event) (e : Editor) → Like (act event e) e
unfolding act load take_reply
act-Like (edited n m) e = (refl, refl, refl, inl refl, inl refl)
act-Like (peer_changed n m) e = (refl, refl, refl, inl refl, inr refl)
act-Like (opened true) e = (refl, refl, refl, inl refl, inl refl)
act-Like (opened false) e = (refl, refl, refl, inl refl, inl refl)
act-Like (loaded n m v) e = (refl, refl, refl, inl refl, inr refl)
act-Like (signed t) e = (refl, refl, refl, inl refl, inl refl)
act-Like (connected b) e = (refl, refl, refl, inl refl, inl refl)
act-Like fired e = elim (Option-cases e.armed) [
  | inl idle ↦ rw (idle, act) (refl, refl, refl, inr idle, inl refl)
  | inr (d, some_d) ↦ rw (some_d, act) (refl, refl, refl, inr refl, inl refl)
]
act-Like (replied i reply) e = elim (Option-cases (without i e.puts)) [
  | inl gone ↦ rw (gone, act) (refl, refl, refl, inl refl, inl refl)
  | inr (rest, here) ↦ rw (here, act) (take_reply-Like reply rest e)
]
  where
    take_reply-Like :
        (r : PutReply) (rest : List Put) (e : Editor)
        → Like (take_reply r (record e { puts = rest })) e
    take_reply-Like (stored v) rest e = (refl, refl, refl, inl refl, inl refl)
    take_reply-Like conflict rest e = (refl, refl, refl, inl refl, inl refl)
    take_reply-Like refused rest e = (refl, refl, refl, inl refl, inl refl)
    take_reply-Like lost rest e = (refl, refl, refl, inl refl, inl refl)

some_inj : (v w : Watched) → some v ≡ some w → v ≡ w
some_inj v w h = cc

Like-IsCurrent :
    (e' e : Editor) → Like e' e → IsCurrent e → is_seen e'.seen e'.now ≡ true → IsCurrent e'
unfolding is_remembered
Like-IsCurrent e' e (seen, nodes, edges, armed, incoming) h s =
    let same : e.now ≡ e'.now =
      some_inj e.now e'.now
        (sym (is_seen-same e.seen e.now h.seen_now) ∙ sym seen ∙ is_seen-same e'.seen e'.now s) in
    record {
      seen_now = s;
      known = elim incoming [
        | inr i ↦ inl i
        | inl i ↦ elim h.known [ inl on ↦ inl (i ∙ on) | inr r ↦ inr (rw (← same, nodes, edges) r) ]
      ];
      armed_now = elim armed [ inr idle ↦ rw idle tt | inl a ↦ rw (a, ← same) h.armed_now ];
    }

pub step-IsCurrent : (event : Event) (e : Editor) → IsCurrent e → IsCurrent (step event e)
unfolding step
step-IsCurrent event e h =
    settle-IsCurrent (act event e) (Like-IsCurrent (act event e) e (act-Like event e) h)

blank-IsCurrent :
    (project : String) (token : Option String) → IsCurrent (settle (blank project token))
blank-IsCurrent project token =
    settle-IsCurrent (blank project token) (λ seen. absurd (cc (is_seen-same none _ seen)))

-- On a page that was opened, whatever happens in whatever order, a timer that runs would save the
-- canvas as it is shown, with the version and the token that the page has, while the status says
-- that it saves; and what is shown is the canvas that the page remembers as the last one, unless the
-- next change is taken for a received one.
pub run-IsCurrent :
    (project : String) (token : Option String) (es : List Event)
    → IsCurrent (run es (settle (blank project token)))
unfolding run
run-IsCurrent project token es =
    onwards es (settle (blank project token)) (blank-IsCurrent project token)
  where
    onwards : (es : List Event) (e : Editor) → IsCurrent e → IsCurrent (run es e)
    onwards [] e h = h
    onwards (event ∷ es) e h = onwards es (step event e) (step-IsCurrent event e h)
