-- ===== src/Workspace/Autosave/Renders.antt =====
-- The renders that a change leads to come to an end: the second changes nothing that is listed.
use whiparc.Prelude.{
  ◌≡◌, refl, ap, ◌∙◌, ◌⊎◌, inl, inr, true, false, Option, none, some, arith, eq_iff, Bool-cases,
}
use whiparc.Prelude.Discrete.{is_yes-yes, yes-is_yes}
use whiparc.Workspace.Autosave.{
  Watched, Watched-discrete, Editor, remember, is_remembered, broadcast, arm, effect, is_seen,
  render, settle,
}

pub is_seen-same : (s : Option Watched) (w : Watched) → is_seen s w ≡ true → s ≡ some w
unfolding is_seen
is_seen-same none w h = absurd (ground arith)
is_seen-same (some v) w h = ap some (is_yes-yes (Watched-discrete v w) h)

pub is_seen_refl : (w : Watched) → is_seen (some w) w ≡ true
unfolding is_seen
is_seen_refl w = yes-is_yes (Watched-discrete w w) refl

-- What the effect can do.
pub effect-cases :
    (e : Editor)
    → ((e.is_incoming ≡ true) × (effect e ≡ remember (record e { is_incoming = false })))
      ⊎ (((e.is_incoming ≡ false) × (is_remembered e ≡ true) × (effect e ≡ e))
          ⊎ ((e.is_incoming ≡ false)
              × (is_remembered e ≡ false)
              × (effect e ≡ arm (remember (broadcast e)))))
unfolding effect
effect-cases e = elim (Bool-cases e.is_incoming) [
  | inl i ↦ inl (i, rw i refl)
  | inr i ↦ elim (Bool-cases (is_remembered e)) [
    | inl r ↦ inr (inl (i, r, rw i (rw r refl)))
    | inr r ↦ inr (inr (i, r, rw i (rw r refl)))
  ]
]

-- A run of the effect remembers the canvas and takes the flag off.
pub effect_remembers :
    (e : Editor) → (is_remembered (effect e) ≡ true) × ((effect e).is_incoming ≡ false)
unfolding effect is_remembered broadcast arm
effect_remembers e = ground (
  arith,
  eq_iff e.now.draft.nodes.json e.now.draft.nodes.json,
  eq_iff e.now.draft.edges.json e.now.draft.edges.json,
)

-- It leaves what it has seen.
pub effect_seen : (e : Editor) → (effect e).seen ≡ e.seen
unfolding effect broadcast arm
effect_seen e = ground arith

pub effect_quiet : (e : Editor) → e.is_incoming ≡ false → is_remembered e ≡ true → effect e ≡ e
unfolding effect
effect_quiet e i r = rw i (rw r refl)

-- The clean-up of the last run, with the values that this one sees
abbrev pub cleaned : Editor → Editor
cleaned e = record e { armed = none; seen = some e.now }

pub render-cases :
    (e : Editor)
    → ((is_seen e.seen e.now ≡ true) × (render e ≡ e))
      ⊎ ((is_seen e.seen e.now ≡ false) × (render e ≡ effect (cleaned e)))
unfolding render
render-cases e = elim (Bool-cases (is_seen e.seen e.now)) [
  | inl s ↦ inl (s, rw s refl)
  | inr s ↦ inr (s, rw s refl)
]

-- A second run finds nothing new: it only stops the timer.
pub second_run : (e : Editor) → effect (cleaned (effect e)) ≡ cleaned (effect e)
unfolding is_remembered
second_run e = let after = effect_remembers e in effect_quiet (cleaned (effect e)) after.1 after.0

-- What two renders come to.
pub settle-cases :
    (e : Editor)
    → ((is_seen e.seen e.now ≡ true) × (settle e ≡ e))
      ⊎ (((is_seen e.seen e.now ≡ false)
            × (is_seen (effect (cleaned e)).seen (effect (cleaned e)).now ≡ true)
            × (settle e ≡ effect (cleaned e)))
          ⊎ ((is_seen e.seen e.now ≡ false)
              × (is_seen (effect (cleaned e)).seen (effect (cleaned e)).now ≡ false)
              × (settle e ≡ cleaned (effect (cleaned e)))))
unfolding settle
settle-cases e = elim (render-cases e) [
  | inl (s, r) ↦ inl (s, ap render r ∙ r)
  | inr (s, r) ↦ inr (elim (render-cases (effect (cleaned e))) [
    | inl (s', r') ↦ inl (s, s', ap render r ∙ r')
    | inr (s', r') ↦ inr (s, s', ap render r ∙ r' ∙ second_run (cleaned e))
  ])
]

-- The effect changes a value that makes it run again, and yet it comes to rest: after two renders the
-- listed values are those of its last run, and further renders change nothing.
pub settle_rests :
    (e : Editor) → (is_seen (settle e).seen (settle e).now ≡ true) × (render (settle e) ≡ settle e)
settle_rests e =
    let rested : is_seen (settle e).seen (settle e).now ≡ true = elim (settle-cases e) [
      | inl (s, r) ↦ rw r s
      | inr (inl (s, s', r)) ↦ rw r s'
      | inr (inr (s, s', r)) ↦ rw r (is_seen_refl _)
    ] in
    (rested, elim (render-cases (settle e)) [ inl (s, r) ↦ r | inr (s, r) ↦ absurd (ground arith) ])
