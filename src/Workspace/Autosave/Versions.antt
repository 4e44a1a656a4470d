-- ===== src/Workspace/Autosave/Versions.antt =====
-- The version that saves are sent with: only a stored save and a load change it.
use whiparc.Prelude.{
  ℕ, zero, suc, ◌≡◌, refl, ap, ◌∙◌, inl, inr, Bool, true, false, ◌||◌, some, List, [], ◌∷◌, ◌++◌,
  arith, ◌==◌, All, Bool-cases, Option-cases,
}
use whiparc.Store.{saving}
use whiparc.Workspace.Autosave.{
  Draft, Put, Editor, Event, edited, peer_changed, opened, loaded, signed, connected, fired,
  replied, stored, conflict, refused, lost, is_readonly, remember, broadcast, arm, effect, settle,
  act, step, run, take_reply, without, request,
}
use whiparc.Workspace.Autosave.Renders.{effect-cases, cleaned, settle-cases}
use whiparc.Workspace.Autosave.Laws.{IsCurrent, step-IsCurrent}

-- Does an event bring no version from the server?
unfoldable pub is_versionless : Event → Bool
is_versionless (loaded n m v) = false
is_versionless (replied i (stored v)) = false
is_versionless _ = true

-- All saves in flight were sent with a version.
abbrev pub SentWith : ℕ → List Put → Type 0
SentWith v ps = All (λ (p : Put). p.base_version ≡ v) ps

arm-draft : (e : Editor) → ((arm e).now.draft ≡ e.now.draft) × ((arm e).puts ≡ e.puts)
unfolding arm
arm-draft e = elim (Bool-cases (is_readonly e.now.status)) [
  | inl r ↦ rw r (refl, refl)
  | inr r ↦ rw r (refl, refl)
]

effect-draft : (e : Editor) → ((effect e).now.draft ≡ e.now.draft) × ((effect e).puts ≡ e.puts)
unfolding broadcast
effect-draft e = elim (effect-cases e) [
  | inl (i, r) ↦ rw r (refl, refl)
  | inr (inl (i, m, r)) ↦ rw r (refl, refl)
  | inr (inr (i, m, r)) ↦ rw r (arm-draft (remember (broadcast e)))
]

settle-draft : (e : Editor) → ((settle e).now.draft ≡ e.now.draft) × ((settle e).puts ≡ e.puts)
settle-draft e = elim (settle-cases e) [
  | inl (s, r) ↦ rw r (refl, refl)
  | inr (inl (s, t, r)) ↦ rw r (effect-draft (cleaned e))
  | inr (inr (s, t, r)) ↦ rw r (effect-draft (cleaned e))
]

SentWith-append : (v : ℕ) (ps qs : List Put) → SentWith v ps → SentWith v qs → SentWith v (ps ++ qs)
SentWith-append v [] qs h k = k
SentWith-append v (p ∷ ps) qs h k = (h.0, SentWith-append v ps qs h.1 k)

request-SentWith : (d : Draft) (v : ℕ) → d.version ≡ v → SentWith v (request d)
unfolding request
request-SentWith d v same = elim (Option-cases d.token) [
  | inl out ↦ rw (out, request) tt
  | inr (t, signed_in) ↦ elim (Bool-cases (t == "" || d.project == "")) [
    | inl e ↦ rw (signed_in, request) (rw e tt)
    | inr e ↦ rw (signed_in, request) (rw e (same, tt))
  ]
]

without-SentWith :
    (v i : ℕ) (ps rest : List Put) → SentWith v ps → without i ps ≡ some rest → SentWith v rest
unfolding without
without-SentWith v i [] rest h e = absurd (cc)
without-SentWith v zero (p ∷ ps) rest h e = let same : ps ≡ rest = cc in rw (← same) h.1
without-SentWith v (suc i) (p ∷ ps) rest h e = elim (Option-cases (without i ps)) [
  | inl gone ↦ absurd (cc (rw (gone, without) at e))
  | inr (qs, here) ↦
      let found : some (p ∷ qs) ≡ some rest = rw (here, without) at e in
      let same : p ∷ qs ≡ rest = cc in rw (← same) (h.0, without-SentWith v i ps qs h.1 here)
]

-- Before the renders
act-version :
    (event : Event) (e : Editor) (v : ℕ)
    → is_versionless event ≡ true
    → IsCurrent e
    → e.now.draft.version ≡ v
    → SentWith v e.puts
    → ((act event e).now.draft.version ≡ v) × SentWith v (act event e).puts
unfolding act take_reply is_versionless
act-version (edited n m) e v l c h k = (h, k)
act-version (peer_changed n m) e v l c h k = (h, k)
act-version (opened true) e v l c h k = (h, k)
act-version (opened false) e v l c h k = (h, k)
act-version (loaded n m w) e v l c h k = absurd (ground arith)
act-version (signed t) e v l c h k = (h, k)
act-version (connected b) e v l c h k = (h, k)
act-version fired e v l c h k = elim (Option-cases e.armed) [
  | inl idle ↦ rw (idle, act) (h, k)
  | inr (d, on) ↦
      let shown : (d ≡ e.now.draft) × (e.now.status ≡ saving) = rw on at c.armed_now in
      let version : d.version ≡ v = ap (λ (x : Draft). x.version) shown.0 ∙ h in
      rw (on, act) (h, SentWith-append v e.puts (request d) k (request-SentWith d v version))
]
act-version (replied i (stored w)) e v l c h k = absurd (ground arith)
act-version (replied i conflict) e v l c h k = elim (Option-cases (without i e.puts)) [
  | inl gone ↦ rw (gone, act) (h, k)
  | inr (rest, here) ↦ rw (here, act) (h, without-SentWith v i e.puts rest k here)
]
act-version (replied i refused) e v l c h k = elim (Option-cases (without i e.puts)) [
  | inl gone ↦ rw (gone, act) (h, k)
  | inr (rest, here) ↦ rw (here, act) (h, without-SentWith v i e.puts rest k here)
]
act-version (replied i lost) e v l c h k = elim (Option-cases (without i e.puts)) [
  | inl gone ↦ rw (gone, act) (h, k)
  | inr (rest, here) ↦ rw (here, act) (h, without-SentWith v i e.puts rest k here)
]

-- Until a save is stored or a canvas is loaded, every save is sent with the version that the page
-- already had: once the server has another version, so that it answers with a conflict, no further
-- change of the canvas gets out of the conflict.
pub run_stale :
    (es : List Event) (e : Editor) (v : ℕ)
    → All (λ event. is_versionless event ≡ true) es
    → IsCurrent e
    → e.now.draft.version ≡ v
    → SentWith v e.puts
    → ((run es e).now.draft.version ≡ v) × SentWith v (run es e).puts
unfolding run step
run_stale [] e v local c h k = (h, k)
run_stale (event ∷ es) e v local c h k =
    let (same, sent) = act-version event e v local.0 c h k in
    let settled = settle-draft (act event e) in
    run_stale es (step event e) v local.1 (step-IsCurrent event e c)
      (ap (λ (x : Draft). x.version) settled.0 ∙ same) (rw settled.1 sent)
