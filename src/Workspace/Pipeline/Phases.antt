-- ===== src/Workspace/Pipeline/Phases.antt =====
-- What is under way on a console, by its requests, its socket and its two statuses.
use whiparc.Prelude.{
  ◌≤◌, String, ◌≡◌, refl, ◌⊎◌, inl, inr, true, Option, none, some, List, [], ◌∷◌, ◌++◌, arith,
  length,
}
use whiparc.Workspace.Pipeline.{
  Kind, deploy_run, plan_run, destroy_run, Post, Console, begin, is_enabled, is_header_busy,
  set_machine, reset_other,
}

-- The machine that a run does not use is idle, by the statuses of the two.
abbrev pub OtherIdle : Kind → (deploy plan : String) → Type 0
OtherIdle plan_run d p = d ≡ "IDLE"
OtherIdle deploy_run d p = p ≡ "IDLE"
OtherIdle destroy_run d p = p ≡ "IDLE"

-- The machine that a run uses is pending.
abbrev pub Waits : Kind → (deploy plan : String) → Type 0
Waits plan_run d p = p ≡ "PENDING"
Waits deploy_run d p = d ≡ "PENDING"
Waits destroy_run d p = d ≡ "PENDING"

-- Nothing is under way, a request is, or a stream may be.
abbrev pub Phase : List Post → Option Kind → (deploy plan : String) → Type 0
Phase [] none d p = (d ≡ "IDLE") ⊎ (p ≡ "IDLE")
Phase [] (some k) d p = OtherIdle k d p
Phase (q ∷ []) none d p = OtherIdle q.kind d p × Waits q.kind d p
Phase (q ∷ []) (some k) d p = ⊥
Phase (q ∷ r ∷ ps) s d p = ⊥

pub record IsOrderly (c : Console) : Type 0 where
  pub phase : Phase c.posts c.stream c.deploy_status c.plan_status
  pub no_strays : c.strays ≡ []

pub Phase-free :
    (ps : List Post) (s : Option Kind) (d p : String)
    → ps ≡ []
    → s ≡ none
    → (d ≡ "IDLE") ⊎ (p ≡ "IDLE")
    → Phase ps s d p
Phase-free ps s d p e e' h = rw (e, e') h

pub Phase-stream :
    (ps : List Post) (s : Option Kind) (k : Kind) (d p : String)
    → ps ≡ []
    → s ≡ some k
    → OtherIdle k d p
    → Phase ps s d p
Phase-stream ps s k d p e e' h = rw (e, e') h

pub Phase-post :
    (ps : List Post) (s : Option Kind) (k : Kind) (q : Post) (d p : String)
    → ps ≡ []
    → s ≡ none
    → q.kind ≡ k
    → OtherIdle k d p × Waits k d p
    → Phase (ps ++ q ∷ []) s d p
Phase-post ps s k q d p e e' same h = rw (e, e') (rw same h)

pub Waits-busy :
    (k : Kind) (c : Console) → Waits k c.deploy_status c.plan_status → is_header_busy c ≡ true
unfolding is_header_busy
Waits-busy plan_run c h = rw h (ground arith)
Waits-busy deploy_run c h = rw h (ground arith)
Waits-busy destroy_run c h = rw h (ground arith)

-- An enabled button means that no request is under way.
pub enabled_free :
    (k : Kind) (ps : List Post) (s : Option Kind) (c : Console)
    → Phase ps s c.deploy_status c.plan_status
    → is_enabled k c ≡ true
    → ps ≡ []
unfolding is_enabled
enabled_free k [] s c h e = refl
enabled_free plan_run (p ∷ []) none c h e = absurd (ground (arith, Waits-busy p.kind c h.1))
enabled_free deploy_run (p ∷ []) none c h e = absurd (ground (arith, Waits-busy p.kind c h.1))
enabled_free destroy_run (p ∷ []) none c h e = absurd (ground (arith, Waits-busy p.kind c h.1))
enabled_free k (p ∷ []) (some j) c h e = absurd h
enabled_free k (p ∷ q ∷ ps) s c h e = absurd h

-- A run that is begun has the other machine idle and its own pending, and no socket.
pub begin-Waits :
    (k : Kind) (c : Console)
    → OtherIdle k (begin k c).deploy_status (begin k c).plan_status
      × Waits k (begin k c).deploy_status (begin k c).plan_status
unfolding begin set_machine reset_other
begin-Waits plan_run c = (refl, refl)
begin-Waits deploy_run c = (refl, refl)
begin-Waits destroy_run c = (refl, refl)

pub begin_kept :
    (k : Kind) (c : Console) → ((begin k c).strays ≡ c.strays) × ((begin k c).stream ≡ none)
unfolding begin set_machine reset_other
begin_kept plan_run c = (refl, refl)
begin_kept deploy_run c = (refl, refl)
begin_kept destroy_run c = (refl, refl)

-- What another status of its own machine leaves alone
pub set_machine-OtherIdle :
    (k : Kind) (t : String) (c : Console)
    → OtherIdle k c.deploy_status c.plan_status
    → OtherIdle k (set_machine k t c).deploy_status (set_machine k t c).plan_status
unfolding set_machine
set_machine-OtherIdle plan_run t c h = h
set_machine-OtherIdle deploy_run t c h = h
set_machine-OtherIdle destroy_run t c h = h

pub set_machine_kept :
    (k : Kind) (t : String) (c : Console)
    → ((set_machine k t c).posts ≡ c.posts)
      × ((set_machine k t c).stream ≡ c.stream)
      × ((set_machine k t c).strays ≡ c.strays)
unfolding set_machine
set_machine_kept plan_run t c = (refl, refl, refl)
set_machine_kept deploy_run t c = (refl, refl, refl)
set_machine_kept destroy_run t c = (refl, refl, refl)

pub OtherIdle-free : (k : Kind) (d p : String) → OtherIdle k d p → (d ≡ "IDLE") ⊎ (p ≡ "IDLE")
OtherIdle-free plan_run d p h = inl h
OtherIdle-free deploy_run d p h = inr h
OtherIdle-free destroy_run d p h = inr h

pub Phase-idle :
    (ps : List Post) (s : Option Kind) (d p : String)
    → Phase ps s d p
    → ((d ≡ "IDLE") ⊎ (p ≡ "IDLE")) × (length ps ≤ 1)
Phase-idle [] none d p h = (h, omega arith)
Phase-idle [] (some k) d p h = (OtherIdle-free k d p h, omega arith)
Phase-idle (q ∷ []) none d p h = (OtherIdle-free q.kind d p h.0, omega arith)
Phase-idle (q ∷ []) (some k) d p h = absurd h
Phase-idle (q ∷ r ∷ ps) s d p h = absurd h
