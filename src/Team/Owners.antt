-- ===== src/Team/Owners.antt =====
-- What no click on the page of a team can do: the rows of an owner are neither changed nor removed.
use whiparc.Prelude.{
  ℕ, zero, suc, String, ◌≡◌, refl, sym, ap, ◌∙◌, inl, inr, Bool, true, false, not, ◌||◌, Option,
  none, some, List, [], ◌∷◌, map, arith, ◌==◌, eq_iff, keep, any, find_first, if◌then◌else◌,
  Bool-cases,
}
use whiparc.Team.{Member, TeamPage, is_owner, of_user}
use whiparc.Team.Actions.{
  GivenRole, Request, change, remove, revoke, Outcome, done, denied, lost, Session, Event,
  click_change, click_remove, click_revoke, reply, with_role, granted, answered, request_at,
  after_reply, without, has_controls, can_manage, send, is_offered, step, run,
}
use whiparc.Team.Actions.{revoke, remove, GivenRole, change, Request, with_role}

-- A row that is no owner's
abbrev pub is_guest : Member → Bool
is_guest m = not (is_owner m)

-- Whether a request is about a user's row
unfoldable pub targets : String → Request → Bool
targets u (change id role) = id == u
targets u (remove id) = id == u
targets u (revoke id) = false

abbrev pub rows_of : String → List Member → List Member
rows_of u roster = keep (of_user u) roster

found_in_keep :
    (p q : Member → Bool) (ms : List Member) (m : Member)
    → find_first p ms ≡ some m
    → any q (keep p ms) ≡ false
    → q m ≡ false
unfolding find_first any keep
found_in_keep p q [] m h g = absurd (ground arith)
found_in_keep p q (n ∷ ms) m h g = elim (Bool-cases (p n)) [
  | inl own ↦
      let same : n ≡ m = ground arith in
      let all : (q n || any q (keep p ms)) ≡ false = sym (rw own refl) ∙ g in
      rw (sym same) (ground arith)
  | inr other ↦ found_in_keep p q ms m (ground arith) (ground arith)
]

changed_apart :
    (u id : String) (role : GivenRole) (ms : List Member)
    → (id == u) ≡ false
    → rows_of u (map (with_role id role) ms) ≡ rows_of u ms
unfolding keep with_role of_user
changed_apart u id role [] h = refl
changed_apart u id role (m ∷ ms) h = elim (Bool-cases (m.user_id == id)) [
  | inl own ↦
      let off : (m.user_id == u) ≡ false = grind (arith, eq_iff) in
      rw own (rw off (changed_apart u id role ms h))
  | inr other ↦
      rw other
        (ap (λ rest. if m.user_id == u then m ∷ rest else rest) (changed_apart u id role ms h))
]

removed_apart :
    (u id : String) (ms : List Member)
    → (id == u) ≡ false
    → rows_of u (keep (λ m. not (of_user id m)) ms) ≡ rows_of u ms
unfolding keep of_user
removed_apart u id [] h = refl
removed_apart u id (m ∷ ms) h = elim (Bool-cases (m.user_id == id)) [
  | inl own ↦
      let off : (m.user_id == u) ≡ false = grind (arith, eq_iff) in
      rw own (rw off (removed_apart u id ms h))
  | inr other ↦
      rw other (ap (λ rest. if m.user_id == u then m ∷ rest else rest) (removed_apart u id ms h))
]

-- A request about another user leaves a user's rows as they are, whatever its outcome.
answered_apart :
    (u : String) (r : Request) (o : Outcome) (page : TeamPage)
    → targets u r ≡ false
    → rows_of u (answered r o page).roster ≡ rows_of u page.roster
unfolding targets answered granted
answered_apart u (change id role) done page h = changed_apart u id role page.roster h
answered_apart u (remove id) done page h = removed_apart u id page.roster h
answered_apart u (revoke id) done page h = refl
answered_apart u r (denied status text) page h = refl
answered_apart u r (lost message) page h = refl

request_at-apart :
    (u : String) (i : ℕ) (rs : List Request) (r : Request)
    → request_at i rs ≡ some r
    → any (targets u) rs ≡ false
    → targets u r ≡ false
unfolding request_at any
request_at-apart u i [] r h g = absurd (ground arith)
request_at-apart u zero (q ∷ rs) r h g =
    let same : q ≡ r = ground arith in rw (sym same) (ground arith)
request_at-apart u (suc i) (q ∷ rs) r h g = request_at-apart u i rs r h (ground arith)

without-apart :
    (u : String) (i : ℕ) (rs : List Request)
    → any (targets u) rs ≡ false
    → any (targets u) (without i rs) ≡ false
unfolding without any
without-apart u i [] g = refl
without-apart u zero (q ∷ rs) g = ground arith
without-apart u (suc i) (q ∷ rs) g = let rest = without-apart u i rs (ground arith) in ground arith

controls_guest :
    (manages : Bool) (o : Option Member)
    → has_controls manages o ≡ true
    → (m : Member) × (o ≡ some m) × (is_guest m ≡ true)
unfolding has_controls
controls_guest manages none h = absurd (ground arith)
controls_guest manages (some m) h = (m, refl, ground arith)

-- The controls of a row are offered only where the user is no owner.
offered_apart :
    (u id : String) (me : Option String) (roster : List Member)
    → any is_guest (rows_of u roster) ≡ false
    → is_offered me id roster ≡ true
    → (id == u) ≡ false
unfolding is_offered
offered_apart u id me roster h g = elim (Bool-cases (id == u)) [
  | inl same ↦
      let (m, found, guest) =
        controls_guest (can_manage me roster) (find_first (of_user id) roster) g in
      let equal : id ≡ u = ground (arith, eq_iff id u) in
      let off = found_in_keep (of_user id) is_guest roster m found (rw equal h) in
      absurd (ground (arith, guest, off))
  | inr other ↦ other
]

-- The rows of a user are an owner's, and no request about them waits.
unfoldable IsSafe : String → Session → Type 0
IsSafe u s = (any is_guest (rows_of u s.page.roster) ≡ false) × (any (targets u) s.pending ≡ false)

sent-IsSafe :
    (b : Bool) (u : String) (r : Request) (s : Session)
    → (b ≡ true → targets u r ≡ false)
    → IsSafe u s
    → (rows_of u (if b then send r s else s).page.roster ≡ rows_of u s.page.roster)
      × IsSafe u (if b then send r s else s)
unfolding IsSafe send any
sent-IsSafe true u r s h (rows, waiting) = (refl, (rows, rw (h refl) waiting))
sent-IsSafe false u r s h safe = (refl, safe)

after_reply-IsSafe :
    (u : String) (asked : Option Request) (i : ℕ) (o : Outcome) (s : Session)
    → ((r : Request) → asked ≡ some r → targets u r ≡ false)
    → IsSafe u s
    → (rows_of u (after_reply asked i o s).page.roster ≡ rows_of u s.page.roster)
      × IsSafe u (after_reply asked i o s)
unfolding IsSafe after_reply
after_reply-IsSafe u none i o s h safe = (refl, safe)
after_reply-IsSafe u (some r) i o s h (rows, waiting) =
    let same = answered_apart u r o s.page (h r refl) in
    (same, (ap (any is_guest) same ∙ rows, without-apart u i s.pending waiting))

step-IsSafe :
    (u : String) (has_token : Bool) (me : Option String) (e : Event) (s : Session)
    → IsSafe u s
    → (rows_of u (step has_token me e s).page.roster ≡ rows_of u s.page.roster)
      × IsSafe u (step has_token me e s)
unfolding step targets IsSafe
step-IsSafe u has_token me (click_change id role) s safe =
    sent-IsSafe _ u (change id role) s
      (λ h. offered_apart u id me s.page.roster safe.0 (ground (arith, h))) safe
step-IsSafe u has_token me (click_remove id confirmed) s safe =
    sent-IsSafe _ u (remove id) s
      (λ h. offered_apart u id me s.page.roster safe.0 (ground (arith, h))) safe
step-IsSafe u has_token me (click_revoke id) s safe = sent-IsSafe _ u (revoke id) s (λ h. refl) safe
step-IsSafe u has_token me (reply i o) s safe =
    after_reply-IsSafe u (request_at i s.pending) i o s
      (λ r h. request_at-apart u i s.pending r h safe.1) safe

safe_owners :
    (u : String) (has_token : Bool) (me : Option String) (es : List Event) (s : Session)
    → IsSafe u s
    → rows_of u (run has_token me es s).page.roster ≡ rows_of u s.page.roster
unfolding run
safe_owners u has_token me [] s safe = refl
safe_owners u has_token me (e ∷ es) s safe =
    let (same, next) = step-IsSafe u has_token me e s safe in
    safe_owners u has_token me es (step has_token me e s) next ∙ same

-- Whatever is clicked on the page of a team and however the server replies, in any order, the rows of
-- a user who is an owner stay as they are, if no request about this user waits at first.
pub run_owners :
    (u : String) (has_token : Bool) (me : Option String) (es : List Event) (s : Session)
    → any is_guest (rows_of u s.page.roster) ≡ false
    → any (targets u) s.pending ≡ false
    → rows_of u (run has_token me es s).page.roster ≡ rows_of u s.page.roster
unfolding IsSafe
run_owners u has_token me es s rows waiting = safe_owners u has_token me es s (rows, waiting)
