-- ===== src/Team/Loaded.antt =====
-- What the page of a team shows after a load: an error, or the members of its team, by rank.
use whiparc.Prelude.{
  ℕ, ◌≤◌, String, ◌≡◌, ◌≢◌, refl, ◌⊎◌, inl, inr, sym, ap, ◌∙◌, Bool, true, false, Option, none,
  some, List, [], ◌∷◌, arith, All, if◌then◌else◌, is_some, Bool-cases,
}
use mathlib.Core.List.{Perm, perm_middle}
use mathlib.Core.List.Perm
use whiparc.Team.{Team, Member, TeamPage, role_rank}
use whiparc.Team.Load.{
  Reply, refused, broken, given, Server, active_team, comes_first, insert_member, sort_members,
  failed_load, load_members, load_team, load_teams, load_all,
}

-- No member has a higher rank than one before.
unfoldable pub IsRanked : List Member → Type 0
IsRanked [] = Unit
IsRanked (m ∷ ms) = All (λ n. role_rank n.role ≤ role_rank m.role) ms × IsRanked ms

-- The members of the team are those that the server has sent, in some order that goes by rank; of no
-- team there are none.
unfoldable pub IsRosterOf : Server → Option Team → List Member → Type 0
IsRosterOf server none roster = roster ≡ []
IsRosterOf server (some t) roster =
    (ms : List Member) × (server.members t.id ≡ given ms) × Perm roster ms × IsRanked roster

-- A reply that the page cannot do without is missing: that for the teams, or that for the members of
-- the team that is chosen among them.
unfoldable pub IsBroken : Server → Type 0
IsBroken server =
    (ts : List Team)
    → server.teams ≡ given ts
    → (t : Team) × (active_team server.saved_team ts ≡ some t)
      × ((ms : List Member) → server.members t.id ≢ given ms)

-- What the page shows: an error where a reply is missing, or the chosen team without an error
unfoldable pub IsShown : Server → TeamPage → Type 0
IsShown server page =
    (page.is_loading ≡ false)
    × (((is_some page.load_error ≡ true) × IsBroken server)
        ⊎ ((page.load_error ≡ none)
            × ((ts : List Team) × (server.teams ≡ given ts)
                × (page.team ≡ active_team server.saved_team ts)
                × IsRosterOf server page.team page.roster)))

is_given : {A : Type 0} → Reply A → Bool
is_given (refused status) = false
is_given (broken message) = false
is_given (given a) = true

refused-given : {A : Type 0} (status : ℕ) (a : A) → refused status ≢ given a
unfolding is_given
refused-given status a h = ground (arith, ap is_given h)

broken-given : {A : Type 0} (message : String) (a : A) → broken message ≢ given a
unfolding is_given
broken-given message a h = ground (arith, ap is_given h)

given_list : List Team → Reply (List Team) → List Team
given_list ts (refused status) = ts
given_list ts (broken message) = ts
given_list ts (given us) = us

given_inj : (us ts : List Team) → given us ≡ given ts → us ≡ ts
unfolding given_list
given_inj us ts h = ap (given_list ts) h

module _ (no_later : String → String → Bool) where
  lower_rank :
      (m n : Member) (ms : List Member)
      → role_rank m.role ≤ role_rank n.role
      → All (λ p. role_rank p.role ≤ role_rank m.role) ms
      → All (λ p. role_rank p.role ≤ role_rank n.role) ms
  lower_rank m n [] h all = tt
  lower_rank m n (p ∷ ms) h (low, all) = (omega (arith, low, h), lower_rank m n ms h all)

  insert_member-All :
      (most : ℕ) (m : Member) (ms : List Member)
      → role_rank m.role ≤ most
      → All (λ p. role_rank p.role ≤ most) ms
      → All (λ p. role_rank p.role ≤ most) (insert_member no_later m ms)
  unfolding insert_member
  insert_member-All most m [] h all = (h, tt)
  insert_member-All most m (n ∷ ms) h (low, all) = elim (Bool-cases (comes_first no_later m n)) [
    | inl before ↦ rw before (h, (low, all))
    | inr after ↦ rw after (low, insert_member-All most m ms h all)
  ]

  comes_first-rank :
      (m n : Member) (b : Bool)
      → comes_first no_later m n ≡ b
      → (if b then role_rank n.role else role_rank m.role)
        ≤ (if b then role_rank m.role else role_rank n.role)
  unfolding comes_first
  comes_first-rank m n true h = ground arith
  comes_first-rank m n false h = ground arith

  insert_member-IsRanked :
      (m : Member) (ms : List Member) → IsRanked ms → IsRanked (insert_member no_later m ms)
  unfolding IsRanked insert_member
  insert_member-IsRanked m [] h = (tt, tt)
  insert_member-IsRanked m (n ∷ ms) (top, h) = elim (Bool-cases (comes_first no_later m n)) [
    | inl before ↦
        let low = comes_first-rank m n true before in
        rw before ((low, lower_rank n m ms low top), (top, h))
    | inr after ↦
        let low = comes_first-rank m n false after in
        rw after (insert_member-All (role_rank n.role) m ms low top, insert_member-IsRanked m ms h)
  ]

  sort_members-IsRanked : (ms : List Member) → IsRanked (sort_members no_later ms)
  unfolding sort_members IsRanked
  sort_members-IsRanked [] = tt
  sort_members-IsRanked (m ∷ ms) =
      insert_member-IsRanked m (sort_members no_later ms) (sort_members-IsRanked ms)

  insert_member-perm : (m : Member) (ms : List Member) → Perm (insert_member no_later m ms) (m ∷ ms)
  unfolding insert_member
  insert_member-perm m [] = Perm.refl (m ∷ [])
  insert_member-perm m (n ∷ ms) = elim (Bool-cases (comes_first no_later m n)) [
    | inl before ↦ rw before (Perm.refl (m ∷ n ∷ ms))
    | inr after ↦
        rw after
          (Perm.trans (Perm.cons n (insert_member-perm m ms)) (perm_middle {a = m} (n ∷ []) ms))
  ]

  sort_members-perm : (ms : List Member) → Perm (sort_members no_later ms) ms
  unfolding sort_members
  sort_members-perm [] = Perm.refl []
  sort_members-perm (m ∷ ms) =
      Perm.trans (insert_member-perm m (sort_members no_later ms))
        (Perm.cons m (sort_members-perm ms))

  -- No reply for the members of the chosen team
  members-IsBroken :
      (server : Server) (ts : List Team) (t : Team)
      → server.teams ≡ given ts
      → active_team server.saved_team ts ≡ some t
      → ((ms : List Member) → server.members t.id ≢ given ms)
      → IsBroken server
  unfolding IsBroken
  members-IsBroken server ts t listed chosen missing ts' listed' = (
    t,
    ap (active_team server.saved_team) (given_inj ts' ts (sym listed' ∙ listed)) ∙ chosen,
    missing,
  )

  members-IsShown :
      (server : Server) (ts : List Team) (t : Team) (reply : Reply (List Member)) (page : TeamPage)
      → server.teams ≡ given ts
      → active_team server.saved_team ts ≡ some t
      → server.members t.id ≡ reply
      → IsShown server (load_members no_later server t reply page)
  unfolding IsShown IsRosterOf load_members failed_load
  members-IsShown server ts t (refused status) page listed chosen h = (
    refl,
    inl (
      refl,
      members-IsBroken server ts t listed chosen
          (λ ms same. refused-given status ms (sym h ∙ same)),
    ),
  )
  members-IsShown server ts t (broken message) page listed chosen h = (
    refl,
    inl (
      refl,
      members-IsBroken server ts t listed chosen
          (λ ms same. broken-given message ms (sym h ∙ same)),
    ),
  )
  members-IsShown server ts t (given ms) page listed chosen h = (
    refl,
    inr (refl, (ts, listed, sym chosen, (ms, h, sort_members-perm ms, sort_members-IsRanked ms))),
  )

  team-IsShown :
      (server : Server) (ts : List Team) (team : Option Team) (page : TeamPage)
      → server.teams ≡ given ts
      → active_team server.saved_team ts ≡ team
      → IsShown server (load_team no_later server team page)
  unfolding IsShown IsRosterOf load_team
  team-IsShown server ts none page listed chosen =
      (refl, inr (refl, (ts, listed, sym chosen, refl)))
  team-IsShown server ts (some t) page listed chosen =
      members-IsShown server ts t (server.members t.id) page listed chosen refl

  teams-IsShown :
      (server : Server) (reply : Reply (List Team)) (page : TeamPage)
      → server.teams ≡ reply
      → IsShown server (load_teams no_later server reply page)
  unfolding IsShown IsBroken load_teams failed_load
  teams-IsShown server (refused status) page h =
      (refl, inl (refl, λ ts same. absurd (refused-given status ts (sym h ∙ same))))
  teams-IsShown server (broken message) page h =
      (refl, inl (refl, λ ts same. absurd (broken-given message ts (sym h ∙ same))))
  teams-IsShown server (given ts) page h =
      team-IsShown server ts (active_team server.saved_team ts) page h refl

-- After a load by a user with a token, whatever the page held before, the page no longer loads. It
-- has an error, and then the reply for the teams or that for the members of the chosen team was not
-- given; or it has no error and the chosen team of the reply, with no members if there is no team, and
-- otherwise with exactly the members that the server sent for it, reordered so that no rank is
-- higher than one before.
pub load_all-IsShown :
    (no_later : String → String → Bool) (server : Server) (page : TeamPage)
    → IsShown server (load_all no_later true server page)
unfolding load_all
load_all-IsShown no_later server page = teams-IsShown no_later server server.teams page refl
