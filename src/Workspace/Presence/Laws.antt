-- ===== src/Workspace/Presence/Laws.antt =====
-- Who is shown as a member.
use whiparc.Prelude.{
  ℕ, suc, ◌+◌, ◌≤◌, String, ◌≡◌, refl, sym, ap, ◌∙◌, inl, inr, Bool, true, false, not, ◌&&◌, Option,
  none, some, List, [], ◌∷◌, map, arith, ◌==◌, eq_iff, keep, count, contains, IsUnique, ltb,
  if◌then◌else◌, Bool-cases,
}
use whiparc.Workspace.Presence.{
  Member, Room, Presence, RoomMessage, present, profile, request_sync, cursor, edit, change,
  find_index, at_first, active_peers, unique_peers, rename, set_members, hear_room, RoomEvent,
  opened, closed, message, room_step, room_run, empty_room,
}

abbrev pub ids : List Member → List String
ids ms = map (λ (m : Member). m.id) ms

-- An id is kept once from its first place on, and not after it.
count-at_first :
    (k : String) (self : List Member) (i : ℕ) (ms : List Member)
    → count k (ids (at_first self i ms)) ≤ (if ltb (find_index k self) i then 0 else 1)
unfolding at_first
count-at_first k self i [] = ground arith
count-at_first k self i (m ∷ ms) =
    let rest = count-at_first k self (suc i) ms in
    elim (Bool-cases (k == m.id)) [
      | inr other ↦ ground arith
      | inl same ↦
          let eq : k ≡ m.id = (eq_iff k m.id).0 same in
          let place : find_index k self ≡ find_index m.id self =
            ap (λ (t : String). find_index t self) eq in
          ground arith
    ]

contains-at_first :
    (k : String) (self : List Member) (i : ℕ) (ms : List Member)
    → find_index k self ≡ i + find_index k ms
    → contains (ids ms) k ≡ true
    → contains (ids (at_first self i ms)) k ≡ true
unfolding at_first find_index
contains-at_first k self i [] place h = h
contains-at_first k self i (m ∷ ms) place h = elim (Bool-cases (m.id == k)) [
  | inl same ↦
      let eq : m.id ≡ k = (eq_iff m.id k).0 same in
      let here : find_index m.id self ≡ find_index k self =
        ap (λ (t : String). find_index t self) eq in
      let first_one : find_index k self ≡ i + 0 = rw same at place in ground (arith, eq_iff k m.id)
  | inr other ↦
      let later : find_index k self ≡ i + suc (find_index k ms) = rw other at place in
      let rest = contains-at_first k self (suc i) ms (omega arith) in
      ground (arith, eq_iff k m.id, eq_iff m.id k)
]

at_first-contains :
    (k : String) (self : List Member) (i : ℕ) (ms : List Member)
    → contains (ids (at_first self i ms)) k ≡ true
    → contains (ids ms) k ≡ true
unfolding at_first
at_first-contains k self i [] h = h
at_first-contains k self i (m ∷ ms) h = ground (arith, at_first-contains k self (suc i) ms)

contains-active_peers :
    (user_id k : String) (ms : List Member)
    → contains (ids (active_peers user_id ms)) k ≡ (contains (ids ms) k && not (k == user_id))
unfolding active_peers keep
contains-active_peers user_id k [] = refl
contains-active_peers user_id k (m ∷ ms) =
    let rest = contains-active_peers user_id k ms in
    elim (Bool-cases (k == m.id)) [
      | inr other ↦ ground arith
      | inl same ↦
          let eq : k ≡ m.id = (eq_iff k m.id).0 same in
          let owner : (k == user_id) ≡ (m.id == user_id) = ap (λ (t : String). t == user_id) eq in
          ground arith
    ]

bool_eq : (a b : Bool) → (a ≡ true → b ≡ true) → (b ≡ true → a ≡ true) → a ≡ b
bool_eq true b h k = sym (h refl)
bool_eq false true h k = k refl
bool_eq false false h k = refl

-- After a list of members each of them but the user is shown, once, and nobody else.
members_shown :
    (user_id sender_id : String) (kind : Presence) (ms : List Member) (r : Room) (k : String)
    → let shown_ids =
        ids (hear_room user_id (present kind sender_id (some ms)) r).0.collaborators in
      (count k shown_ids ≤ 1) × (contains shown_ids k ≡ (contains (ids ms) k && not (k == user_id)))
unfolding hear_room set_members unique_peers
members_shown user_id sender_id kind ms r k =
    let peers = active_peers user_id ms in
    let counted = count-at_first k peers 0 peers in
    (
      ground arith,
      bool_eq _ _ (at_first-contains k peers 0 peers)
            (contains-at_first k peers 0 peers (omega arith))
          ∙ contains-active_peers user_id k ms,
    )

ids-rename :
    (id : String) (name avatar : Option String) (ms : List Member)
    → ids (map (rename id name avatar) ms) ≡ ids ms
unfolding rename
ids-rename id name avatar [] = refl
ids-rename id name avatar (m ∷ ms) =
    let rest = ids-rename id name avatar ms in
    elim (Bool-cases (m.id == id)) [
      | inl same ↦ rw same (ap (λ (l : List String). m.id ∷ l) rest)
      | inr other ↦ rw other (ap (λ (l : List String). m.id ∷ l) rest)
    ]

-- Every member is shown once, and never the user.
abbrev pub IsShownOnce : String → Room → Type 0
IsShownOnce user_id r =
    IsUnique (ids r.collaborators) × (contains (ids r.collaborators) user_id ≡ false)

hear_room-IsShownOnce :
    (user_id : String) (m : RoomMessage) (r : Room)
    → IsShownOnce user_id r
    → IsShownOnce user_id (hear_room user_id m r).0
unfolding hear_room set_members
hear_room-IsShownOnce user_id (present kind sender_id none) r h = h
hear_room-IsShownOnce user_id (present kind sender_id (some ms)) r h =
    let own = members_shown user_id sender_id kind ms r user_id in
    (
      λ k. (members_shown user_id sender_id kind ms r k).0,
      ground (arith, own.1, eq_iff user_id user_id),
    )
hear_room-IsShownOnce user_id (profile id name avatar) r h = elim (Bool-cases (id == "")) [
  | inl blank ↦ rw blank h
  | inr given ↦ rw given (rw (ids-rename id name avatar r.collaborators) h)
]
hear_room-IsShownOnce user_id request_sync r h = h
hear_room-IsShownOnce user_id (cursor s n c x y) r h = h
hear_room-IsShownOnce user_id (edit s n b) r h = h
hear_room-IsShownOnce user_id (change n e) r h = h

room_run-IsShownOnce :
    (user_id : String) (es : List RoomEvent) (r : Room)
    → IsShownOnce user_id r
    → IsShownOnce user_id (room_run user_id es r)
unfolding room_run room_step
room_run-IsShownOnce user_id [] r h = h
room_run-IsShownOnce user_id (opened ∷ es) r h =
    room_run-IsShownOnce user_id es (room_step user_id opened r).0 h
room_run-IsShownOnce user_id (closed ∷ es) r h =
    room_run-IsShownOnce user_id es (room_step user_id closed r).0 (λ k. omega arith, refl)
room_run-IsShownOnce user_id (message m ∷ es) r h =
    room_run-IsShownOnce user_id es (hear_room user_id m r).0 (hear_room-IsShownOnce user_id m r h)

-- Whatever the room's socket brings, every member is shown at most once, and the user is not among
-- them.
pub members_unique :
    (user_id : String) (es : List RoomEvent) → IsShownOnce user_id (room_run user_id es empty_room)
members_unique user_id es = room_run-IsShownOnce user_id es empty_room (λ k. omega arith, refl)
