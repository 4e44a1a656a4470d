-- ===== src/Workspace/Presence.antt =====
-- The members who share a canvas: `ws.onmessage` and `ws.onclose` of the room's socket in
-- apps/web/app/workspace/page.tsx. Messages are data, parsed; a list of members that is no array is
-- `none`, and coordinates are carried as texts. What a message does to the canvas is an event of Workspace/Autosave.
pub mod Laws
mod Examples
use whiparc.Prelude.{
  IsUnique-of_distinct, ℕ, zero, suc, ◌+◌, ◌-◌, ◌*◌, ◌/◌, ◌%◌, ◌≤◌, ◌<◌, String, ◌≡◌, refl, sym, ap,
  ◌∙◌, ◌≢◌, ◌↔◌, ◌⊎◌, inl, inr, Bool, true, false, not, ◌&&◌, ◌||◌, Option, none, some, List, [],
  ◌∷◌, ◌++◌, map, arith, ◌==◌, starts_with, eq_iff, length, length-append, first, All, length-map,
  keep, any, find_first, update, count, contains, IsUnique, ltb, leb, eqb, if◌then◌else◌, is_some,
  Bool-cases, Option-cases, List-cases,
}
use whiparc.Workspace.Autosave.{Copy}

pub record Member : Type 0 where
  pub id : String
  pub name : String
  pub color : String
  pub avatar_url : Option String

pub record Cursor : Type 0 where
  pub x : String
  pub y : String
  pub name : String
  pub color : String

pub record Room : Type 0 where
  pub collaborators : List Member
  pub peer_cursors : String → Option Cursor
  pub peer_edits : String → Option String
  pub is_sync_connected : Bool

abbrev pub empty_room : Room
empty_room = record {
  collaborators = [];
  peer_cursors = λ _. none;
  peer_edits = λ _. none;
  is_sync_connected = false;
}

pub data Presence : Type 0 where
  init join leave : Presence

pub data RoomMessage : Type 0 where
  present : Presence → (sender_id : String) → Option (List Member) → RoomMessage
  profile : (id : String) (name : Option String) (avatar_url : Option String) → RoomMessage
  request_sync : RoomMessage
  cursor : (sender_id sender_name color x y : String) → RoomMessage
  edit : (sender_name node_id : String) (is_editing : Bool) → RoomMessage
  change : Option Copy → Option Copy → RoomMessage

-- What the page sends, and what it hands on to the canvas.
pub data Answer : Type 0 where
  asks_sync sends_canvas : Answer
  hands_on : Option Copy → Option Copy → Answer

-- `self.findIndex(m => m.id === id)`; past the end for none
unfoldable pub find_index : String → List Member → ℕ
find_index id [] = 0
find_index id (m ∷ ms) = let rest = find_index id ms in if m.id == id then 0 else suc rest

-- The members from a place on that stand at the first place of their id.
unfoldable pub at_first : List Member → ℕ → List Member → List Member
unfolding find_index
at_first self i [] = []
at_first self i (m ∷ ms) =
    let rest = at_first self (suc i) ms in if eqb (find_index m.id self) i then m ∷ rest else rest

-- `activePeers` and `uniquePeers`
unfoldable pub active_peers : String → List Member → List Member
unfolding keep
active_peers user_id members = keep (λ (m : Member). not (m.id == user_id)) members

unfoldable pub unique_peers : List Member → List Member
unfolding at_first
unique_peers peers = at_first peers 0 peers

abbrev is_leave : Presence → Bool
is_leave leave = true
is_leave _ = false

abbrev is_init : Presence → Bool
is_init init = true
is_init _ = false

-- `name ?? old`
abbrev name_or : Option String → String → String
name_or none old = old
name_or (some name) old = name

unfoldable pub rename : String → Option String → Option String → Member → Member
rename id name avatar m =
    if m.id == id then record m { name = name_or name m.name; avatar_url = avatar } else m

abbrev rename_cursor : Option String → Option Cursor → Option Cursor
rename_cursor name none = none
rename_cursor name (some c) = some (record c { name = name_or name c.name })

-- The room after a list of members
unfoldable pub set_members : String → Presence → String → Option (List Member) → Room → Room
unfolding active_peers unique_peers
set_members user_id kind sender_id members r = record r {
  collaborators = elim members [
    | none ↦ r.collaborators
    | some ms ↦ unique_peers (active_peers user_id ms)
  ];
  peer_cursors = if is_leave kind then update r.peer_cursors sender_id none else r.peer_cursors;
}

-- One who enters a room with others asks them for the canvas.
unfoldable pub ask_sync : String → Presence → Option (List Member) → List Answer
unfolding active_peers
ask_sync user_id kind none = []
ask_sync user_id kind (some ms) =
    if is_init kind && ltb 0 (length (active_peers user_id ms)) then asks_sync ∷ [] else []

-- `ws.onmessage`
unfoldable pub hear_room : String → RoomMessage → Room → Room × List Answer
unfolding set_members ask_sync rename
hear_room user_id (present kind sender_id members) r =
    (set_members user_id kind sender_id members r, ask_sync user_id kind members)
hear_room user_id (profile id name avatar) r = if id == "" then (r, []) else (
  record r {
    collaborators = map (rename id name avatar) r.collaborators;
    peer_cursors = update r.peer_cursors id (rename_cursor name (r.peer_cursors id));
  },
  [],
)
hear_room user_id request_sync r = (r, if r.is_sync_connected then sends_canvas ∷ [] else [])
hear_room user_id (cursor sender_id sender_name color x y) r = (
  record r {
    peer_cursors =
        update r.peer_cursors sender_id
          (some (record { x = x; y = y; name = sender_name; color = color }));
  },
  [],
)
hear_room user_id (edit sender_name node_id is_editing) r = (
  record r {
    peer_edits = update r.peer_edits node_id (if is_editing then some sender_name else none);
  },
  [],
)
hear_room user_id (change nodes edges) r = (r, hands_on nodes edges ∷ [])

pub data RoomEvent : Type 0 where
  opened closed : RoomEvent
  message : RoomMessage → RoomEvent

unfoldable pub room_step : String → RoomEvent → Room → Room × List Answer
unfolding hear_room
room_step user_id opened r = (record r { is_sync_connected = true }, [])
room_step user_id closed r =
    (record r { is_sync_connected = false; collaborators = []; peer_cursors = λ _. none }, [])
room_step user_id (message m) r = hear_room user_id m r

unfoldable pub room_run : String → List RoomEvent → Room → Room
unfolding room_step
room_run user_id [] r = r
room_run user_id (e ∷ es) r = room_run user_id es (room_step user_id e r).0
