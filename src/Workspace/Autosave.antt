-- ===== src/Workspace/Autosave.antt =====
-- The saving of the canvas: the effect of apps/web/app/workspace/page.tsx that sends changes to
-- the other members and saves them after a pause, with the events that it meets. React runs an
-- effect again when a value that it lists has changed, after the clean-up of its last run. An array
-- of the store is its identity, by which React compares, with its JSON, by which the effect does.
-- The viewport that is saved along is left out.
pub mod Renders
pub mod Laws
pub mod Losses
pub mod Versions
mod Examples
use whiparc.Prelude.{
  IsUnique-of_distinct, ℕ, zero, suc, ◌+◌, ◌-◌, ◌*◌, ◌/◌, ◌%◌, ◌≤◌, ◌<◌, String, ◌≡◌, refl, sym, ap,
  ◌∙◌, ◌≢◌, ◌↔◌, ◌⊎◌, inl, inr, Bool, true, false, not, ◌&&◌, ◌||◌, Option, none, some, List, [],
  ◌∷◌, ◌++◌, map, arith, ◌==◌, starts_with, eq_iff, length, length-append, first, All, length-map,
  keep, any, find_first, update, count, contains, IsUnique, ltb, leb, eqb, if◌then◌else◌, is_some,
  Bool-cases, Option-cases, List-cases,
}
use native.Mathlib.Decide.{ℕ_discrete}
use whiparc.Prelude.Discrete.{String-discrete, is_yes}
use whiparc.Store.{SaveStatus, saved, saving, error, readonly}

pub record Copy : Type 0 where
  pub identity : ℕ
  pub json : String

-- What a save sends; the token is the one of the session.
pub record Draft : Type 0 where
  pub nodes : Copy
  pub edges : Copy
  pub project : String
  pub version : ℕ
  pub token : Option String

-- The values that the effect lists.
pub record Watched : Type 0 where
  pub draft : Draft
  pub status : SaveStatus

unfoldable pub Watched-discrete : Discrete Watched
Watched-discrete = hlevel (ℕ_discrete, String-discrete)

-- The body of a PUT, with the token of its header.
pub record Put : Type 0 where
  pub nodes_json : String
  pub edges_json : String
  pub base_version : ℕ
  pub bearer : String

-- `seen` are the values at the last run of the effect, `armed` is the draft of a timer that runs,
-- `puts` are the requests in flight, `broadcasts` the changes sent to the members.
pub record Editor : Type 0 where
  pub now : Watched
  pub seen : Option Watched
  pub is_incoming : Bool
  pub last_nodes : String
  pub last_edges : String
  pub armed : Option Draft
  pub puts : List Put
  pub is_open : Bool
  pub broadcasts : List (String × String)

unfoldable pub is_readonly : SaveStatus → Bool
is_readonly readonly = true
is_readonly _ = false

-- `lastStateRef.current = { nodes, edges }`
abbrev pub remember : Editor → Editor
remember e = record e { last_nodes = e.now.draft.nodes.json; last_edges = e.now.draft.edges.json }

-- Is the canvas the one that was last sent or received?
unfoldable pub is_remembered : Editor → Bool
is_remembered e = e.now.draft.nodes.json == e.last_nodes && e.now.draft.edges.json == e.last_edges

-- The message to the members
unfoldable pub broadcast : Editor → Editor
broadcast e = record e {
  broadcasts =
      if e.is_open
      then e.broadcasts ++ (e.now.draft.nodes.json, e.now.draft.edges.json) ∷ []
      else e.broadcasts;
}

-- The timer of the save
unfoldable pub arm : Editor → Editor
unfolding is_readonly
arm e =
    if is_readonly e.now.status
    then e
    else record e { now = record e.now { status = saving }; armed = some e.now.draft }

-- The body of the effect
unfoldable pub effect : Editor → Editor
unfolding is_remembered broadcast arm
effect e =
    if e.is_incoming
    then remember (record e { is_incoming = false })
    else if is_remembered e
    then e
    else arm (remember (broadcast e))

unfoldable pub is_seen : Option Watched → Watched → Bool
unfolding Watched-discrete
is_seen none w = false
is_seen (some v) w = is_yes (Watched-discrete v w)

-- After a render: when a listed value has changed the clean-up stops the timer and the effect runs.
unfoldable pub render : Editor → Editor
unfolding effect is_seen
render e = if is_seen e.seen e.now then e else effect (record e { armed = none; seen = some e.now })

-- The renders that one change leads to: the effect may set the status, which it lists itself.
unfoldable pub settle : Editor → Editor
unfolding render
settle e = render (render e)

-- The reply to a save
pub data PutReply : Type 0 where
  stored : ℕ → PutReply
  conflict refused lost : PutReply

pub data Event : Type 0 where
  edited : Copy → Copy → Event
  peer_changed : Option Copy → Option Copy → Event
  opened : (is_viewer : Bool) → Event
  loaded : Copy → Copy → ℕ → Event
  signed : Option String → Event
  connected : Bool → Event
  fired : Event
  replied : ℕ → PutReply → Event

abbrev pub or_else : Option Copy → Copy → Copy
or_else none c = c
or_else (some d) c = d

abbrev pub set_canvas : Copy → Copy → Editor → Editor
set_canvas nodes edges e = record e {
  now = record e.now { draft = record e.now.draft { nodes = nodes; edges = edges } };
}

abbrev pub set_status : SaveStatus → Editor → Editor
set_status s e = record e { now = record e.now { status = s } }

abbrev pub set_version : ℕ → Editor → Editor
set_version v e = record e { now = record e.now { draft = record e.now.draft { version = v } } }

-- The request of a timer that has run out: none without a token or a project
unfoldable pub request : Draft → List Put
request d = elim d.token [
  | none ↦ []
  | some t ↦
      if t == "" || d.project == ""
      then []
      else record {
        nodes_json = d.nodes.json;
        edges_json = d.edges.json;
        base_version = d.version;
        bearer = t;
      }
        ∷ []
]

-- `handleSnapshotReverted`, and the canvas part of `loadProjectAndCanvas`; `state.version || 1`
unfoldable pub load : Copy → Copy → ℕ → Editor → Editor
load nodes edges version e =
    set_version (if eqb version 0 then 1 else version)
      (set_canvas nodes edges (record e { is_incoming = true }))

unfoldable pub take_reply : PutReply → Editor → Editor
take_reply (stored v) e = set_status saved (set_version v e)
take_reply conflict e = set_status error e
take_reply refused e = set_status error e
take_reply lost e = set_status error e

-- The requests without the one at a place, if there is one.
unfoldable pub without : ℕ → List Put → Option (List Put)
without i [] = none
without zero (p ∷ ps) = some ps
without (suc i) (p ∷ ps) = elim (without i ps) [ none ↦ none | some rest ↦ some (p ∷ rest) ]

-- What happens, up to the renders that it leads to.
unfoldable pub act : Event → Editor → Editor
unfolding request load take_reply without
act (edited nodes edges) e = set_canvas nodes edges e
act (peer_changed nodes edges) e =
    set_canvas (or_else nodes e.now.draft.nodes) (or_else edges e.now.draft.edges)
      (record e { is_incoming = true })
act (opened true) e = set_status readonly e
act (opened false) e = set_status saved e
act (loaded nodes edges version) e = load nodes edges version e
act (signed token) e = record e {
  now = record e.now { draft = record e.now.draft { token = token } };
}
act (connected b) e = record e { is_open = b }
act fired e = elim e.armed [
  | none ↦ e
  | some d ↦ record e { armed = none; puts = e.puts ++ request d }
]
act (replied i reply) e = elim (without i e.puts) [
  | none ↦ e
  | some rest ↦ take_reply reply (record e { puts = rest })
]

unfoldable pub step : Event → Editor → Editor
unfolding act settle
step event e = settle (act event e)

unfoldable pub run : List Event → Editor → Editor
unfolding step
run [] e = e
run (event ∷ rest) e = run rest (step event e)

-- The page before anything is loaded
abbrev pub blank : String → Option String → Editor
blank project token = record {
  now = record {
    draft = record {
      nodes = record { identity = 0; json = "[]" };
      edges = record { identity = 0; json = "[]" };
      project = project;
      version = 1;
      token = token;
    };
    status = saved;
  };
  seen = none;
  is_incoming = false;
  last_nodes = "[]";
  last_edges = "[]";
  armed = none;
  puts = [];
  is_open = false;
  broadcasts = [];
}
