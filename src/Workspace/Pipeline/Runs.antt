-- ===== src/Workspace/Pipeline/Runs.antt =====
-- What happens to the console of a workspace, in any order: buttons, replies and the sockets.
use whiparc.Prelude.{ℕ, zero, suc, String, Bool, Option, none, some, List, [], ◌∷◌, if◌then◌else◌}
use whiparc.Workspace.Pipeline.{
  Kind, Post, Console, handle_click, PostReply, take_post_reply, Message, hear, opened_log,
  is_enabled, sync_executing, add_logs,
}
use whiparc.Prelude.Text.{cat}

-- A socket that the page holds, or one of the strays
pub data Source : Type 0 where
  held : Source
  stray : ℕ → Source

pub data Event : Type 0 where
  pressed : Kind → Event
  answered : ℕ → PostReply → Event
  heard : Source → Message → Event
  opened : Source → Event
  failed : Event
  closed : (code : String) → Event
  toggled : Bool → Event

unfoldable pub nth_kind : ℕ → List Kind → Option Kind
nth_kind i [] = none
nth_kind zero (k ∷ ks) = some k
nth_kind (suc i) (k ∷ ks) = nth_kind i ks

-- Whose messages a socket brings
unfoldable pub kind_at : Source → Console → Option Kind
unfolding nth_kind
kind_at held c = c.stream
kind_at (stray i) c = nth_kind i c.strays

-- The request at a place, and the others
unfoldable pub take_post : ℕ → List Post → Option (Post × List Post)
take_post i [] = none
take_post zero (p ∷ ps) = some (p, ps)
take_post (suc i) (p ∷ ps) = elim (take_post i ps) [ none ↦ none | some (q, qs) ↦ some (q, p ∷ qs) ]

module _ (encode : String → String) where
  -- An event, up to the effect that it leads to.
  unfoldable pub act : Event → Console → Console
  unfolding handle_click take_post_reply hear is_enabled kind_at take_post opened_log cat
  act (pressed kind) c = if is_enabled kind c then handle_click encode kind c else c
  act (answered i reply) c = elim (take_post i c.posts) [
    | none ↦ c
    | some (p, rest) ↦ take_post_reply p.kind reply (record c { posts = rest })
  ]
  act (heard source message) c = elim (kind_at source c) [
    | none ↦ c
    | some kind ↦ hear kind message c
  ]
  act (opened source) c = elim (kind_at source c) [
    | none ↦ c
    | some kind ↦ add_logs (opened_log kind ∷ []) c
  ]
  act failed c = add_logs ("\n[CLIENT] WebSocket encountered an error.\n" ∷ []) c
  act (closed code) c = add_logs ("\n[CLIENT] Log stream closed (code: " ∷ code ∷ ").\n" ∷ []) c
  act (toggled b) c = record c { auto_destroy = b }

  unfoldable pub step : Event → Console → Console
  unfolding act sync_executing
  step e c = sync_executing (act e c)

  unfoldable pub run : List Event → Console → Console
  unfolding step
  run [] c = c
  run (e ∷ es) c = run es (step e c)
