-- ===== src/Workspace/Autosave/Examples.antt =====
-- A page that is opened and edited.
use whiparc.Prelude.{
  if◌then◌else◌, ℕ, ◌≡◌, refl, true, false, none, some, List, [], ◌∷◌, ◌++◌, length, All,
}
use native.Mathlib.Decide.{ℕ_discrete}
use whiparc.Prelude.Discrete.{String-discrete}
use whiparc.Store.{saved, saving}
use whiparc.Workspace.Autosave.{
  Copy, Editor, Watched-discrete, Event, edited, opened, loaded, fired, replied, peer_changed,
  stored, conflict, blank, settle, step, run, set_canvas, set_version, is_seen, render,
  is_remembered,
}
use whiparc.Workspace.Autosave.Renders.{settle_rests}
use whiparc.Workspace.Autosave.Laws.{IsCurrent, run-IsCurrent}
use whiparc.Workspace.Autosave.Losses.{is_saving, edit_armed, reply_disarms, no_echo}
use whiparc.Workspace.Autosave.Versions.{is_versionless, SentWith, run_stale}

abbrev empty : Copy
empty = record { identity = 2; json = "[]" }

abbrev one : ℕ → Copy
one n = record { identity = n; json = "[{\"id\":\"nginx_1\"}]" }

abbrev two : Copy
two = record { identity = 4; json = "[{\"id\":\"nginx_1\"},{\"id\":\"nodejs_2\"}]" }

abbrev opening : List Event
opening = opened false ∷ loaded (one 1) empty 7 ∷ []

abbrev start : Editor
start = settle (blank "p1" (some "t"))

-- The first change after the load is not saved, a second one is, and a third while the save is in
-- flight is not.
armed_test :
    ((run (opening ++ edited two empty ∷ fired ∷ []) start).puts ≡ [])
    × (length (run (opening ++ edited two empty ∷ edited (one 5) empty ∷ fired ∷ []) start).puts
        ≡ 1)
    × (length
          (run
            (opening
              ++ edited two empty
                ∷ edited (one 5) empty
                ∷ fired
                ∷ edited two empty
                ∷ replied 0 (stored 8)
                ∷ fired
                ∷ [])
            start).puts
        ≡ 0)
unfolding run is_seen Watched-discrete String-discrete ℕ_discrete
armed_test = (refl, refl, refl)

settle_rests_example :
    let e = settle (step (edited two empty) start) in (is_seen e.seen e.now ≡ true) × (render e ≡ e)
settle_rests_example = settle_rests (step (edited two empty) start)

run-IsCurrent_example : IsCurrent (run opening start)
run-IsCurrent_example = run-IsCurrent "p1" (some "t") opening

edit_armed_example :
    ((step (edited two empty) (run opening start)).armed ≡ none)
    × ((step (edited two empty) (run opening start)).now
        ≡ record (set_canvas two empty (run opening start)).now { status = saving })
    × ((step (edited two empty) (run opening start)).puts ≡ (run opening start).puts)
unfolding is_saving run is_seen Watched-discrete String-discrete ℕ_discrete is_remembered
edit_armed_example =
    edit_armed two empty (run opening start) (run-IsCurrent "p1" (some "t") opening) refl refl refl

-- A save in flight, with a change made since
abbrev overtaken : List Event
overtaken = opening ++ edited two empty ∷ edited (one 5) empty ∷ fired ∷ edited two empty ∷ []

reply_disarms_example :
    ((step (replied 0 (stored 8)) (run overtaken start)).armed ≡ none)
    × ((step (replied 0 (stored 8)) (run overtaken start)).now
        ≡ record (set_version 8 (run overtaken start)).now { status = saved })
    × ((step (replied 0 (stored 8)) (run overtaken start)).puts ≡ [])
unfolding run is_seen Watched-discrete String-discrete ℕ_discrete
reply_disarms_example =
    reply_disarms 0 (stored 8) [] (run overtaken start) (run-IsCurrent "p1" (some "t") overtaken)
      refl refl

no_echo_example :
    let e = run opening start in
    let changed = step (peer_changed (some two) (some empty)) e in
    let fetched = step (loaded two empty 0) e in
    (changed.broadcasts ≡ e.broadcasts)
    × (changed.puts ≡ e.puts)
    × (changed.now ≡ (set_canvas two empty e).now)
    × (changed.armed ≡ (if is_seen e.seen (set_canvas two empty e).now then e.armed else none))
    × (fetched.broadcasts ≡ e.broadcasts)
    × (fetched.puts ≡ e.puts)
    × (fetched.now ≡ (set_version 1 (set_canvas two empty e)).now)
    × (fetched.armed
        ≡ (if is_seen e.seen (set_version 1 (set_canvas two empty e)).now then e.armed else none))
no_echo_example = no_echo two empty 0 (run opening start)

abbrev quarrel : List Event
quarrel =
    edited two empty
    ∷ edited (one 5) empty
    ∷ fired
    ∷ replied 0 conflict
    ∷ edited two empty
    ∷ edited (one 6) empty
    ∷ fired
    ∷ []

run_stale_example :
    ((run quarrel (run opening start)).now.draft.version ≡ 7)
    × SentWith 7 (run quarrel (run opening start)).puts
unfolding run is_seen Watched-discrete String-discrete ℕ_discrete is_versionless
run_stale_example =
    let local : All (λ event. is_versionless event ≡ true) quarrel =
      (refl, (refl, (refl, (refl, (refl, (refl, (refl, tt))))))) in
    run_stale quarrel (run opening start) 7 local (run-IsCurrent "p1" (some "t") opening) refl tt
