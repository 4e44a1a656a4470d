-- ===== src/Lib.antt =====
-- Whiparc turns a canvas of connected nodes into infrastructure code. This library models the
-- logic of its web application, apps/web/app: the canvas store, the generators that read it, the
-- session, and the logic of the workspace, the dashboard and the page of a team.
--
-- The parts and their files:
--
-- * `Canvas` is the data that all parts share: `Node` and `Edge` of @xyflow/react as the program
--   reads them. `Canvas/Json` is the JSON-shaped `data` of a node, with JavaScript's truthiness,
--   `||` and conversion to text. `Canvas/Design` is lib/canvasDesign.ts: which colour and
--   thickness of a connector the user chose.
-- * `Store` is store/useCanvasStore.ts: its state, one function for each action, and in
--   `Store/Actions` the actions as data with a step function. `set_is_executing` and the other
--   plain setters are branches of `step`.
-- * `Sort` is `getSortedNodes` of lib/exportYaml.ts, Kahn's algorithm: `node_map`, `graph`,
--   `start`, `visit`, `drain` and `complete` are its loops in order. `Sort/Rounds` has the
--   invariant of the loop; `Sort/Ending`, `Sort/Permutation`, `Sort/Order`, `Sort/Precedence`,
--   `Sort/Topological` and `Sort/Stable` have the laws.
-- * `Playbook` is `generateAnsibleYAML` of the same file: `kind_of` is the ladder over ids and
--   labels, `kind_tasks` the block of each branch. Its template literals stand in
--   `Playbook/Header`, `Playbook/Packages` and `Playbook/Services`. `Playbook/Vars` is the regular
--   expression for open variables and the `vars:` block.
-- * `Terraform` is `generateTerraformFiles` of lib/bundleGenerator.ts. `Terraform/Targets`,
--   `Terraform/Providers` and `Terraform/Variables` are its beginning; `Terraform/Links` has the
--   steps by which a resource finds the one it is placed in; `Terraform/Instance`,
--   `Terraform/Groups`, `Terraform/Stores` and `Terraform/Networks` are the branches of its ladder
--   over node ids, which `Terraform/Resources` composes in the loop; `Terraform/References` is the
--   scan for references at the end. `Canvas/Stringify` is JSON.stringify, `Prelude/Number` the
--   texts that JavaScript takes for numbers.
-- * `Bundle` is `generateBundleFiles` of lib/bundleGenerator.ts: `Bundle/Files` is its list of
--   files; `Bundle/Manifests` has the ladder over node ids, the templates and the placeholders of
--   custom blocks; `Bundle/Hosts` finds the start node and the host line. The base64 encoder of
--   the platform is a parameter.
-- * `Redirect` is `isSafeRedirectPath` and `resolvePostAuthPath` of lib/oauthRedirect.ts. The API's
--   reply to the use of a template is a parameter.
-- * `Session` is store/useAuthStore.ts: its state, in `Session/Replies` what each reply of the API
--   does to it, in `Session/Calls` the actions up to their `await` and the requests in flight.
--   `Session/Claims` is `decodeTokenClaims`, over the browser's decoders as a parameter.
-- * `Tour` is `placePopover` of lib/tourPlacement.ts. Positions are signed integers in a unit that
--   divides the pixel and makes every half whole; `unit` is the number of units in a pixel.
-- * `Workspace` is a part of workspace/page.tsx: `Workspace/Defaults` and `Workspace/Tables` are
--   the parameters of new blocks, `Workspace/Blocks` the handler of clicks, `Workspace/Drops` that
--   of drops, with `onDragStart` of workspace/LibraryPanelV2.tsx, and `Workspace/Preview` the files
--   shown for a node. The clock and the conversion of parameters to and from JSON are parameters.
-- * `Workspace/Autosave`, `Workspace/Pipeline` and `Workspace/Presence` are further parts of the
--   page: the effect that sends changes to the members and saves them, with React's rules for
--   running it again; the handlers that deploy, plan and destroy, with the sockets that stream a run;
--   and the room of the members. What happens is a list of events in any order. The server and the
--   clock of the save are such events, with no assumption on what they say.
-- * `Helpers` has lib/usePlan.ts, where callers, the reply and the end of the shared request are
--   events, lib/capture.ts and lib/avatar.ts. The address of the API is a parameter.
-- * `Dashboard` has lib/useAggregatedRuns.ts, and of dashboard/DashboardV2.tsx and
--   runs/RunsPageV2.tsx what they make of the runs: the statistics, the sparkline, the projects that
--   need a look, and the texts. `Dashboard/Projects` is the fetch of the projects and their form.
--   The reading of dates is a parameter. Quotients are exact, where the source has floating-point
--   numbers.
-- * `Team` is team/TeamPageV2.tsx: `Team/Load` is `loadAll`, and `Team/Actions` the handlers of the
--   rows, whose requests wait for their replies in any order.
--
-- The generators call one another as in the source: the playbook sorts the canvas first, and the
-- bundle contains the playbook and the Terraform files. The store holds the nodes and edges that
-- are handed to them, the workspace page puts blocks into the store and shows files of the bundle. The dashboard
-- chooses the team as the page of a team does, by `active_team` of `Team/Load`.
--
-- Choices. Texts are lists of characters, where the source has UTF-16 code units; numbers in a
-- node's data are natural numbers; widths are in tenths of a pixel. `Map` is a function and `Set`
-- a list. The counters of `getSortedNodes` are signed, since a repeated id drives them below 0.
-- Its loop has as many rounds as the canvas has nodes, which empties the queue on every canvas.
-- The digits of a number are found with one round for each unit of the number, more than it has
-- digits. A field that the source declares as a string is taken to hold one where a string method
-- is called on it: on other values the source would throw.
--
-- What @xyflow/react does to lists of nodes and edges is a parameter of the store. Not modelled:
-- rendering, the pages but for the parts above, downloads of archives, the other hooks that fetch
-- lists, and what runs on the server.
pub mod Prelude
pub mod Canvas
pub mod Sort
pub mod Store
pub mod Playbook
pub mod Terraform
pub mod Bundle
pub mod Redirect
pub mod Session
pub mod Tour
pub mod Workspace
pub mod Helpers
pub mod Dashboard
pub mod Team
