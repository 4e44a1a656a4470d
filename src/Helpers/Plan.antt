-- ===== src/Helpers/Plan.antt =====
-- Whether plan limits are live: `fetchEnforcement` and `isPaidPlan` of apps/web/app/lib/usePlan.ts. The
-- module's variables `cached` and `inflight` are state; a caller, the reply and the end of the
-- promise are events, which may come in any order.
use whiparc.Prelude.{
  ℕ, zero, suc, ◌≤◌, String, ◌≡◌, refl, sym, ap, Bool, false, not, ◌&&◌, ◌||◌, Option, none, some,
  List, [], ◌∷◌, ◌++◌, arith, ◌==◌, All,
}
use whiparc.Canvas.Json.{Fields, lookup, truthy?}

-- `isPaidPlan`
unfoldable pub is_paid_plan : Option String → Bool
is_paid_plan none = false
is_paid_plan (some p) = p == "PRO" || p == "ENTERPRISE"

-- `useProTemplateAccess().canUsePro`
unfoldable pub can_use_pro : Bool → Option String → Bool
unfolding is_paid_plan
can_use_pro enforced plan = not enforced || is_paid_plan plan

-- What comes of `fetch`: a response with its body, or an error thrown on the way.
pub data ConfigReply : Type 0 where
  answered : Bool → Fields → ConfigReply
  failed : ConfigReply

-- `Boolean(d.plan_enforcement)`, of a body that an error response has not
unfoldable pub enforcement_of : ConfigReply → Bool
enforcement_of (answered ok body) = ok && truthy? (lookup "plan_enforcement" body)
enforcement_of failed = false

-- `inflight`: null, a promise, or a promise with its value that `finally` has not yet cleared
pub data Inflight : Type 0 where
  absent : Inflight
  promised : Inflight
  settled : Bool → Inflight

-- `waiting` are the callers that hold the promise, `answers` what callers have been told, `requests` the
-- requests that were sent.
pub record Cache : Type 0 where
  pub cached : Option Bool
  pub inflight : Inflight
  pub waiting : ℕ
  pub answers : List Bool
  pub requests : ℕ

pub data Event : Type 0 where
  asked : Event
  replied : ConfigReply → Event
  finished : Event

abbrev pub cache : Option Bool → Inflight → ℕ → List Bool → ℕ → Cache
cache k i w told r = record { cached = k; inflight = i; waiting = w; answers = told; requests = r }

abbrev pub unasked : Cache
unasked = cache none absent 0 [] 0

abbrev pub copies : ℕ → Bool → List Bool
copies zero v = []
copies (suc n) v = v ∷ copies n v

-- `fetchEnforcement`, of the variables and what has been told and sent
unfoldable pub fetch_enforcement : Option Bool → Inflight → ℕ → List Bool → ℕ → Cache
fetch_enforcement (some v) i w told r = cache (some v) i w (v ∷ told) r
fetch_enforcement none absent w told r = cache none promised (suc w) told (suc r)
fetch_enforcement none promised w told r = cache none promised (suc w) told r
fetch_enforcement none (settled v) w told r = cache none (settled v) (suc w) told r

-- `then` and `catch`
unfoldable pub take_reply : ConfigReply → Option Bool → Inflight → ℕ → List Bool → ℕ → Cache
unfolding enforcement_of
take_reply reply k promised w told r =
    let v = enforcement_of reply in cache (some v) (settled v) w told r
take_reply reply k absent w told r = cache k absent w told r
take_reply reply k (settled v) w told r = cache k (settled v) w told r

-- `finally`, and the callers that waited
unfoldable pub clear_inflight : Option Bool → Inflight → ℕ → List Bool → ℕ → Cache
clear_inflight k (settled v) w told r = cache k absent 0 (copies w v ++ told) r
clear_inflight k absent w told r = cache k absent w told r
clear_inflight k promised w told r = cache k promised w told r

unfoldable pub step : Event → Cache → Cache
unfolding fetch_enforcement take_reply clear_inflight
step asked c = fetch_enforcement c.cached c.inflight c.waiting c.answers c.requests
step (replied reply) c = take_reply reply c.cached c.inflight c.waiting c.answers c.requests
step finished c = clear_inflight c.cached c.inflight c.waiting c.answers c.requests

unfoldable pub run : List Event → Cache → Cache
unfolding step
run [] c = c
run (e ∷ es) c = run es (step e c)

-- Before the reply nobody has an answer; after it every answer is the cached one.
abbrev Fits : Option Bool → Inflight → List Bool → ℕ → Type 0
Fits none absent told r = (r ≡ 0) × (told ≡ [])
Fits none promised told r = (r ≡ 1) × (told ≡ [])
Fits none (settled u) told r = ⊥
Fits (some v) absent told r = (r ≡ 1) × All (λ a. a ≡ v) told
Fits (some v) promised told r = ⊥
Fits (some v) (settled u) told r = (r ≡ 1) × (u ≡ v) × All (λ a. a ≡ v) told

abbrev IsFitting : Cache → Type 0
IsFitting c = Fits c.cached c.inflight c.answers c.requests

All-copies :
    (n : ℕ) (u v : Bool) (told : List Bool)
    → u ≡ v
    → All (λ a. a ≡ v) told
    → All (λ a. a ≡ v) (copies n u ++ told)
All-copies zero u v told same all = all
All-copies (suc n) u v told same all = (same, All-copies n u v told same all)

All-none : (v : Bool) (told : List Bool) → told ≡ [] → All (λ a. a ≡ v) told
All-none v told empty = rw empty tt

fetch_enforcement-IsFitting :
    (k : Option Bool) (i : Inflight) (w : ℕ) (told : List Bool) (r : ℕ)
    → Fits k i told r
    → IsFitting (fetch_enforcement k i w told r)
unfolding fetch_enforcement
fetch_enforcement-IsFitting none absent w told r h = (ap suc h.0, h.1)
fetch_enforcement-IsFitting none promised w told r h = h
fetch_enforcement-IsFitting none (settled u) w told r h = h
fetch_enforcement-IsFitting (some v) absent w told r h = (h.0, (refl, h.1))
fetch_enforcement-IsFitting (some v) promised w told r h = h
fetch_enforcement-IsFitting (some v) (settled u) w told r h = (h.0, h.1, (refl, h.2))

take_reply-IsFitting :
    (reply : ConfigReply) (k : Option Bool) (i : Inflight) (w : ℕ) (told : List Bool) (r : ℕ)
    → Fits k i told r
    → IsFitting (take_reply reply k i w told r)
unfolding take_reply
take_reply-IsFitting reply none promised w told r h =
    (h.0, refl, All-none (enforcement_of reply) told h.1)
take_reply-IsFitting reply (some v) promised w told r h = absurd h
take_reply-IsFitting reply k absent w told r h = h
take_reply-IsFitting reply k (settled u) w told r h = h

clear_inflight-IsFitting :
    (k : Option Bool) (i : Inflight) (w : ℕ) (told : List Bool) (r : ℕ)
    → Fits k i told r
    → IsFitting (clear_inflight k i w told r)
unfolding clear_inflight
clear_inflight-IsFitting none (settled u) w told r h = absurd h
clear_inflight-IsFitting (some v) (settled u) w told r h = (h.0, All-copies w u v told h.1 h.2)
clear_inflight-IsFitting k absent w told r h = h
clear_inflight-IsFitting k promised w told r h = h

run-IsFitting : (es : List Event) (c : Cache) → IsFitting c → IsFitting (run es c)
unfolding run step
run-IsFitting [] c h = h
run-IsFitting (asked ∷ es) c h =
    run-IsFitting es _
      (fetch_enforcement-IsFitting c.cached c.inflight c.waiting c.answers c.requests h)
run-IsFitting (replied reply ∷ es) c h =
    run-IsFitting es _
      (take_reply-IsFitting reply c.cached c.inflight c.waiting c.answers c.requests h)
run-IsFitting (finished ∷ es) c h =
    run-IsFitting es _
      (clear_inflight-IsFitting c.cached c.inflight c.waiting c.answers c.requests h)

answers-cached :
    (v : Bool) (told : List Bool) → All (λ a. a ≡ v) told → All (λ a. some v ≡ some a) told
answers-cached v [] h = tt
answers-cached v (a ∷ told) h = (ap some (sym h.0), answers-cached v told h.1)

Fits-once :
    (k : Option Bool) (i : Inflight) (told : List Bool) (r : ℕ)
    → Fits k i told r
    → (r ≤ 1) × All (λ a. k ≡ some a) told
Fits-once none absent told r h = (omega (arith, h.0), rw h.1 tt)
Fits-once none promised told r h = (omega (arith, h.0), rw h.1 tt)
Fits-once none (settled u) told r h = absurd h
Fits-once (some v) absent told r h = (omega (arith, h.0), answers-cached v told h.1)
Fits-once (some v) promised told r h = absurd h
Fits-once (some v) (settled u) told r h = (omega (arith, h.0), answers-cached v told h.2)

-- However many components ask, before and after the reply, the configuration is requested at most
-- once, and every answer that one of them gets is the cached one.
pub asked_once :
    (es : List Event)
    → ((run es unasked).requests ≤ 1)
      × All (λ a. (run es unasked).cached ≡ some a) (run es unasked).answers
asked_once es =
    let after = run es unasked in
    Fits-once after.cached after.inflight after.answers after.requests
      (run-IsFitting es unasked (refl, refl))
