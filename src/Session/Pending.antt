-- ===== src/Session/Pending.antt =====
-- The requests in flight that the sign-in pages wait for.
use whiparc.Prelude.{
  ℕ, zero, suc, ◌≡◌, refl, ap, ◌∙◌, Bool, true, false, some, List, [], ◌∷◌, ◌++◌, any, arith,
  Option-cases, inl, inr,
}
use whiparc.Session.Calls.{Request, login, signup, verify_email, take_request}

-- The requests that the sign-in pages wait for.
unfoldable pub is_awaited : Request → Bool
is_awaited login = true
is_awaited signup = true
is_awaited verify_email = true
is_awaited _ = false

pub any-append_left :
    (p : Request → Bool) (rs qs : List Request) → any p rs ≡ true → any p (rs ++ qs) ≡ true
unfolding any
any-append_left p [] qs h = absurd (ground arith)
any-append_left p (r ∷ rs) qs h = ground (arith, any-append_left p rs qs)

pub any-append_last :
    (p : Request → Bool) (rs : List Request) (q : Request)
    → p q ≡ true
    → any p (rs ++ q ∷ []) ≡ true
unfolding any
any-append_last p [] q h = rw h refl
any-append_last p (r ∷ rs) q h = ground (arith, any-append_last p rs q h)

-- A request that is not awaited leaves the awaited ones in flight.
pub take_request-awaited :
    (i : ℕ) (rs rest : List Request) (q : Request)
    → take_request i rs ≡ some (q, rest)
    → is_awaited q ≡ false
    → any is_awaited rs ≡ true
    → any is_awaited rest ≡ true
unfolding take_request any
take_request-awaited i [] rest q h other busy = absurd (ground arith)
take_request-awaited zero (r ∷ rs) rest q h other busy =
    let same_q : r ≡ q = cc in
    let same_rest : rs ≡ rest = cc in
    let idle : is_awaited r ≡ false = ap is_awaited same_q ∙ other in
    rw (← same_rest) (rw idle at busy)
take_request-awaited (suc i) (r ∷ rs) rest q h other busy =
    elim (Option-cases (take_request i rs)) [
      | inl e ↦ absurd (cc (rw (e, take_request) at h))
      | inr ((q', qs), e) ↦
          let found : some (q', r ∷ qs) ≡ some (q, rest) = rw (e, take_request) at h in
          let same_q : q' ≡ q = cc in
          let same_rest : r ∷ qs ≡ rest = cc in
          rw (← same_rest)
            (ground (arith, take_request-awaited i rs qs q' e (ap is_awaited same_q ∙ other)))
    ]
