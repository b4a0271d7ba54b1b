-- ===== src/Common/Retry/Attempts.antt =====
-- How often RetryDo tries, what it sends, when it pauses, and what it returns.
use native.Mathlib.Nat.{mod-eq_of_lt, pow-le-pow_right}
use hermeshooks.Prelude.{
  ℕ, zero, suc, ◌+◌, ◌-◌, ◌*◌, ◌%◌, ◌^◌, ◌≤◌, ◌<◌, ◌≡◌, ◌⊎◌, ◌∙◌, refl, ap, String, false, inl, inr,
  Option, none, some, List, [], ◌∷◌, All, length, arith,
}
use mathlib.Core.Path.{subst}
use text.Mathlib.Text.{◌==◌ as str_eq}
use hermeshooks.Prelude.Int.{ℤ}
use hermeshooks.Common.Power.{two_64, exp_squaring}
use hermeshooks.Common.Power.Laws.{exp_squaring_power}
use hermeshooks.Common.Retry.{
  Reader, fresh, Request, Response, Reply, Run, done, panicked, Run, second, five_micros, backoff,
  max_attempts, close, refill, Verdict, accepted, refused, crashed, verdict, before, attempts,
  retry_do,
}

-- The pauses after attempts `i`, `i + 1`, ..., `n` of them.
pub pauses : ℕ → ℕ → List ℕ
pauses i zero = []
pauses i (suc n) = backoff i ∷ pauses (suc i) n

backoff-power :
    (i p : ℕ) → exp_squaring 2 i ≡ some p → backoff i ≡ (p * second + five_micros) % two_64
unfolding backoff
backoff-power i p e = ground arith

-- For i up to 33, the pause after attempt i is 2 ^ i seconds and 5 microseconds.
backoff_exact : (i : ℕ) → i ≤ 33 → backoff i ≡ 2 ^ i * second + five_micros
backoff_exact i h =
    let small : 2 ^ i ≤ 2 ^ 33 = pow-le-pow_right (omega arith) h in
    let once : 2 ^ i % two_64 ≡ 2 ^ i = mod-eq_of_lt (omega arith) in
    backoff-power i (2 ^ i) (exp_squaring_power 2 i (omega arith) ∙ ap some once)
    ∙ mod-eq_of_lt (omega arith)

Verdict-cases :
    (v : Verdict) → ((r : Response) × (v ≡ accepted r)) ⊎ ((v ≡ crashed) ⊎ (v ≡ refused))
Verdict-cases (accepted r) = inl (r, refl)
Verdict-cases crashed = inr (inl refl)
Verdict-cases refused = inr (inr refl)

verdict-accepted :
    (err : Option String) (resp : Option Response) {r : Response}
    → verdict err resp ≡ accepted r
    → (err ≡ none) × (resp ≡ some r) × (r.status_code < 500)
verdict-accepted (some e) resp h = cc
verdict-accepted none none h = cc
verdict-accepted none (some x) {r} h =
    let e : x ≡ r = ground arith in
    let small : x.status_code < 500 = ground arith in (refl, ap some e, rw (← e) small)

verdict-crashed :
    (err : Option String) (resp : Option Response)
    → verdict err resp ≡ crashed
    → (err ≡ none) × (resp ≡ none)
verdict-crashed err resp h = ground arith

module _ {S : Type 0} (send : S → Request → Reply × S) where
  attempts_count :
      (left i : ℕ) (body : String) (req : Request) (s : S)
      → (k : ℕ) × (k ≤ left)
        × (length (attempts send left i body req s).sent ≡ suc k)
        × ((attempts send left i body req s).slept ≡ pauses i k)
  unfolding attempts pauses
  attempts_count zero i body req s = (0, omega arith, ground arith, ground arith)
  attempts_count (suc left) i body req s =
      let req1 = refill body req in
      let reply = (send s req1).0 in
      let (k, h, n, p) =
        attempts_count left (suc i) body (record req1 { body = reply.body_left }) (send s req1).1 in
      elim (Verdict-cases (verdict reply.err reply.resp)) [
        | inl (r, e) ↦ (0, omega arith, ground arith, ground arith)
        | inr (inl e) ↦ (0, omega arith, ground arith, ground arith)
        | inr (inr e) ↦ (suc k, omega arith, ground arith, ground arith)
      ]

  -- All requests sent carry the same payload, and nothing else of the request changes.
  abbrev pub Resends : String → Request → List Request → Type 0
  Resends body req sent = All (λ r. r ≡ record req { body = some (fresh body) }) sent

  attempts-Resends :
      (left i : ℕ) (body : String) (req : Request) (s : S)
      → str_eq body "" ≡ false
      → Resends body req (attempts send left i body req s).sent
  unfolding attempts
  attempts-Resends zero i body req s h =
      let only : (attempts send zero i body req s).sent ≡ refill body req ∷ [] = ground arith in
      rw (only, h) (refl, tt)
  attempts-Resends (suc left) i body req s h =
      let req1 = refill body req in
      let reply = (send s req1).0 in
      let rest =
        attempts send left (suc i) body (record req1 { body = reply.body_left }) (send s req1).1 in
      let first : refill body req ≡ record req { body = some (fresh body) } = rw h refl in
      elim (Verdict-cases (verdict reply.err reply.resp)) [
        | inl (r, e) ↦
            let only : (attempts send (suc left) i body req s).sent ≡ req1 ∷ [] = ground arith in
            rw only (first, tt)
        | inr (inl e) ↦
            let only : (attempts send (suc left) i body req s).sent ≡ req1 ∷ [] = ground arith in
            rw only (first, tt)
        | inr (inr e) ↦
            let more : (attempts send (suc left) i body req s).sent ≡ req1 ∷ rest.sent =
              ground arith in
            rw more (
              first,
              subst (λ q. Resends body (record q { body = reply.body_left }) rest.sent) first
                  (attempts-Resends left (suc i) body (record req1 { body = reply.body_left })
                    (send s req1).1 h),
            )
      ]

  -- A reply that the client gave.
  abbrev pub Given : Reply → Type 0
  Given reply = (q : Request) × (t : S) × (reply ≡ (send t q).0)

  -- How a run of attempts ends: with a response below 500, as the client gave it; or, after the last
  -- attempt, with a reply that is none, its body closed; or in the panic, if the client gave nothing.
  abbrev pub Ends : ℕ → Run S → Type 0
  Ends left run =
      (reply : Reply) × Given reply
      × (((r : Response) × (reply.resp ≡ some r)
            × (reply.err ≡ none)
            × (run.outcome ≡ done (some r) none)
            × (r.status_code < 500))
          ⊎ (((run.outcome ≡ done (close reply.resp) reply.err)
                × (verdict reply.err reply.resp ≡ refused)
                × (length run.sent ≡ suc left))
              ⊎ ((run.outcome ≡ panicked) × (reply.resp ≡ none) × (reply.err ≡ none))))

  Ends-before :
      (left : ℕ) (req : Request) (d : ℕ) (run : Run S)
      → Ends left run
      → Ends (suc left) (before req d run)
  Ends-before left req d run (reply, g, inl h) = (reply, g, inl h)
  Ends-before left req d run (reply, g, inr (inl (e, v, n))) =
      (reply, g, inr (inl (e, v, ap suc n)))
  Ends-before left req d run (reply, g, inr (inr h)) = (reply, g, inr (inr h))

  attempts-Ends :
      (left i : ℕ) (body : String) (req : Request) (s : S)
      → Ends left (attempts send left i body req s)
  unfolding attempts
  attempts-Ends zero i body req s =
      let reply = (send s (refill body req)).0 in
      elim (Verdict-cases (verdict reply.err reply.resp)) [
        | inl (r, e) ↦
            let (a, b, c) = verdict-accepted reply.err reply.resp e in
            (reply, (refill body req, s, refl), inl (r, b, a, ground arith, c))
        | inr (inl e) ↦
            let (a, b) = verdict-crashed reply.err reply.resp e in
            (reply, (refill body req, s, refl), inr (inr (ground arith, b, a)))
        | inr (inr e) ↦
            (reply, (refill body req, s, refl), inr (inl (ground arith, e, ground arith)))
      ]
  attempts-Ends (suc left) i body req s =
      let req1 = refill body req in
      let reply = (send s req1).0 in
      let rest =
        attempts send left (suc i) body (record req1 { body = reply.body_left }) (send s req1).1 in
      elim (Verdict-cases (verdict reply.err reply.resp)) [
        | inl (r, e) ↦
            let (a, b, c) = verdict-accepted reply.err reply.resp e in
            (reply, (req1, s, refl), inl (r, b, a, ground arith, c))
        | inr (inl e) ↦
            let (a, b) = verdict-crashed reply.err reply.resp e in
            (reply, (req1, s, refl), inr (inr (ground arith, b, a)))
        | inr (inr e) ↦
            let more : attempts send (suc left) i body req s ≡ before req1 (backoff i) rest =
              ground arith in
            rw more (
              Ends-before left req1 (backoff i) rest (
                attempts-Ends left (suc i) body (record req1 { body = reply.body_left })
                  (send s req1).1))
      ]

  -- The body that RetryDo reads before the first attempt, if it can.
  abbrev pub Readable : Option Reader → String → Type 0
  Readable none text = text ≡ ""
  Readable (some rd) text = (rd.fault ≡ none) × (rd.unread ≡ text)

  abbrev drained : Request → Request
  drained req = record req { body = elim req.body [ none ↦ none | some rd ↦ some (fresh "") ] }

  retry-attempts :
      (req : Request) (retries : ℤ) (s : S) (text : String) (body : Option Reader)
      → req.body ≡ body
      → Readable body text
      → retry_do send req retries s
        ≡ attempts send (max_attempts retries - 1) 1 text (drained req) s
  unfolding retry_do
  retry-attempts req retries s text none e h = ground arith
  retry-attempts req retries s text (some rd) e h = ground arith

  attempts_pos : (retries : ℤ) → 0 < max_attempts retries
  attempts_pos retries = ground arith

  -- When the body can be read, RetryDo sends the request at least once and at most `maxRetries` times
  -- (once, if that is not positive), and pauses exactly between one attempt and the next.
  pub retry_count :
      (req : Request) (retries : ℤ) (s : S) (text : String)
      → Readable req.body text
      → (k : ℕ) × (suc k ≤ max_attempts retries)
        × (length (retry_do send req retries s).sent ≡ suc k)
        × ((retry_do send req retries s).slept ≡ pauses 1 k)
  retry_count req retries s text h =
      let (k, le, n, p) = attempts_count (max_attempts retries - 1) 1 text (drained req) s in
      let same = retry-attempts req retries s text req.body refl h in
      (k, omega (arith, attempts_pos retries), rw same n, rw same p)

  -- Whatever the client leaves unread, every attempt carries the whole of a body that is not empty,
  -- and the method, URL and headers of the request.
  pub retry-Resends :
      (req : Request) (retries : ℤ) (s : S) (text : String)
      → Readable req.body text
      → str_eq text "" ≡ false
      → Resends text req (retry_do send req retries s).sent
  retry-Resends req retries s text h nonempty =
      rw (retry-attempts req retries s text req.body refl h)
        (attempts-Resends (max_attempts retries - 1) 1 text (drained req) s nonempty)

  -- When the body can be read, RetryDo ends in one of three ways. It returns a response below 500 just
  -- as the client gave it; or, after the last attempt that is allowed, a reply of the client that is
  -- none, its body closed; or it panics, on a reply with neither a response nor an error.
  pub retry-Ends :
      (req : Request) (retries : ℤ) (s : S) (text : String)
      → Readable req.body text
      → Ends (max_attempts retries - 1) (retry_do send req retries s)
  retry-Ends req retries s text h =
      rw (retry-attempts req retries s text req.body refl h)
        (attempts-Ends (max_attempts retries - 1) 1 text (drained req) s)
