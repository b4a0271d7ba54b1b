-- ===== src/Common/Retry.antt =====
-- RetryDo. The HTTP client is a parameter: `Do` of a request, from a state of the outside world, gives
-- a response or an error (or both, or neither), what it has left unread of the request's body, and
-- the new state. A run also records the requests that were sent and the pauses between them.
pub mod Attempts
use hermeshooks.Prelude.{
  ℕ, zero, suc, ◌+◌, ◌-◌, ◌*◌, ◌%◌, String, Bool, true, false, not, ◌&&◌, Option, none, some, List,
  [], ◌∷◌, ltb, ◌==◌, if◌then◌else◌,
}
use text.Mathlib.Text.{◌==◌ as str_eq}
use hermeshooks.Prelude.Int.{ℤ, pos, leb_ℤ, pos_part}
use hermeshooks.Common.Power.{two_64, exp_squaring}

-- A body that is read: the text that is left, and the error that reading it ends in, if any.
pub record Reader : Type 0 where
  pub unread : String
  pub fault : Option String

-- bytes.NewReader
abbrev pub fresh : String → Reader
fresh text = record { unread = text; fault = none }

pub record Request : Type 0 where
  pub method : String
  pub url : String
  pub headers : List (String × String)
  pub body : Option Reader

pub record Response : Type 0 where
  pub status_code : ℕ
  pub body : String
  pub closed : Bool

pub record Reply : Type 0 where
  pub resp : Option Response
  pub err : Option String
  pub body_left : Option Reader

-- `panicked` is the nil pointer of `resp.StatusCode` when there is neither an error nor a response.
pub data Outcome : Type 0 where
  done : Option Response → Option String → Outcome
  panicked : Outcome

pub record Run (S : Type 0) : Type 0 where
  pub outcome : Outcome
  pub world : S
  pub sent : List Request
  pub slept : List ℕ

abbrev pub second : ℕ
second = 1_000_000_000

abbrev pub five_micros : ℕ
five_micros = 5_000

-- time.Duration(ExpSquaring(2, i)) * time.Second + 5 * time.Microsecond, as a 64-bit pattern.
unfoldable pub backoff : ℕ → ℕ
backoff i = elim (exp_squaring 2 i) [ none ↦ 0 | some p ↦ (p * second + five_micros) % two_64 ]

-- `if maxRetries <= 0 { maxRetries = 1 }`
abbrev pub max_attempts : ℤ → ℕ
max_attempts retries = if leb_ℤ retries (pos 0) then 1 else pos_part retries

-- io.Copy(io.Discard, resp.Body); resp.Body.Close()
abbrev pub close : Option Response → Option Response
close none = none
close (some r) = some (record r { closed = true })

-- `req.Body = io.NopCloser(bytes.NewReader(body))`, unless the body is empty.
abbrev pub refill : String → Request → Request
refill body req = if str_eq body "" then req else record req { body = some (fresh body) }

-- err == nil && resp.StatusCode < 500
pub data Verdict : Type 0 where
  accepted : Response → Verdict
  refused crashed : Verdict

abbrev pub verdict : Option String → Option Response → Verdict
verdict (some e) resp = refused
verdict none none = crashed
verdict none (some r) = if ltb r.status_code 500 then accepted r else refused

module _ {S : Type 0} where
  abbrev stop : Request → S → Outcome → Run S
  stop req s o = record { outcome = o; world = s; sent = req ∷ []; slept = [] }

  -- One more attempt and one more pause in front of a run.
  abbrev pub before : Request → ℕ → Run S → Run S
  before req pause run = record run { sent = req ∷ run.sent; slept = pause ∷ run.slept }

module _ {S : Type 0} (send : S → Request → Reply × S) where
  -- Attempt number `i`, with `left` more to come if this one is refused.
  unfoldable pub attempts : ℕ → ℕ → String → Request → S → Run S
  attempts zero i body req s =
      let req1 = refill body req in
      let (reply, s1) = send s req1 in
      elim (verdict reply.err reply.resp) [
        | accepted r ↦ stop req1 s1 (done (some r) none)
        | crashed ↦ stop req1 s1 panicked
        | refused ↦ stop req1 s1 (done (close reply.resp) reply.err)
      ]
  attempts (suc left) i body req s =
      let req1 = refill body req in
      let (reply, s1) = send s req1 in
      elim (verdict reply.err reply.resp) [
        | accepted r ↦ stop req1 s1 (done (some r) none)
        | crashed ↦ stop req1 s1 panicked
        | refused ↦
            before req1 (backoff i)
              (attempts left (suc i) body (record req1 { body = reply.body_left }) s1)
      ]

  abbrev retry_read : Option Reader → Request → ℤ → S → Run S
  retry_read none req retries s = attempts (max_attempts retries - 1) 1 "" req s
  retry_read (some rd) req retries s = elim rd.fault [
    | some e ↦ record { outcome = done none (some e); world = s; sent = []; slept = [] }
    | none ↦
        attempts (max_attempts retries - 1) 1 rd.unread (record req { body = some (fresh "") }) s
  ]

  unfoldable pub retry_do : Request → ℤ → S → Run S
  retry_do req retries s = retry_read req.body req retries s
