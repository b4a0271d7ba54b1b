-- ===== src/Tests/Retrying.antt =====
-- A client that answers 503 twice and then 200, and small powers.
use hermeshooks.Prelude.{
  ℕ, zero, suc, ◌%◌, ◌^◌, ◌≤◌, ◌≡◌, refl, false, none, some, [], arith, length,
}
use hermeshooks.Prelude.Int.{pos}
use hermeshooks.Common.Power.{two_64, exp_squaring}
use hermeshooks.Common.Power.Laws.{exp_squaring_power}
use hermeshooks.Common.Retry.{Request, Reply, fresh, retry_do}
use hermeshooks.Common.Retry.Attempts.{
  Ends, Resends, pauses, retry_count, retry-Resends, retry-Ends,
}

abbrev answer : ℕ → Reply
answer code = record {
  resp = some (record { status_code = code; body = "answer"; closed = false });
  err = none;
  body_left = some (fresh "");
}

abbrev client : ℕ → Request → Reply × ℕ
client zero q = (answer 200, zero)
client (suc n) q = (answer 503, n)

abbrev request : Request
request = record {
  method = "POST";
  url = "http://example.com";
  headers = [];
  body = some (fresh "payload");
}

retry_count_example :
    (k : ℕ) × (suc k ≤ 3)
    × (length (retry_do client request (pos 3) 2).sent ≡ suc k)
    × ((retry_do client request (pos 3) 2).slept ≡ pauses 1 k)
retry_count_example = retry_count client request (pos 3) 2 "payload" (refl, refl)

retry-Resends_example : Resends client "payload" request (retry_do client request (pos 3) 2).sent
retry-Resends_example = retry-Resends client request (pos 3) 2 "payload" (refl, refl) refl

retry-Ends_example : Ends client 2 (retry_do client request (pos 3) 2)
retry-Ends_example = retry-Ends client request (pos 3) 2 "payload" (refl, refl)

exp_squaring_power_example : exp_squaring 3 7 ≡ some (3 ^ 7 % two_64)
exp_squaring_power_example = exp_squaring_power 3 7 (omega arith)
