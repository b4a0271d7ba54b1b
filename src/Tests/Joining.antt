-- ===== src/Tests/Joining.antt =====
-- A worker that talks to the server over a wire.
use Prim.Native.String.{len, ◌++◌ as append}
use text.Mathlib.Text.{◌==◌ as str_eq}
use text.Mathlib.TextEquality.{eq_iff}
use text.Mathlib.TextPositions.{len-append}
use hermeshooks.Prelude.{
  ℕ, zero, suc, ◌<◌, ◌≡◌, refl, ap, String, true, false, Option, none, some, List, [], ◌∷◌, arith,
  if◌then◌else◌,
}
use hermeshooks.Common.Retry.{Request, Reader}
use hermeshooks.Workers.{WorkerMeta, Service, new}
use hermeshooks.Workers.Invariant.{run-new-Inv}
use hermeshooks.Workers.Entries.{Inv}
use hermeshooks.Workers.Events.{run}
use hermeshooks.Workers.Registry.{lookup}
use hermeshooks.Rest.{Value, partition, post, delete, Req}
use hermeshooks.Worker.{
  new_worker, made, Worker, ticks, context_done, value, ended, invalid_status, register_self, wait,
}
use hermeshooks.Worker.Wire.{Net, Line, wire, Connects}
use hermeshooks.Worker.Joins.{worker_registers, lost_worker_stops}
use hermeshooks.Tests.Api.{config, env, api, service, no_error, unlocked}

abbrev pub worker : Worker
worker = record { name = "w"; node = "http://n"; concurrency = 4; api_key = "internal" }

unfoldable pub header : String → List (String × String) → String
header k [] = ""
header k ((j, v) ∷ hs) = let rest = header k hs in if str_eq j k then v else rest

abbrev path_of : String → List String
path_of url =
    if str_eq url "http://n/api/v1/workers"
    then "workers" ∷ []
    else if str_eq url "http://n/api/v1/workers/w/health"
    then "workers" ∷ "w" ∷ "health" ∷ []
    else "workers" ∷ "w" ∷ []

abbrev text_of : Option Reader → String
text_of none = ""
text_of (some rd) = rd.unread

abbrev read : Request → Req
read q = record {
  method = if str_eq q.method "DELETE" then delete else post;
  path = path_of q.url;
  content_type = header "Content-Type" q.headers;
  headers = record {
    rapid_proxy_secret = "";
    rapid_user = "";
    api_key = header "X-Api-Key" q.headers;
  };
  body = text_of q.body;
  user = none;
}

-- A partition is printed in tallies.
pub tally : ℕ → String
tally zero = ""
tally (suc n) = append "1" (tally n)

pub len-tally : (n : ℕ) → len (tally n) ≡ n
unfolding tally
len-tally zero = refl
len-tally (suc n) = ground (arith, len-append "1" (tally n), len-tally n)

abbrev print : List Value → String
print (partition n ∷ []) = tally n
print values = ""

abbrev pub net : Net
net = record {
  read = read;
  print = print;
  not_routed = record { status_code = 404; body = ""; closed = false };
  timeout = "timeout";
  cancelled = "context canceled";
  env = λ n. env;
}

abbrev pub identity : String → String
identity s = s

abbrev pub decode : String → Option ℕ
decode s = some (len s)

connects : Connects config net worker identity decode
unfolding header
connects = record {
  reads_register = refl;
  reads_un_register = refl;
  reads_ping = refl;
  name_round_trip = refl;
  partition_round_trip = λ n. ap some (len-tally n);
  named = λ e. ground (arith, eq_iff "w" "");
}

abbrev line : Line
line = record { requests = 0; api = api }

service-Inv : Inv service
unfolding run
service-Inv = run-new-Inv 5 0 []

nobody : lookup "w" service.registry ≡ none
unfolding lookup new
nobody = refl

worker_registers_example :
    (m : WorkerMeta) × (t : Service) × (register_self
        (wire config net false)
        no_error
        worker
        identity
        decode
        line
      ≡ (value m.partition, record { requests = 1; api = record api { workers = t } }))
    × (lookup "w" t.registry ≡ some m)
    × ((k : String) (v : WorkerMeta)
        → lookup k service.registry ≡ some v
        → (v.partition < m.partition) × (lookup k t.registry ≡ some v))
worker_registers_example =
    worker_registers config net no_error worker identity decode connects refl line refl service-Inv
      unlocked refl nobody

lost_worker_stops_example :
    wait (wire config net) no_error worker (ticks ∷ context_done ∷ []) false line ≡ record {
      end = ended (some (invalid_status 500));
      context = false;
      world = record line { requests = 3 };
    }
lost_worker_stops_example =
    lost_worker_stops config net no_error worker identity decode connects refl line
      (context_done ∷ []) refl unlocked nobody

-- A worker without a number of slots gets four.
started :
    new_worker "w"
      (record { has_db = true; node = "http://n"; concurrency = 0; api_key = "internal" })
    ≡ made worker
unfolding new_worker
started = refl
