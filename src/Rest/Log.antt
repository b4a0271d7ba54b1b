-- ===== src/Rest/Log.antt =====
-- logHandler and getIP of internal/rest/helpers.go: what is logged of a request. net.ParseIP,
-- net.SplitHostPort and strings.Split are the parameter `Addresses`; an address is its text.
use hermeshooks.Prelude.{
  ℕ, ◌≡◌, refl, String, Option, none, some, inl, inr, Option-cases, List, [], ◌∷◌, ◌++◌, arith,
}
use hermeshooks.Rest.{
  HandlerError, Method, Req, Writer, Api, Handled, hangs, finished, Handler, status_code,
}

record Addresses : Type 0 where
  pub parse_ip : String → Option String
  pub split_host_port : String → Option String
  pub split_commas : String → List String

-- The headers that getIP reads, and the address of the connection.
record Remote : Type 0 where
  pub real_ip : String
  pub forwarded_for : String
  pub remote_addr : String

-- The address, or the error, of SplitHostPort or that there is no valid one.
data Found : Type 0 where
  ip : String → Found
  no_host no_valid_ip : Found

-- `realIp, _ := getIP(req)`: an error is a nil address.
abbrev logged_ip : Found → Option String
logged_ip (ip a) = some a
logged_ip no_host = none
logged_ip no_valid_ip = none

record Entry : Type 0 where
  pub method : Method
  pub path : List String
  pub status : ℕ
  pub address : Option String
  pub duration : ℕ
  pub error : Option HandlerError

module _ (net : Addresses) where
  -- The first text that is an address.
  first_valid : List String → Option String
  first_valid [] = none
  first_valid (s ∷ rest) = elim (net.parse_ip s) [ some a ↦ some a | none ↦ first_valid rest ]

  from_remote : String → Found
  from_remote addr = elim (net.split_host_port addr) [
    | none ↦ no_host
    | some host ↦ elim (net.parse_ip host) [ some a ↦ ip a | none ↦ no_valid_ip ]
  ]

  unfoldable get_ip : Remote → Found
  unfolding first_valid from_remote
  get_ip r = elim (net.parse_ip r.real_ip) [
    | some a ↦ ip a
    | none ↦ elim (first_valid (net.split_commas r.forwarded_for)) [
      | some a ↦ ip a
      | none ↦ from_remote r.remote_addr
    ]
  ]

  -- A handler that does not come back is not logged. The error goes on to the router.
  unfoldable log_handler : Handler → Remote → ℕ → Req → Writer → Api → Handled × Option Entry
  log_handler next r duration req w api = elim (next req w api) [
    | hangs api' ↦ (hangs api', none)
    | finished e w' api' ↦ (
      finished e w' api',
      some (record {
        method = req.method;
        path = req.path;
        status = status_code w';
        address = logged_ip (get_ip r);
        duration = duration;
        error = e;
      }),
    )
  ]

  abbrev host_of : Remote → List String
  host_of r = elim (net.split_host_port r.remote_addr) [ none ↦ [] | some h ↦ h ∷ [] ]

  -- The candidates of getIP, in the order in which it tries them.
  candidates : Remote → List String
  candidates r = r.real_ip ∷ (net.split_commas r.forwarded_for ++ host_of r)

  first_valid-append :
      (xs ys : List String)
      → first_valid (xs ++ ys) ≡ elim (first_valid xs) [ some a ↦ some a | none ↦ first_valid ys ]
  unfolding first_valid
  first_valid-append [] ys = refl
  first_valid-append (x ∷ xs) ys = elim (Option-cases (net.parse_ip x)) [
    | inl none_here ↦ rw none_here (first_valid-append xs ys)
    | inr (a, found) ↦ rw found refl
  ]

  -- The address that is logged is the first valid one of the candidates, if any.
  get_ip-first : (r : Remote) → logged_ip (get_ip r) ≡ first_valid (candidates r)
  unfolding get_ip candidates
  get_ip-first r = ground (arith, first_valid-append (net.split_commas r.forwarded_for) (host_of r))
