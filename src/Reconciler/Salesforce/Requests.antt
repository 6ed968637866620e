-- ===== src/Reconciler/Salesforce/Requests.antt =====
-- How many requests reconciler/salesforce.py's `_get` sends for a page.
use salesforce_erp_sync.Common.{
  ℕ, ◌+◌, ◌≤◌, String, Bool, true, false, Option, none, some, List, ◌∷◌, length, if◌then◌else◌,
  arith, ◌==◌,
}
use salesforce_erp_sync.Python.Json.{Fields}
use salesforce_erp_sync.Outcome.{Outcome, ok, raised}
use salesforce_erp_sync.Exec.{Exec, lift, continue, ◌>>=◌}
use salesforce_erp_sync.Reconciler.Events.{text_at}
use salesforce_erp_sync.Reconciler.Salesforce.{
  Request, Reply, body, http_error, Web, Settings, Session, send, keep_token, ask_token,
  known_token, access_token, try_get, second_reply, first_reply, get_page,
}

-- A network that writes down the requests.
abbrev pub logged : Web → Web
logged web = record {
  World = List Request × web.World;
  urlopen = λ req w. let (reply, w') = web.urlopen req w.1 in (reply, (req ∷ w.0, w'));
  urlencode = web.urlencode;
  shown = web.shown;
}

abbrev pub sent : (web : Web) → Session (logged web) → ℕ
sent web s = length s.world.0

module _ (web : Web) where
  -- At most `k` requests more than before.
  record Costs {A : Type 0} (k : ℕ) (m : Exec (Session (logged web)) A) : Type 0 where
    cost : (s : Session (logged web)) → sent web (m s).1 ≤ k + sent web s

  continue-Costs :
      {A B : Type 0} (j k : ℕ) (r : Outcome A) (f : A → Exec (Session (logged web)) B)
      (s t : Session (logged web))
      → sent web t ≤ j + sent web s
      → ((a : A) → Costs k (f a))
      → sent web (continue r f t).1 ≤ j + k + sent web s
  continue-Costs j k (ok a) f s t h g = omega (arith, h, (g a).cost t)
  continue-Costs j k (raised e) f s t h g = omega (arith, h)

  bind-Costs :
      {A B : Type 0} {j k : ℕ} {m : Exec (Session (logged web)) A}
      {f : A → Exec (Session (logged web)) B}
      → Costs j m
      → ((a : A) → Costs k (f a))
      → Costs (j + k) (m >>= f)
  bind-Costs {j = j} {k = k} {m = m} {f = f} h g = record {
    cost = λ s. continue-Costs j k (m s).0 f s (m s).1 (h.cost s) g;
  }

  free-Costs : {A : Type 0} (k : ℕ) (r : Outcome A) → Costs k (lift r)
  free-Costs k r = record { cost = λ s. omega arith }

  if-Costs :
      {A : Type 0} {k : ℕ} (b : Bool) {m n : Exec (Session (logged web)) A}
      → Costs k m
      → Costs k n
      → Costs k (if b then m else n)
  if-Costs true h g = h
  if-Costs false h g = g

  module _ (sf : Settings) where
    send-Costs : (req : Request) → Costs 1 (send sf req)
    send-Costs req = record { cost = λ s. omega arith }

    keep_token-Costs : (reply : Reply) → Costs 0 (keep_token sf reply)
    keep_token-Costs (body token) = record { cost = λ s. omega arith }
    keep_token-Costs (http_error code said) = record { cost = λ s. omega arith }

    ask_token-Costs : Costs 1 (ask_token sf)
    ask_token-Costs = bind-Costs (send-Costs _) keep_token-Costs

    access_token-Costs : (refresh : Bool) → Costs 1 (access_token sf refresh)
    unfolding access_token
    access_token-Costs refresh = record { cost = λ s. known s.token refresh s }
      where
        known :
            (o : Option Fields) (b : Bool) (s : Session (logged web))
            → sent web (known_token sf o b s).1 ≤ 1 + sent web s
        known (some token) false s = omega arith
        known (some token) true s = ask_token-Costs.cost s
        known none b s = ask_token-Costs.cost s

    try_get-Costs : (path : String) (refresh : Bool) → Costs 2 (try_get sf path refresh)
    try_get-Costs path refresh = bind-Costs {k = 1} (access_token-Costs refresh) λ token.
        bind-Costs {k = 1} (free-Costs 0 (text_at token "instance_url")) λ instance_url.
          bind-Costs {k = 1} (free-Costs 0 (text_at token "access_token")) λ bearer. send-Costs _

    second_reply-Costs : (reply : Reply) → Costs 0 (second_reply sf reply)
    second_reply-Costs (body page) = record { cost = λ s. omega arith }
    second_reply-Costs (http_error code said) = record { cost = λ s. omega arith }

    first_reply-Costs : (path : String) (reply : Reply) → Costs 2 (first_reply sf path reply)
    first_reply-Costs path (body page) = record { cost = λ s. omega arith }
    first_reply-Costs path (http_error code said) =
        if-Costs (code == 401)
          (bind-Costs {k = 0} (try_get-Costs path true) λ reply. second_reply-Costs reply)
          (record { cost = λ s. omega arith })

    get_page-Costs : (path : String) → Costs 4 (get_page sf path)
    unfolding get_page
    get_page-Costs path =
        bind-Costs {k = 2} (try_get-Costs path false) λ reply. first_reply-Costs path reply

-- A page costs at most four requests, whatever the replies are: two for the first try, a token among them, and two
-- more after a 401.
pub get_page_bounds :
    (web : Web) (sf : Settings) (path : String) (s : Session (logged web))
    → sent web (get_page sf path s).1 ≤ 4 + sent web s
get_page_bounds web sf path s = (get_page-Costs web sf path).cost s
