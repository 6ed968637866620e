-- ===== src/Worker/Mapping/Refusals.antt =====
-- The errors of worker/mapping.py.
use mathlib.Core.Path.{subst}
use salesforce_erp_sync.Common.{
  String, ◌≡◌, ◌⊎◌, inl, inr, refl, Bool, true, false, List, [], ◌∷◌, some, none, str_eq, contains,
  if◌then◌else◌, ltb_ℤ, pos, codes, Option,
}
use salesforce_erp_sync.Python.Decimal.{Number, finite, infinite, nan, is_negative}
use salesforce_erp_sync.Python.Json.{
  Json, null, bool, int, number, text, array, object, Fields, get_or_null,
}
use salesforce_erp_sync.Python.Regex.{date_match}
use salesforce_erp_sync.Outcome.{Exn, Outcome, ok, raised, permanent_error, ◌>>=◌}
use salesforce_erp_sync.Worker.Classify.{permanent, classify}
use salesforce_erp_sync.Worker.Mapping.{
  Builtins, Loaded, value, decode_error, other_error, schema, refuse, body_of, parse_body,
  required_text, required_str, decimal_of, checked_amount, amount, check_schema, opportunity_of,
  check_version, check_account, check_amount, check_date, to_order,
}

-- The reasons that worker/mapping.py parks an event for.
abbrev pub reasons : List String
reasons =
    "malformed_json" ∷ "unknown_schema" ∷ "missing_field" ∷ "invalid_field" ∷ "missing_account"
    ∷ "missing_amount" ∷ []

-- Whatever is raised is a PermanentError with one of those reasons.
data Refuses {A : Type 0} : Outcome A → Type 0 where
  fine : (a : A) → Refuses (ok a)
  refused :
      (reason detail : String)
      → contains reasons reason ≡ true
      → Refuses (raised (permanent_error reason detail))

bind-Refuses :
    {A B : Type 0} (r : Outcome A) (f : A → Outcome B)
    → Refuses r
    → ((a : A) → Refuses (f a))
    → Refuses (r >>= f)
bind-Refuses _ f (fine a) k = k a
bind-Refuses _ f (refused reason detail h) k = refused reason detail h

unless-Refuses :
    {A : Type 0} (b : Bool) (a : A) (reason detail : String)
    → contains reasons reason ≡ true
    → Refuses (if b then ok a else refuse reason detail)
unless-Refuses true a reason detail h = fine a
unless-Refuses false a reason detail h = refused reason detail h

when-Refuses :
    {A : Type 0} (b : Bool) (a : A) (reason detail : String)
    → contains reasons reason ≡ true
    → Refuses (if b then refuse reason detail else ok a)
when-Refuses true a reason detail h = refused reason detail h
when-Refuses false a reason detail h = fine a

value-Refuses : (v : Json) → Refuses (body_of (value v))
unfolding body_of
value-Refuses (object fields) = fine _
value-Refuses _ = refused _ _ refl

required_text-Refuses : (v : Json) (name : String) → Refuses (required_text v name)
unfolding required_text
required_text-Refuses (text s) name = when-Refuses (str_eq s "") s "missing_field" name refl
required_text-Refuses _ name = refused _ _ refl

required_str-Refuses : (fields : Fields) (name : String) → Refuses (required_str fields name)
unfolding required_str
required_str-Refuses fields name = required_text-Refuses (get_or_null fields name) name

checked_amount-Refuses : (o : Option Number) → Refuses (checked_amount o)
unfolding checked_amount
checked_amount-Refuses (some (finite d)) =
    when-Refuses (is_negative d) d "invalid_field" "amount" refl
checked_amount-Refuses (some (infinite b)) = refused _ _ refl
checked_amount-Refuses (some nan) = refused _ _ refl
checked_amount-Refuses none = refused _ _ refl

amount-Refuses : (v : Json) → Refuses (amount v)
unfolding amount
amount-Refuses (bool b) = refused _ _ refl
amount-Refuses null = checked_amount-Refuses (decimal_of null)
amount-Refuses (int z) = checked_amount-Refuses (decimal_of (int z))
amount-Refuses (number d) = checked_amount-Refuses (decimal_of (number d))
amount-Refuses (text s) = checked_amount-Refuses (decimal_of (text s))
amount-Refuses (array a) = checked_amount-Refuses (decimal_of (array a))
amount-Refuses (object o) = checked_amount-Refuses (decimal_of (object o))

check_schema-Refuses : (py : Builtins) (v : Json) → Refuses (check_schema py v)
unfolding check_schema
check_schema-Refuses py (text s) = unless-Refuses (str_eq s schema) tt "unknown_schema" s refl
check_schema-Refuses py _ = refused _ _ refl

opportunity_of-Refuses : (v : Json) → Refuses (opportunity_of v)
unfolding opportunity_of
opportunity_of-Refuses (object o) = fine _
opportunity_of-Refuses _ = refused _ _ refl

check_version-Refuses : (v : Json) → Refuses (check_version v)
unfolding check_version
check_version-Refuses (int z) = unless-Refuses (ltb_ℤ (pos 0) z) z "invalid_field" "version" refl
check_version-Refuses _ = refused _ _ refl

check_account-Refuses : (v : Json) → Refuses (check_account v)
unfolding check_account
check_account-Refuses null = refused _ _ refl
check_account-Refuses (text s) =
    when-Refuses (str_eq s "") tt "missing_account" "the deal has no Account" refl
check_account-Refuses _ = fine _

check_amount-Refuses : (v : Json) → Refuses (check_amount v)
unfolding check_amount
check_amount-Refuses null = refused _ _ refl
check_amount-Refuses _ = fine _

check_date-Refuses : (s : String) → Refuses (check_date s)
unfolding check_date
check_date-Refuses s = unless-Refuses (date_match (codes s)) tt "invalid_field" "close_date" refl

to_order-Refuses : (py : Builtins) (event : Fields) → Refuses (to_order py event)
unfolding to_order
to_order-Refuses py event =
    bind-Refuses _ _ (check_schema-Refuses py (get_or_null event "schema")) λ _.
      bind-Refuses _ _ (opportunity_of-Refuses (get_or_null event "opportunity")) λ opp.
        bind-Refuses _ _ (required_str-Refuses opp "id") λ _.
          bind-Refuses _ _ (required_str-Refuses event "event_key") λ _.
            bind-Refuses _ _ (check_version-Refuses (get_or_null event "version")) λ _.
              bind-Refuses _ _ (check_account-Refuses (get_or_null opp "account_id")) λ _.
                bind-Refuses _ _ (check_amount-Refuses (get_or_null opp "amount")) λ _.
                  bind-Refuses _ _ (amount-Refuses (get_or_null opp "amount")) λ _.
                    bind-Refuses _ _ (required_str-Refuses opp "close_date") λ close_date.
                      bind-Refuses _ _ (check_date-Refuses close_date) λ _.
                        bind-Refuses _ _ (required_str-Refuses opp "account_id") λ _.
                          bind-Refuses _ _ (required_str-Refuses opp "account_name") λ _.
                            bind-Refuses _ _ (required_str-Refuses opp "system_modstamp")
                              λ _. fine _

Refuses-classify :
    {A : Type 0} {r : Outcome A} (e : Exn)
    → r ≡ raised e
    → Refuses r
    → ((classify e).kind ≡ permanent) × (contains reasons (classify e).reason ≡ true)
unfolding classify
Refuses-classify e h (fine a) = cc
Refuses-classify e h (refused reason detail k) =
    let same : permanent_error reason detail ≡ e = cc h in
    subst (λ x. ((classify x).kind ≡ permanent) × (contains reasons (classify x).reason ≡ true))
      same (refl, k)

-- A body that cannot be turned into an order fails with an error that the worker takes as permanent, for one of
-- the six reasons of the mapping; the one other way to fail is an exception of `json.loads` that is no
-- JSONDecodeError, which goes through as it is.
pub order_of_refused :
    (py : Builtins) (body : String) (e : Exn)
    → (parse_body py body >>= to_order py) ≡ raised e
    → (py.loads body ≡ other_error e)
      ⊎ (((classify e).kind ≡ permanent) × (contains reasons (classify e).reason ≡ true))
unfolding parse_body body_of
order_of_refused py body e h = of_loaded (py.loads body) h
  where
    of_loaded :
        (l : Loaded)
        → (body_of l >>= to_order py) ≡ raised e
        → (l ≡ other_error e)
          ⊎ (((classify e).kind ≡ permanent) × (contains reasons (classify e).reason ≡ true))
    of_loaded (other_error x) h = inl (cc h)
    of_loaded (decode_error message) h =
        inr (Refuses-classify e h (refused "malformed_json" message refl))
    of_loaded (value v) h =
        inr (Refuses-classify e h (bind-Refuses _ _ (value-Refuses v) (to_order-Refuses py)))
