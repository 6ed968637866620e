-- ===== src/Worker/Chaos.antt =====
-- worker/chaos.py: failures that are switched on by SSM parameters.
use salesforce_erp_sync.Common.{
  ℕ, ◌*◌, ◌^◌, String, Bool, true, false, ◌&&◌, not, Option, none, some, List, [], ◌∷◌, ltb,
  if◌then◌else◌, Dict, lookup, insert, ℤ, pos, pos_part, neg_part, ltb_ℤ, leb_ℤ, ◌<>◌, split_on,
  last_part, str_eq, str_of_ℕ,
}
use salesforce_erp_sync.Python.Decimal.{
  Number, finite, infinite, nan, truncated, of_int, float_of_text,
}
use salesforce_erp_sync.Outcome
use salesforce_erp_sync.Outcome.{Exn, Outcome, ok, raised, erp_unavailable, worker_crash, other}
use salesforce_erp_sync.Exec.{Exec, pure, lift, gets, ◌>>=◌}
use salesforce_erp_sync.Aws.Client.{Aws}
use salesforce_erp_sync.Worker.Backoff.{random_unit}

pub record Chaos : Type 0 where
  pub erp_fail_rate : Number
  pub crash_after : ℤ

-- The dataclass's defaults: everything is off.
abbrev pub off : Chaos
off = record { erp_fail_rate = finite (of_int (pos 0)); crash_after = pos 0 }

-- `_float` with the default 0
unfoldable pub float_or_zero : Option String → Number
float_or_zero none = finite (of_int (pos 0))
float_or_zero (some s) =
    if str_eq s ""
    then finite (of_int (pos 0))
    else elim (float_of_text s) [ none ↦ finite (of_int (pos 0)) | some x ↦ x ]

-- `int(x)` of a float
unfoldable pub int_of_float : Number → Outcome ℤ
int_of_float (finite d) = ok (truncated d)
int_of_float (infinite b) =
    raised (other "OverflowError" "cannot convert float infinity to integer")
int_of_float nan = raised (other "ValueError" "cannot convert float NaN to integer")

-- `{p["Name"].rsplit("/", 1)[1]: p["Value"] for p in params}`, onto the dict so far
unfoldable pub values_of : Dict String → List (String × String) → Outcome (Dict String)
values_of d [] = ok d
values_of d ((name, value) ∷ ps) = elim (last_part (split_on b'/' name)) [
  | none ↦ raised (other "IndexError" "list index out of range")
  | some key ↦ values_of (insert key value d) ps
]

unfoldable pub chaos_of : Dict String → Outcome Chaos
unfolding float_or_zero int_of_float
chaos_of values =
    Outcome.◌>>=◌ (int_of_float (float_or_zero (lookup "worker_crash_after" values))) λ crash_after.
      ok (record {
        erp_fail_rate = float_or_zero (lookup "erp_fail_rate" values);
        crash_after = crash_after;
      })

unfoldable pub is_on : Number → Bool
is_on (finite d) = not d.negative && ltb 0 d.coefficient
is_on (infinite negative) = not negative
is_on nan = false

-- `random() < rate`, for a rate above 0 and a random number of `r` units
unfoldable pub hits : ℕ → Number → Bool
hits r (finite d) =
    ltb (r * 10 ^ neg_part d.exponent) (d.coefficient * 10 ^ pos_part d.exponent * random_unit)
hits r (infinite negative) = true
hits r nan = false

unfoldable pub maybe_crash : Chaos → ℕ → Outcome (Unit {0})
maybe_crash chaos processed =
    if ltb_ℤ (pos 0) chaos.crash_after && leb_ℤ chaos.crash_after (pos processed)
    then raised
        (worker_crash ("chaos: worker crashed after " <> str_of_ℕ processed <> " record(s)"))
    else ok tt

-- the injected failure, for a draw that hits
abbrev pub throttled : Bool → Outcome (Unit {0})
throttled true = raised (erp_unavailable "ThrottlingException (injected by chaos flag)")
throttled false = ok tt

module _ (aws : Aws) where
  open aws use {World, get_parameters, random}

  -- the two cases of `Chaos.load`: the parameters came, or the call raised
  abbrev pub loaded : Outcome (List (String × String)) → Outcome Chaos
  loaded (ok params) = Outcome.◌>>=◌ (values_of [] params) chaos_of
  loaded (raised e) = ok off

  unfoldable pub load : String → Exec World Chaos
  unfolding values_of chaos_of
  load prefix w =
      let (params, w') =
        get_parameters
          ((prefix <> "/chaos/erp_fail_rate") ∷ (prefix <> "/chaos/worker_crash_after") ∷ []) w in
      (loaded params, w')

  unfoldable pub maybe_fail_erp : Chaos → Exec World Unit
  unfolding is_on hits
  maybe_fail_erp chaos =
      if is_on chaos.erp_fail_rate
      then (do r ← gets random; lift (throttled (hits r chaos.erp_fail_rate)))
      else pure tt
