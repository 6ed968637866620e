-- ===== src/FakeSalesforce/Soql/Scan/Matches.antt =====
-- The matches of fake_salesforce/soql.py's `_TOKEN_RE`: every alternative takes a character at least.
use salesforce_erp_sync.Common.{
  ℕ, suc, ◌≤◌, String, ◌≡◌, refl, none, some, List, [], ◌∷◌, arith, All, Mem, at_head, in_tail,
}
use salesforce_erp_sync.FakeSalesforce.Soql.Scan.{
  Pattern, Found, Match, scan, alternatives, match_or, first_match, token_match,
}
use salesforce_erp_sync.FakeSalesforce.Soql.Scan.Cuts.{Cut, at_least, minimum, scan-Cut}
use mathlib.Core.Path.{subst}

-- A match is by one of the expressions, under its name, and takes a character at least.
pub record IsMatch (ms : List (String × Pattern)) (s : String) (m : Match) : Type 0 where
  pub pattern : Pattern
  pub named : Mem (m.kind, pattern) ms
  pub scanned : scan pattern s ≡ some (m.group, m.rest)
  pub cut : Cut 1 s m.group m.rest

later_IsMatch :
    {x : String × Pattern} {ms : List (String × Pattern)} {s : String} {m : Match}
    → IsMatch ms s m
    → IsMatch (x ∷ ms) s m
later_IsMatch h = record {
  pattern = h.pattern;
  named = in_tail h.named;
  scanned = h.scanned;
  cut = h.cut;
}

match_or-IsMatch :
    {x : String × Pattern} {ms : List (String × Pattern)} {s : String} {m : Match} (o : Found)
    → 1 ≤ minimum x.1
    → scan x.1 s ≡ o
    → match_or x.0 o (first_match ms s) ≡ some m
    → ((first_match ms s ≡ some m) → IsMatch ms s m)
    → IsMatch (x ∷ ms) s m
match_or-IsMatch none h same e ih = later_IsMatch (ih e)
match_or-IsMatch {x} {ms} {s} {m} (some (a, r)) h same e ih =
    let found : record { kind = x.0; group = a; rest = r } ≡ m = cc e in
    subst (IsMatch (x ∷ ms) s) found (record {
      pattern = x.1;
      named = at_head;
      scanned = same;
      cut = at_least h (scan-Cut x.1 s a r same);
    })

first_match-IsMatch :
    (ms : List (String × Pattern)) (s : String) {m : Match}
    → All (λ x. 1 ≤ minimum x.1) ms
    → first_match ms s ≡ some m
    → IsMatch ms s m
first_match-IsMatch [] s h e = cc e
first_match-IsMatch (x ∷ ms) s h e =
    match_or-IsMatch (scan x.1 s) h.0 refl e (first_match-IsMatch ms s h.1)

pub token_match-IsMatch :
    (s : String) {m : Match} → token_match s ≡ some m → IsMatch alternatives s m
unfolding token_match
token_match-IsMatch s e = first_match-IsMatch alternatives s all e
  where
    all : All (λ x. 1 ≤ minimum x.1) alternatives
    all =
        let one_or_more : (n : ℕ) → 1 ≤ suc n = λ n. omega arith in
        (
          one_or_more 0,
          (
            one_or_more 1,
            (
              one_or_more 19,
              (
                one_or_more 9,
                (one_or_more 0, (one_or_more 0, (one_or_more 0, (one_or_more 0, tt)))),
              ),
            ),
          ),
        )
