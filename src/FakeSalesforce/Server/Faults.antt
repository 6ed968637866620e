-- ===== src/FakeSalesforce/Server/Faults.antt =====
-- The injected faults of fake_salesforce/server.py fire as often as they were asked for.
use mathlib.Core.Path.{subst}
use salesforce_erp_sync.Common.{
  String, ◌≡◌, refl, sym, ap, Bool, true, false, Option, none, some, List, [], ◌∷◌, ◌++◌, Each,
  none_left, also, if◌then◌else◌, pos, ◌-ℤ◌, leb_ℤ, Dict, lookup, insert, lookup-insert, or_default,
  str_eq, eq_refl, eq_iff,
}
use salesforce_erp_sync.FakeSalesforce.Server.{App, Fault, live, use_fault, take_from, take_fault}

abbrev pub queue_of : String → App → List Fault
queue_of target app = or_default (lookup target app.faults) []

-- No firing is left of a fault.
abbrev pub IsSpent : Fault → Type 0
IsSpent f = leb_ℤ f.remaining (pos 0) ≡ true

-- A take from a queue: the first fault with firings left is taken, with its status and its body, and one
-- firing less is left of it; the spent ones before it are dropped. Nothing is taken when all are spent.
pub data Fires (before after : List Fault) : Option Fault → Type 0 where
  fired :
      {taken : Fault} (spent : List Fault) (f : Fault) (rest : List Fault)
      → before ≡ spent ++ f ∷ rest
      → Each IsSpent spent
      → leb_ℤ f.remaining (pos 0) ≡ false
      → taken.status ≡ f.status
      → taken.body ≡ f.body
      → taken.remaining ≡ f.remaining -ℤ pos 1
      → after ≡ taken ∷ rest
      → Fires before after (some taken)
  quiet : Each IsSpent before → after ≡ [] → Fires before after none

use_live-Fires :
    (queue : List Fault) → Fires queue (use_fault (live queue)).1 (use_fault (live queue)).0
unfolding live use_fault
use_live-Fires [] = quiet none_left refl
use_live-Fires (f ∷ fs) = at (leb_ℤ f.remaining (pos 0)) refl (use_live-Fires fs)
  where
    more :
        {taken : Option Fault} {after : List Fault}
        → IsSpent f
        → Fires fs after taken
        → Fires (f ∷ fs) after taken
    more nothing (fired spent g rest whole all live_ status body remaining later) =
        fired (f ∷ spent) g rest (ap (◌∷◌ f) whole) (also nothing all) live_ status body remaining
          later
    more nothing (quiet all none_after) = quiet (also nothing all) none_after

    at :
        (b : Bool)
        → leb_ℤ f.remaining (pos 0) ≡ b
        → Fires fs (use_fault (live fs)).1 (use_fault (live fs)).0
        → let x = use_fault (if b then live fs else f ∷ fs) in Fires (f ∷ fs) x.1 x.0
    at true same h = more same h
    at false same h = fired [] f fs refl none_left same refl refl refl refl

-- What a take does to the queue of its target, and to another queue.
abbrev pub TakesFault : String → String → App → Option Fault × App → Type 0
TakesFault target other app (taken, app') =
    Fires (queue_of target app) (queue_of target app') taken
    × (queue_of other app'
        ≡ (if str_eq target other then queue_of target app' else queue_of other app))

queue-insert :
    (target other : String) (queue : List Fault) (faults : Dict (List Fault))
    → or_default (lookup other (insert target queue faults)) []
      ≡ (if str_eq target other then queue else or_default (lookup other faults) [])
queue-insert target other queue faults =
    rw (lookup-insert target other queue faults) (on (str_eq target other))
  where
    on :
        (b : Bool)
        → or_default (if b then some queue else lookup other faults) []
          ≡ (if b then queue else or_default (lookup other faults) [])
    on true = refl
    on false = refl

own_queue :
    (target : String) (queue : List Fault) (faults : Dict (List Fault))
    → or_default (lookup target (insert target queue faults)) [] ≡ queue
own_queue target queue faults = rw (lookup-insert target target queue faults, eq_refl target) refl

same_queue :
    (target other : String) (app : App)
    → queue_of other app ≡ (if str_eq target other then queue_of target app else queue_of other app)
same_queue target other app = on (str_eq target other) refl
  where
    on :
        (b : Bool)
        → str_eq target other ≡ b
        → queue_of other app ≡ (if b then queue_of target app else queue_of other app)
    on true same = ap (λ t. queue_of t app) (sym ((eq_iff target other).0 same))
    on false same = refl

-- A request takes the first fault in the queue of its target that has firings left, with its status and body,
-- and leaves one firing less of it, without the spent ones before it; it takes none exactly when all are
-- spent. The queues of other targets stay.
pub take_fault-TakesFault :
    (target other : String) (app : App) → TakesFault target other app (take_fault target app)
unfolding take_fault
take_fault-TakesFault target other app = taking (lookup target app.faults) refl
  where
    taking :
        (o : Option (List Fault))
        → lookup target app.faults ≡ o
        → TakesFault target other app (take_from target o app)
    taking none same =
        let nothing : queue_of target app ≡ [] = ap (λ o. or_default o []) same in
        (
          subst (λ q. Fires q q none) (sym nothing) (quiet none_left refl),
          same_queue target other app,
        )
    taking (some queue) same =
        let rest = (use_fault (live queue)).1 in
        (
          rw (same, own_queue target rest app.faults) (use_live-Fires queue),
          rw (own_queue target rest app.faults) (queue-insert target other rest app.faults),
        )
