-- ===== src/Aws/Memory.antt =====
-- A small AWS in memory: it shows that what the model relies on can hold, and it runs the witnesses.
use mathlib.Core.Path.{subst}
use mathlib.Core.Option.{some-injective}
use salesforce_erp_sync.Common.{
  ℕ, String, ◌≡◌, refl, ◌∙◌, sym, ap, Bool, true, false, Option, none, some, List, [], ◌∷◌, ◌++◌,
  ◌⊎◌, inl, inr, if◌then◌else◌, lookup, Bool-cases,
}
use salesforce_erp_sync.Outcome.{Outcome, ok, raised, client_error, raised-ne-ok}
use salesforce_erp_sync.Aws.Types.{Item, Update, ClientError}
use salesforce_erp_sync.Aws.Client.{Aws, Message}
use salesforce_erp_sync.Aws.Services.{Quiet, IsServices}
use salesforce_erp_sync.Aws.Tables.{
  Tables, contents, apply_update, apply_updates, contents-apply_updates, reason_for, reasons_for,
  cancelled_error,
}
use salesforce_erp_sync.Aws.Dynamo.{
  SameContents, after_updates, passes, all_pass, IsDynamo, first_code, first_item,
}

-- The tables, the messages of the dead-letter queue, and the visibility timeouts that were set.
pub record Memory : Type 0 where
  pub tables : Tables
  pub sent : List Message
  pub hidden : List (String × ℕ)

-- the message was sent
abbrev pub Sent : Message → List Message → Type 0
Sent message [] = ⊥
Sent message (x ∷ xs) = (message ≡ x) ⊎ Sent message xs

transact : List Update → Memory → Outcome (Unit {0}) × Memory
unfolding apply_updates apply_update cancelled_error
transact us m =
    if all_pass (contents m.tables) us
    then (ok tt, record m { tables = apply_updates m.tables us })
    else (raised (client_error (cancelled_error m.tables us)), m)

abbrev found : Item → Option Item
found [] = none
found (a ∷ it) = some (a ∷ it)

unfoldable pub memory : Aws
unfolding transact passes all_pass
memory = record {
  World = Memory;
  transact_write_items = transact;
  get_item = λ table key_name key m. (ok (found (m.tables table key)), m);
  get_queue_url = λ queue account m. (ok queue, m);
  send_message = λ message m. (ok tt, record m { sent = m.sent ++ message ∷ [] });
  change_message_visibility =
      λ url handle seconds m. (ok tt, record m { hidden = (handle, seconds) ∷ m.hidden });
  get_parameters = λ names m. (ok [], m);
  now_iso = λ m. ("2026-09-22T10:00:00+00:00", m);
  time_ms = λ m. (1_790_000_000_000, m);
  random = λ m. (0, m);
  remaining_ms = λ m. (none, m);
  stored = λ m. contents m.tables;
  accepted = λ m message. Sent message m.sent;
}

client_error_inj :
    {e f : ClientError}
    → ◌≡◌ {A = Outcome (Unit {0})} (raised (client_error e)) (raised (client_error f))
    → e ≡ f
client_error_inj h = cc

module _ (us : List Update) (m : Memory) where
  abbrev done : Memory
  done = record m { tables = apply_updates m.tables us }

  transact_pass : all_pass (contents m.tables) us ≡ true → transact us m ≡ (ok tt, done)
  unfolding transact
  transact_pass e = rw e

  transact_fail :
      all_pass (contents m.tables) us ≡ false
      → transact us m ≡ (raised (client_error (cancelled_error m.tables us)), m)
  unfolding transact
  transact_fail e = rw e

  done-after : SameContents (after_updates (contents m.tables) us) (contents done.tables)
  done-after t k a = ap (λ c. c t k a) (contents-apply_updates m.tables us)

  fail-of_raised :
      (e : ClientError)
      → (transact us m).0 ≡ raised (client_error e)
      → (all_pass (contents m.tables) us ≡ false) × (e ≡ cancelled_error m.tables us)
  fail-of_raised e h = elim (Bool-cases (all_pass (contents m.tables) us)) [
    | inl passed ↦ absurd (raised-ne-ok (sym h ∙ ap (λ r. r.0) (transact_pass passed)))
    | inr failed ↦ (failed, client_error_inj (sym h ∙ ap (λ r. r.0) (transact_fail failed)))
  ]

  transact_committed :
      (transact us m).0 ≡ ok tt
      → (all_pass (contents m.tables) us ≡ true)
        × SameContents (after_updates (contents m.tables) us) (contents (transact us m).1.tables)
  transact_committed h = elim (Bool-cases (all_pass (contents m.tables) us)) [
    | inl passed ↦ (passed, rw (transact_pass passed) done-after)
    | inr failed ↦ absurd (raised-ne-ok (sym (ap (λ r. r.0) (transact_fail failed)) ∙ h))
  ]

  transact_cancelled :
      (e : ClientError)
      → (transact us m).0 ≡ raised (client_error e)
      → SameContents (contents m.tables) (contents (transact us m).1.tables)
  transact_cancelled e h = rw (transact_fail (fail-of_raised e h).0) (λ t k a. refl)

  transact_atomic :
      SameContents (contents m.tables) (contents (transact us m).1.tables)
      ⊎ ((all_pass (contents m.tables) us ≡ true)
          × SameContents (after_updates (contents m.tables) us) (contents (transact us m).1.tables))
  transact_atomic = elim (Bool-cases (all_pass (contents m.tables) us)) [
    | inl passed ↦ inr (passed, rw (transact_pass passed) done-after)
    | inr failed ↦ inl (rw (transact_fail failed) (λ t k a. refl))
  ]

if_code :
    (b : Bool) {c : String} → if◌then◌else◌ {A = Option String} b none (some c) ≡ some c → b ≡ false
if_code true h = cc
if_code false h = refl

found-some : (it it' : Item) → ok (found it) ≡ ok (some it') → it' ≡ it
found-some [] it' h = cc
found-some (a ∷ it) it' h = cc

found-none : (it : Item) (a : String) → ok (found it) ≡ ok none → lookup a it ≡ none
found-none [] a h = refl
found-none (b ∷ it) a h = cc

module _ (u : Update) (us : List Update) (m : Memory) (e : ClientError)
    (h : (transact (u ∷ us) m).0 ≡ raised (client_error e)) where
  reasons_shown : e.reasons ≡ reason_for m.tables u ∷ reasons_for m.tables us
  unfolding cancelled_error
  reasons_shown = ap (λ (x : ClientError). x.reasons) (fail-of_raised (u ∷ us) m e h).1

  transact_check_failed :
      first_code e.reasons ≡ some "ConditionalCheckFailed" → passes (contents m.tables) u ≡ false
  unfolding reason_for
  transact_check_failed f = if_code _ (sym (ap first_code reasons_shown) ∙ f)

  transact_all_old :
      (it : Item)
      → first_item e.reasons ≡ some it
      → (a : String) → lookup a it ≡ contents m.tables u.table_name u.key a
  unfolding reason_for
  transact_all_old it shown a =
      let same = sym (ap first_item reasons_shown) ∙ shown in
      ap (lookup a) (sym (some-injective _ _ same))

-- The in-memory tables keep what the model relies on.
pub memory-IsDynamo : IsDynamo memory
unfolding memory
memory-IsDynamo = record {
  committed = λ us m e. transact_committed us m e;
  cancelled = λ us m e h c. transact_cancelled us m e h;
  atomic = λ us m. transact_atomic us m;
  check_failed = λ u us m e h c f. transact_check_failed u us m e h f;
  all_old = λ u us m e it h c r shown a. transact_all_old u us m e h it shown a;
  reads = λ table key_name key m it h a. ap (lookup a) (found-some (m.tables table key) it h);
  reads_none = λ table key_name key m h a. found-none (m.tables table key) a h;
  read_only = λ table key_name key m t k a. refl;
}

Sent-last : (m : Message) (xs : List Message) → Sent m (xs ++ m ∷ [])
Sent-last m [] = inl refl
Sent-last m (x ∷ xs) = inr (Sent-last m xs)

Sent-more : (m : Message) (xs ys : List Message) → Sent m xs → Sent m (xs ++ ys)
Sent-more m [] ys h = absurd h
Sent-more m (x ∷ xs) ys (inl e) = inl e
Sent-more m (x ∷ xs) ys (inr h) = inr (Sent-more m xs ys h)

transact_sent : (us : List Update) (m : Memory) → (transact us m).1.sent ≡ m.sent
transact_sent us m = elim (Bool-cases (all_pass (contents m.tables) us)) [
  | inl passed ↦ rw (transact_pass us m passed)
  | inr failed ↦ rw (transact_fail us m failed)
]

quiet : (m : memory.World) → Quiet memory m m
unfolding memory
quiet m = record { tables = λ t k a. refl; mail = λ x h. h }

-- Its queue and its clocks too.
pub memory-IsServices : IsServices memory
unfolding memory
memory-IsServices = record {
  sent = λ message m e. Sent-last message m.sent;
  transact_mail = λ us m x h. subst (λ xs. Sent x xs) (sym (transact_sent us m)) h;
  get_item_mail = λ table key_name key m x h. h;
  queue_url_quiet = λ queue account m. quiet m;
  send_quiet = λ message m. record {
    tables = λ t k a. refl;
    mail = λ x h. Sent-more x m.sent (message ∷ []) h;
  };
  visibility_quiet = λ url handle seconds m. record { tables = λ t k a. refl; mail = λ x h. h };
  parameters_quiet = λ names m. quiet m;
  now_quiet = λ m. quiet m;
  time_quiet = λ m. quiet m;
  random_quiet = λ m. quiet m;
  remaining_quiet = λ m. quiet m;
}
