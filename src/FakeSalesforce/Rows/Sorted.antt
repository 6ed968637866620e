-- ===== src/FakeSalesforce/Rows/Sorted.antt =====
-- What `_sorted` of fake_salesforce/store.py does to the rows: it loses none, makes none up, and puts them
-- in the order of the first key.
use mathlib.Core.List.{Perm}
use mathlib.Core.List.Perm
use mathlib.Core.Path.{subst}
use salesforce_erp_sync.Common.{◌≡◌, Bool, true, false, List, [], ◌∷◌, if◌then◌else◌}
use salesforce_erp_sync.Outcome.{Outcome, ok, ◌>>=◌, bind_ok}
use salesforce_erp_sync.FakeSalesforce.Soql.{Value, OrderBy}
use salesforce_erp_sync.FakeSalesforce.Store.{Record, Store}
use salesforce_erp_sync.FakeSalesforce.Reads.{field_value}
use salesforce_erp_sync.FakeSalesforce.Rows.{
  key_below, moves_behind, insert_row, sort_rows, sorted_by,
}
use salesforce_erp_sync.FakeSalesforce.Rows.Order.{key_below_asym}

rows_eq : {xs ys : List Record} → ok xs ≡ ok ys → xs ≡ ys
rows_eq h = cc

-- No row has to move behind the one after it.
pub data InOrder (behind : Record → Record → Outcome Bool) : List Record → Type 0 where
  no_row : InOrder behind []
  one_row : {x : Record} → InOrder behind (x ∷ [])
  next_row :
      {x y : Record} {ys : List Record}
      → behind x y ≡ ok false
      → InOrder behind (y ∷ ys)
      → InOrder behind (x ∷ y ∷ ys)

module _ (behind : Record → Record → Outcome Bool) where
  -- the rest of an insertion at `y`, whose test gave `b`
  abbrev at_row : Bool → Record → Record → List Record → Outcome (List Record)
  at_row b x y ys = if b then (insert_row behind x ys >>= λ zs. ok (y ∷ zs)) else ok (x ∷ y ∷ ys)

  at_row-perm :
      (b : Bool) (x y : Record) (ys zs : List Record)
      → at_row b x y ys ≡ ok zs
      → ((ws : List Record) → insert_row behind x ys ≡ ok ws → Perm ws (x ∷ ys))
      → Perm zs (x ∷ y ∷ ys)
  at_row-perm true x y ys zs e ih =
      let (ws, inserted, made) = bind_ok (insert_row behind x ys) (λ zs. ok (y ∷ zs)) e in
      subst (λ r. Perm r (x ∷ y ∷ ys)) (rows_eq made)
        (Perm.trans (Perm.cons y (ih ws inserted)) (Perm.swap x y ys))
  at_row-perm false x y ys zs e ih = subst (λ r. Perm r (x ∷ y ∷ ys)) (rows_eq e) Perm.rfl

  insert_row-perm :
      (x : Record) (ys zs : List Record) → insert_row behind x ys ≡ ok zs → Perm zs (x ∷ ys)
  unfolding insert_row
  insert_row-perm x [] zs h = subst (λ r. Perm r (x ∷ [])) (rows_eq h) Perm.rfl
  insert_row-perm x (y ∷ ys) zs h =
      let (b, tested, rest) = bind_ok (behind x y) (λ b. at_row b x y ys) h in
      at_row-perm b x y ys zs rest (insert_row-perm x ys)

  pub sort_rows-perm : (xs zs : List Record) → sort_rows behind xs ≡ ok zs → Perm zs xs
  unfolding sort_rows
  sort_rows-perm [] zs h = subst (λ r. Perm r []) (rows_eq h) Perm.rfl
  sort_rows-perm (x ∷ xs) zs h =
      let (ys, sorted_, inserted) = bind_ok (sort_rows behind xs) (insert_row behind x) h in
      Perm.trans (insert_row-perm x ys zs inserted) (Perm.cons x (sort_rows-perm xs ys sorted_))

  module _ (asym : (x y : Record) → behind x y ≡ ok true → behind y x ≡ ok false) where
    at_row-InOrder :
        (b : Bool) (x y : Record) (ys zs : List Record)
        → behind x y ≡ ok b
        → InOrder behind (y ∷ ys)
        → at_row b x y ys ≡ ok zs
        → ((ws : List Record)
            → behind y x ≡ ok false
            → insert_row behind x ys ≡ ok ws
            → InOrder behind (y ∷ ws))
        → InOrder behind zs
    at_row-InOrder true x y ys zs tested h e ih =
        let (ws, inserted, made) = bind_ok (insert_row behind x ys) (λ zs. ok (y ∷ zs)) e in
        subst (InOrder behind) (rows_eq made) (ih ws (asym x y tested) inserted)
    at_row-InOrder false x y ys zs tested h e ih =
        subst (InOrder behind) (rows_eq e) (next_row tested h)

    below_at :
        (b : Bool) (x y w : Record) (ws zs : List Record)
        → behind x w ≡ ok b
        → behind y w ≡ ok false
        → behind y x ≡ ok false
        → InOrder behind (w ∷ ws)
        → at_row b x w ws ≡ ok zs
        → ((vs : List Record)
            → behind w x ≡ ok false
            → insert_row behind x ws ≡ ok vs
            → InOrder behind (w ∷ vs))
        → InOrder behind (y ∷ zs)
    below_at true x y w ws zs tested first before h e ih =
        let (vs, inserted, made) = bind_ok (insert_row behind x ws) (λ zs. ok (w ∷ zs)) e in
        subst (λ r. InOrder behind (y ∷ r)) (rows_eq made)
          (next_row first (ih vs (asym x w tested) inserted))
    below_at false x y w ws zs tested first before h e ih =
        subst (λ r. InOrder behind (y ∷ r)) (rows_eq e) (next_row before (next_row tested h))

    -- an insertion behind a row `y` that comes before `x`
    below_row-InOrder :
        (x y : Record) (ys zs : List Record)
        → InOrder behind (y ∷ ys)
        → behind y x ≡ ok false
        → insert_row behind x ys ≡ ok zs
        → InOrder behind (y ∷ zs)
    unfolding insert_row
    below_row-InOrder x y [] zs one_row before h =
        subst (λ r. InOrder behind (y ∷ r)) (rows_eq h) (next_row before one_row)
    below_row-InOrder x y (w ∷ ws) zs (next_row first rest) before h =
        let (b, tested, made) = bind_ok (behind x w) (λ b. at_row b x w ws) h in
        below_at b x y w ws zs tested first before rest made
          λ vs w_first inserted. below_row-InOrder x w ws vs rest w_first inserted

    insert_row-InOrder :
        (x : Record) (ys zs : List Record)
        → InOrder behind ys
        → insert_row behind x ys ≡ ok zs
        → InOrder behind zs
    unfolding insert_row
    insert_row-InOrder x [] zs h e = subst (InOrder behind) (rows_eq e) one_row
    insert_row-InOrder x (y ∷ ys) zs h e =
        let (b, tested, made) = bind_ok (behind x y) (λ b. at_row b x y ys) e in
        at_row-InOrder b x y ys zs tested h made
          λ ws y_first inserted. below_row-InOrder x y ys ws h y_first inserted

    pub sort_rows-InOrder : (xs zs : List Record) → sort_rows behind xs ≡ ok zs → InOrder behind zs
    unfolding sort_rows
    sort_rows-InOrder [] zs e = subst (InOrder behind) (rows_eq e) no_row
    sort_rows-InOrder (x ∷ xs) zs e =
        let (ys, sorted_, inserted) = bind_ok (sort_rows behind xs) (insert_row behind x) e in
        insert_row-InOrder x ys zs (sort_rows-InOrder xs ys sorted_) inserted

moves_behind_asym :
    (st : Store) (key : OrderBy) (x y : Record)
    → moves_behind st key x y ≡ ok true
    → moves_behind st key y x ≡ ok false
moves_behind_asym st key x y h = on key.descending h
  where
    kx : Value
    kx = field_value st x key.field

    ky : Value
    ky = field_value st y key.field

    on :
        (descending : Bool)
        → (if descending then key_below kx ky else key_below ky kx) ≡ ok true
        → (if descending then key_below ky kx else key_below kx ky) ≡ ok false
    on true e = key_below_asym kx ky e
    on false e = key_below_asym ky kx e

-- Only the rows are in the order, all of them.
pub sorted_by-perm :
    (st : Store) (keys : List OrderBy) (rows zs : List Record)
    → sorted_by st keys rows ≡ ok zs
    → Perm zs rows
unfolding sorted_by
sorted_by-perm st [] rows zs e = subst (λ r. Perm r rows) (rows_eq e) Perm.rfl
sorted_by-perm st (key ∷ keys) rows zs e =
    let (ys, inner, outer) = bind_ok (sorted_by st keys rows) (sort_rows (moves_behind st key)) e in
    Perm.trans (sort_rows-perm (moves_behind st key) ys zs outer)
      (sorted_by-perm st keys rows ys inner)

-- The first key decides the order of neighbours.
pub sorted_by-InOrder :
    (st : Store) (key : OrderBy) (keys : List OrderBy) (rows zs : List Record)
    → sorted_by st (key ∷ keys) rows ≡ ok zs
    → InOrder (moves_behind st key) zs
unfolding sorted_by
sorted_by-InOrder st key keys rows zs e =
    let (ys, inner, outer) = bind_ok (sorted_by st keys rows) (sort_rows (moves_behind st key)) e in
    sort_rows-InOrder (moves_behind st key) (moves_behind_asym st key) ys zs outer
