-- ===== src/Recompute/Cells.antt =====
-- What the cells of a row hold after one of them is written (packages/db/src/sqlite/formulas.ts).
use byok_grid.Common.{
  ℕ, ◌≡◌, inl, inr, refl, ap, sym, subst, ◌∙◌, Bool, true, false, Option, none, some, List, [], ◌∷◌,
  ◌++◌, ◌==◌, ==_iff, ==_refl, any, update_where, if◌then◌else◌, Bool-cases, arith,
}
use byok_grid.Formula.Values.{Runtime, Value, CellValue}
use byok_grid.Formula.Evaluate.{read_column, is_empty}
use byok_grid.Recompute.Storage.{
  IsIso, deserialize-serialize, deserialize_cell_value, serialize_cell_value,
}
use byok_grid.Recompute.Row.{Cell, Row, cell_of, rewritten, stored, write_cell}

module _ (js : Runtime) where
  abbrev pub has_id : ℕ → List (Cell js) → Bool
  has_id k cells = any (λ cell. cell.id == k) cells

  -- The ids of the cells are all different.
  abbrev pub Keyed : List (Cell js) → Type 0
  Keyed [] = Unit
  Keyed (x ∷ xs) = (has_id x.id xs ≡ false) × Keyed xs

  -- The update of the cell with the id.
  abbrev update : ℕ → Value js → List (Cell js) → List (Cell js)
  update k v cells = update_where (λ other. other.id == k) (rewritten js v) cells

  update-absent :
      (k : ℕ) (v : Value js) (xs : List (Cell js)) → has_id k xs ≡ false → update k v xs ≡ xs
  unfolding update_where
  update-absent k v [] h = refl
  update-absent k v (x ∷ xs) h =
      let here : (x.id == k) ≡ false = ground arith in
      rw here (ap (λ rest. x ∷ rest) (update-absent k v xs (ground arith)))

  same_cell : {a b : Cell js} → ◌≡◌ {A = Option (Cell js)} (some a) (some b) → a ≡ b
  same_cell h = cc

  stored-cons :
      (x : Cell js) (xs : List (Cell js)) (c : ℕ)
      → stored js (x ∷ xs) c
        ≡ (if x.column_id == c then some (deserialize_cell_value js x.content) else stored js xs c)
  stored-cons x xs c = elim (Bool-cases (x.column_id == c)) [
    | inl e ↦ rw e refl
    | inr e ↦ rw e refl
  ]

  found_apart :
      (xs : List (Cell js)) (column k : ℕ) (cell : Cell js)
      → cell_of js xs column ≡ some cell
      → has_id k xs ≡ false
      → (cell.id == k) ≡ false
  found_apart [] column k cell found h = cc
  found_apart (x ∷ xs) column k cell found h = elim (Bool-cases (x.column_id == column)) [
    | inl e ↦
        let same : x ≡ cell = same_cell (rw e at found) in
        subst (λ z. (z.id == k) ≡ false) same (ground arith)
    | inr e ↦ found_apart xs column k cell (rw e at found) (ground arith)
  ]

  has_id-update :
      (k : ℕ) (v : Value js) (j : ℕ) (xs : List (Cell js)) → has_id j (update k v xs) ≡ has_id j xs
  unfolding update_where
  has_id-update k v j [] = refl
  has_id-update k v j (x ∷ xs) = elim (Bool-cases (x.id == k)) [
    | inl e ↦ rw e (rw (has_id-update k v j xs) refl)
    | inr e ↦ rw e (rw (has_id-update k v j xs) refl)
  ]

  update-Keyed : (k : ℕ) (v : Value js) (xs : List (Cell js)) → Keyed xs → Keyed (update k v xs)
  unfolding update_where
  update-Keyed k v [] keyed = tt
  update-Keyed k v (x ∷ xs) keyed = elim (Bool-cases (x.id == k)) [
    | inl e ↦ rw e (has_id-update k v x.id xs ∙ keyed.0, update-Keyed k v xs keyed.1)
    | inr e ↦ rw e (has_id-update k v x.id xs ∙ keyed.0, update-Keyed k v xs keyed.1)
  ]

  has_id-append :
      (j : ℕ) (xs : List (Cell js)) (new : Cell js)
      → has_id j xs ≡ false
      → (new.id == j) ≡ false
      → has_id j (xs ++ new ∷ []) ≡ false
  has_id-append j [] new h apart = ground arith
  has_id-append j (x ∷ xs) new h apart = ground (arith, has_id-append j xs new)

  insert-Keyed :
      (xs : List (Cell js)) (new : Cell js)
      → has_id new.id xs ≡ false
      → Keyed xs
      → Keyed (xs ++ new ∷ [])
  insert-Keyed [] new fresh keyed = (refl, tt)
  insert-Keyed (x ∷ xs) new fresh keyed =
      let apart : (new.id == x.id) ≡ false = ground arith in
      (has_id-append x.id xs new keyed.0 apart, insert-Keyed xs new (ground arith) keyed.1)

  -- The first column is not the one that is written, so either test may come first.
  swap_tests :
      (a column c : ℕ) (old new rest : Option (Value js))
      → (a == column) ≡ false
      → (if a == c then old else (if column == c then new else rest))
        ≡ (if column == c then new else (if a == c then old else rest))
  swap_tests a column c old new rest apart = ground arith

  same_tests :
      (a column c : ℕ) (old new rest : Option (Value js))
      → (a == column) ≡ true
      → (if a == c then new else rest)
        ≡ (if column == c then new else (if a == c then old else rest))
  same_tests a column c old new rest same = ground arith

  abbrev read : Cell js → Value js
  read cell = deserialize_cell_value js cell.content

  -- What is read back once the value has been written.
  abbrev kept : Value js → Value js
  kept v = deserialize_cell_value js (serialize_cell_value js v)

  stored-update :
      (xs : List (Cell js)) (column c : ℕ) (v : Value js) (cell : Cell js)
      → Keyed xs
      → cell_of js xs column ≡ some cell
      → stored js (update cell.id v xs) c ≡ (if column == c then some (kept v) else stored js xs c)
  unfolding update_where
  stored-update [] column c v cell keyed found = cc
  stored-update (x ∷ xs) column c v cell keyed found = elim (Bool-cases (x.column_id == column)) [
    | inl e ↦
        let same : x ≡ cell = same_cell (rw e at found) in
        let ids : (x.id == cell.id) ≡ true =
          subst (λ z. (x.id == z.id) ≡ true) same (==_refl x.id) in
        let rest : update cell.id v xs ≡ xs =
          update-absent cell.id v xs (subst (λ z. has_id z.id xs ≡ false) same keyed.0) in
        rw ids (
          rw rest (
            stored-cons (rewritten js v x) xs c
            ∙ same_tests x.column_id column c (some (read x)) (some (kept v)) (stored js xs c) e
            ∙ ap (λ o. if column == c then some (kept v) else o) (sym (stored-cons x xs c))))
    | inr e ↦
        let apart : (cell.id == x.id) ≡ false =
          found_apart xs column x.id cell (rw e at found) keyed.0 in
        let ids : (x.id == cell.id) ≡ false = ground arith in
        let rest = stored-update xs column c v cell keyed.1 (rw e at found) in
        rw ids (
          stored-cons x (update cell.id v xs) c
          ∙ rw rest
              (swap_tests x.column_id column c (some (read x)) (some (kept v)) (stored js xs c) e)
          ∙ ap (λ o. if column == c then some (kept v) else o) (sym (stored-cons x xs c)))
  ]

  stored-insert :
      (xs : List (Cell js)) (column c : ℕ) (new : Cell js)
      → cell_of js xs column ≡ none
      → new.column_id ≡ column
      → stored js (xs ++ new ∷ []) c ≡ (if column == c then some (read new) else stored js xs c)
  stored-insert [] column c new found same = stored-cons new [] c ∙ rw same refl
  stored-insert (x ∷ xs) column c new found same = elim (Bool-cases (x.column_id == column)) [
    | inl e ↦ let bad = rw e at found in cc
    | inr e ↦
        let rest = stored-insert xs column c new (rw e at found) same in
        stored-cons x (xs ++ new ∷ []) c
        ∙ rw rest
            (swap_tests x.column_id column c (some (read x)) (some (read new)) (stored js xs c) e)
        ∙ ap (λ o. if column == c then some (read new) else o) (sym (stored-cons x xs c))
  ]

  -- What the row holds in each column once one is written.
  pub record Wrote (column : ℕ) (v : Value js) (row row' : Row js) : Type 0 where
    pub in_memory : (c : ℕ) → row'.values c ≡ (if column == c then some v else row.values c)
    pub on_disk :
        (c : ℕ)
        → read_column js (stored js row'.cells c)
          ≡ (if column == c then v else read_column js (stored js row.cells c))
    pub keyed : Keyed row'.cells

  read_either :
      (b : Bool) (v : Value js) (o : Option (Value js))
      → read_column js (if b then some v else o) ≡ (if b then v else read_column js o)
  read_either true v o = refl
  read_either false v o = refl

  is_empty→ : (v : Value js) → is_empty js v ≡ true → v ≡ CellValue.empty
  is_empty→ v h = ground arith

  absent_value :
      (cells : List (Cell js)) (column c : ℕ)
      → cell_of js cells column ≡ none
      → read_column js (stored js cells c)
        ≡ (if column == c then CellValue.empty else read_column js (stored js cells c))
  absent_value cells column c none_found = elim (Bool-cases (column == c)) [
    | inl e ↦
        let at : cell_of js cells c ≡ none =
          subst (λ z. cell_of js cells z ≡ none) ((==_iff column c).0 e) none_found in
        rw e (rw at refl)
    | inr e ↦ rw e refl
  ]

  pub write_cell-Wrote :
      (new_id : List (Cell js) → ℕ)
      → ((cells : List (Cell js)) → has_id (new_id cells) cells ≡ false)
      → (column : ℕ) (v : Value js) (o : Option (Cell js)) (row : Row js) → IsIso js v
      → cell_of js row.cells column ≡ o
      → Keyed row.cells
      → Wrote column v row (write_cell js new_id column v o row)
  unfolding write_cell
  write_cell-Wrote new_id fresh column v (some cell) row iso found keyed = record {
    in_memory = λ c. refl;
    on_disk = λ c.
        ap (read_column js) (stored-update row.cells column c v cell keyed found)
        ∙ (read_either (column == c) (kept v) (stored js row.cells c)
            ∙ ap (λ w. if column == c then w else read_column js (stored js row.cells c))
                (deserialize-serialize js v iso));
    keyed = update-Keyed cell.id v row.cells keyed;
  }
  write_cell-Wrote new_id fresh column v none row iso found keyed =
      elim (Bool-cases (is_empty js v)) [
        | inl e ↦ rw e (record {
          in_memory = λ c. refl;
          on_disk = λ c. rw (is_empty→ v e) (absent_value row.cells column c found);
          keyed = keyed;
        })
        | inr e ↦ rw e (record {
          in_memory = λ c. refl;
          on_disk = λ c.
              ap (read_column js) (stored-insert row.cells column c _ found refl)
              ∙ (read_either (column == c) (kept v) (stored js row.cells c)
                  ∙ ap (λ w. if column == c then w else read_column js (stored js row.cells c))
                      (deserialize-serialize js v iso));
          keyed = insert-Keyed row.cells _ (fresh row.cells) keyed;
        })
      ]
