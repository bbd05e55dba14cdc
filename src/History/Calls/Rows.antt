-- ===== src/History/Calls/Rows.antt =====
-- The rows of a user, after an update of one of them.
use latest_poseidon.Prelude.{
  ◌≡◌, refl, sym, subst, ap, ◌∙◌, inl, inr, String, str_eq, eq_iff, true, false, Option, some, List,
  [], ◌∷◌, if◌then◌else◌, Bool-cases, arith,
}
use latest_poseidon.History.State.{State, StateRow, is_row, update_state, read_row}
use latest_poseidon.History.Calls.{HasRow}

module _ (user : String) where
  is_row_other :
      (id j : String) (r : StateRow)
      → str_eq id j ≡ false
      → is_row user id r ≡ true
      → is_row user j r ≡ false
  is_row_other id j r n h = elim (Bool-cases (str_eq r.id id)) [
    | inl t ↦
        (let other : str_eq r.id j ≡ false =
            subst (λ k. str_eq k j ≡ false) (sym ((eq_iff r.id id).0 t)) n in
          ground (arith, other))
    | inr f ↦ ground (arith, h, f)
  ]

  pub read_row-update_state :
      (id : String) (f : Option State → State) (table : List StateRow) (o : Option State)
      → read_row user id table ≡ some o
      → read_row user id (update_state user id f table) ≡ some (some (f o))
  unfolding read_row update_state
  read_row-update_state id f [] o h = absurd (cc h)
  read_row-update_state id f (r ∷ table) o h = elim (Bool-cases (is_row user id r)) [
    | inl t ↦ rw t (cc (rw t at h))
    | inr n ↦ rw (n, n) (read_row-update_state id f table o (rw n at h))
  ]

  pub read_row-update_state_other :
      (id j : String) (f : Option State → State) (table : List StateRow)
      → str_eq id j ≡ false
      → read_row user j (update_state user id f table) ≡ read_row user j table
  unfolding read_row update_state
  read_row-update_state_other id j f [] h = refl
  read_row-update_state_other id j f (r ∷ table) h = elim (Bool-cases (is_row user id r)) [
    | inl t ↦ rw (t, is_row_other id j r h t) (read_row-update_state_other id j f table h)
    | inr n ↦ rw n (
        ap (λ x. if is_row user j r then some r.state else x)
          (read_row-update_state_other id j f table h))
  ]

  -- A row keeps its place for every id.
  pub HasRow-update_state :
      (id j : String) (f : Option State → State) (table : List StateRow)
      → HasRow user j table
      → HasRow user j (update_state user id f table)
  HasRow-update_state id j f table (o, h) = elim (Bool-cases (str_eq id j)) [
    | inl t ↦
        subst (λ k. HasRow user k (update_state user id f table)) ((eq_iff id j).0 t)
          (
            some (f o),
            read_row-update_state id f table o
                (subst (λ k. read_row user k table ≡ some o) (sym ((eq_iff id j).0 t)) h),
          )
    | inr n ↦ (o, read_row-update_state_other id j f table n ∙ h)
  ]
