-- ===== src/Db/Blacklist/Rows.antt =====
-- What the statements on the blacklist leave for a name on a server.
use mcbeproxy.Base.{
  subst, sym, ap, map, append-nil, append_assoc, ◌∙◌, ◌≤◌, ◌≡◌, refl, true, false, String, str_eq,
  eq_iff, List, [], ◌∷◌, ◌++◌, some, arith, length, All, Bool-cases, Option-cases, inl, inr, ◌⊎◌,
  ◌↔◌,
}
use mcbeproxy.Db.Blacklist.{
  Row, NewEntry, has_rows, rows_at, is_match, is_conflict, null_if_empty, update_row, new_row,
  create_entry, delete_rows, delete_entry,
}

-- The name that stands in the table: that of the row that is there, else the one of the entry.
abbrev pub stored_name : NewEntry → List Row → String
stored_name e [] = e.new_name
stored_name e (r ∷ rows) = r.row_name

-- The row has the entry's state, under a given name.
abbrev pub HasEntry : NewEntry → String → Row → Type 0
HasEntry e name r =
    (r.row_name ≡ name)
    × (r.row_server ≡ some e.new_server)
    × (r.row_enabled ≡ e.new_enabled)
    × (r.row_expires_at ≡ e.new_expires_at)

conflict-match :
    (lower server : String) (r : Row)
    → str_eq server "" ≡ false
    → is_conflict lower (null_if_empty server) r ≡ is_match lower server r
conflict-match lower server r h = ground arith

match-server :
    (lower server : String) (r : Row)
    → str_eq server "" ≡ false
    → is_match lower server r ≡ true
    → r.row_server ≡ some server
match-server lower server r h m = elim (Option-cases r.row_server) [
  | inl null ↦ absurd (ground (arith, null))
  | inr (s, e) ↦ ground (arith, e, eq_iff s server)
]

nil-length : (rows : List Row) → length rows ≤ 0 → rows ≡ []
nil-length [] h = refl
nil-length (r ∷ rows) h = absurd (omega arith)

match-apart :
    (lower server l s : String) (r : Row)
    → (str_eq l lower ≡ false) ⊎ (str_eq s server ≡ false)
    → is_match lower server r ≡ true
    → is_match l s r ≡ false
match-apart lower server l s r d m = elim (Option-cases r.row_server) [
  | inl null ↦ ground (
    arith,
    null,
    d,
    m,
    eq_iff r.name_lower lower,
    eq_iff r.name_lower l,
    eq_iff l lower,
    eq_iff s "",
    eq_iff server "",
    eq_iff s server,
  )
  | inr (t, e) ↦ ground (
    arith,
    e,
    d,
    m,
    eq_iff r.name_lower lower,
    eq_iff r.name_lower l,
    eq_iff l lower,
    eq_iff t s,
    eq_iff t server,
    eq_iff s server,
  )
]

nil-has_rows : (rows : List Row) → (has_rows rows ≡ false) ↔ (rows ≡ [])
nil-has_rows [] = ((λ h. refl), (λ h. refl))
nil-has_rows (r ∷ rows) = ((λ h. absurd (ground arith)), (λ h. absurd (ground arith)))

matched :
    (lower server : String) (r : Row) (rows : List Row)
    → is_match lower server r ≡ true
    → rows_at lower server (r ∷ rows) ≡ r ∷ rows_at lower server rows
unfolding rows_at
matched lower server r rows h = rw h refl

unmatched :
    (lower server : String) (r : Row) (rows : List Row)
    → is_match lower server r ≡ false
    → rows_at lower server (r ∷ rows) ≡ rows_at lower server rows
unfolding rows_at
unmatched lower server r rows h = rw h refl

module _ (to_lower : String → String) where
  -- Create called for each entry in turn.
  pub create_all : List NewEntry → List Row → List Row
  create_all [] rows = rows
  create_all (e ∷ es) rows = create_all es (create_entry to_lower e rows)

  -- Creating an entry for a named server leaves exactly one row for its name there, with the
  -- entry's state, if there was one at most; a row that was there keeps its name.
  pub rows_at-create_entry :
      (e : NewEntry) (rows : List Row)
      → str_eq e.new_server "" ≡ false
      → length (rows_at (to_lower e.new_name) e.new_server rows) ≤ 1
      → (r : Row) × (rows_at (to_lower e.new_name) e.new_server (create_entry to_lower e rows)
          ≡ r ∷ [])
        × HasEntry e (stored_name e (rows_at (to_lower e.new_name) e.new_server rows)) r
  unfolding rows_at create_entry
  rows_at-create_entry e [] h l = (
    new_row to_lower e,
    ground (
      arith,
      h,
      eq_iff (to_lower e.new_name) (to_lower e.new_name),
      eq_iff e.new_server e.new_server,
    ),
    (refl, rw h refl, refl, refl),
  )
  rows_at-create_entry e (r ∷ rows) h l =
      let lower = to_lower e.new_name in
      let same = conflict-match lower e.new_server r h in
      elim (Bool-cases (is_match lower e.new_server r)) [
        | inr other ↦
            (let (t, u, v) = rows_at-create_entry e rows h (ground (arith, other, l)) in
              (
                t,
                ground (arith, other, same, u),
                subst (λ (l : List Row). HasEntry e (stored_name e l) t)
                    (sym (unmatched lower e.new_server r rows other)) v,
              ))
        | inl mine ↦
            (let only : rows_at lower e.new_server rows ≡ [] =
                nil-length _ (ground (arith, mine, l)) in
              (
                update_row e r,
                ground (arith, same, mine, only),
                (
                  ap (stored_name e) (sym (matched lower e.new_server r rows mine)),
                  match-server lower e.new_server r h mine,
                  refl,
                  refl,
                ),
              ))
      ]

  -- Creating a global entry, whatever is there, adds a row: a name that is banned globally again
  -- has two rows, and the first one stays as it was.
  rows_at-create_global :
      (e : NewEntry) (rows : List Row)
      → str_eq e.new_server "" ≡ true
      → rows_at (to_lower e.new_name) "" (create_entry to_lower e rows)
        ≡ rows_at (to_lower e.new_name) "" rows ++ (new_row to_lower e ∷ [])
  unfolding rows_at create_entry
  rows_at-create_global e [] h =
      ground (arith, h, eq_iff (to_lower e.new_name) (to_lower e.new_name))
  rows_at-create_global e (r ∷ rows) h = elim (Option-cases r.row_server) [
    | inl null ↦ ground (arith, h, null, rows_at-create_global e rows h)
    | inr (s, k) ↦ ground (arith, h, k, rows_at-create_global e rows h)
  ]

  -- Creating an entry for a named server leaves the global rows of every name as they were.
  pub rows_at-create_named :
      (lower : String) (e : NewEntry) (rows : List Row)
      → str_eq e.new_server "" ≡ false
      → rows_at lower "" (create_entry to_lower e rows) ≡ rows_at lower "" rows
  unfolding rows_at create_entry
  rows_at-create_named lower e [] h = ground (arith, h)
  rows_at-create_named lower e (r ∷ rows) h = elim (Option-cases r.row_server) [
    | inl null ↦ ground (arith, h, null, rows_at-create_named lower e rows h)
    | inr (s, k) ↦ ground (
      arith,
      h,
      k,
      rows_at-create_named lower e rows h,
      eq_iff s "",
      eq_iff s e.new_server,
      eq_iff e.new_server "",
    )
  ]

  -- Create called with global entries of one name, any number of them, adds a row for each, in
  -- turn: no call updates a row, and the rows of the name that were there stay as they were.
  pub rows_at-create_all :
      (lower : String) (es : List NewEntry) (rows : List Row)
      → All (λ (e : NewEntry). str_eq e.new_server "" ≡ true) es
      → All (λ (e : NewEntry). to_lower e.new_name ≡ lower) es
      → rows_at lower "" (create_all es rows) ≡ rows_at lower "" rows ++ map (new_row to_lower) es
  unfolding create_all
  rows_at-create_all lower [] rows g n = sym (append-nil (rows_at lower "" rows))
  rows_at-create_all lower (e ∷ es) rows g n =
      let one : rows_at lower "" (create_entry to_lower e rows)
          ≡ rows_at lower "" rows ++ (new_row to_lower e ∷ []) =
        subst
          (λ (l : String).
            rows_at l "" (create_entry to_lower e rows)
            ≡ rows_at l "" rows ++ (new_row to_lower e ∷ []))
          n.0 (rows_at-create_global e rows g.0) in
      rows_at-create_all lower es (create_entry to_lower e rows) g.1 n.1
      ∙ ap (λ (l : List Row). l ++ map (new_row to_lower) es) one
      ∙ append_assoc (rows_at lower "" rows) (new_row to_lower e ∷ []) (map (new_row to_lower) es)

  rows_at-delete_rows :
      (lower server : String) (rows : List Row)
      → rows_at lower server (delete_rows (is_match lower server) rows) ≡ []
  unfolding rows_at delete_rows
  rows_at-delete_rows lower server [] = refl
  rows_at-delete_rows lower server (r ∷ rows) =
      ground (arith, rows_at-delete_rows lower server rows)

  rows_at-kept :
      (lower server l s : String) (rows : List Row)
      → (str_eq l lower ≡ false) ⊎ (str_eq s server ≡ false)
      → rows_at l s (delete_rows (is_match lower server) rows) ≡ rows_at l s rows
  unfolding rows_at delete_rows
  rows_at-kept lower server l s [] d = refl
  rows_at-kept lower server l s (r ∷ rows) d =
      let rest = rows_at-kept lower server l s rows d in
      elim (Bool-cases (is_match lower server r)) [
        | inl gone ↦
            (let out = match-apart lower server l s r d gone in ground (arith, gone, out, rest))
        | inr kept ↦ ground (arith, kept, rest)
      ]

  -- Delete takes every row of the name on the server out, leaves every other name and server as
  -- it was, and succeeds exactly where there was such a row.
  pub delete_entry-exact :
      (name server l s : String) (rows : List Row)
      → (str_eq l (to_lower name) ≡ false) ⊎ (str_eq s server ≡ false)
      → (rows_at (to_lower name) server (delete_entry to_lower name server rows).0 ≡ [])
        × (rows_at l s (delete_entry to_lower name server rows).0 ≡ rows_at l s rows)
        × (((delete_entry to_lower name server rows).1 ≡ false)
            ↔ (rows_at (to_lower name) server rows ≡ []))
  unfolding delete_entry
  delete_entry-exact name server l s rows d = (
    rows_at-delete_rows (to_lower name) server rows,
    rows_at-kept (to_lower name) server l s rows d,
    nil-has_rows (rows_at (to_lower name) server rows),
  )
