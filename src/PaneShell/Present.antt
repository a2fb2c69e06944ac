-- ===== src/PaneShell/Present.antt =====
-- That the managed settings are in the merged configuration.
use familiar_fleet.Base.{
  Bool, true, false, not, ◌&&◌, ◌||◌, ◌≡◌, refl, Option, none, some, List, [], ◌∷◌, ◌++◌, Text,
  text_eq, ◌==◌, contains, if◌then◌else◌, arith,
}
use familiar_fleet.Text.{trim_space}
use familiar_fleet.PaneShell.{
  keep_line, keep_header, user_lines, managed, merge_lines, merge_line, merged, toml_table_header,
  toml_key, terminal, is_setting, is_dotted_setting, with_table, new_table,
}

contains_append :
    (xs ys : List Text) (t : Text) → contains (xs ++ ys) t ≡ (contains xs t || contains ys t)
contains_append [] ys t = refl
contains_append (x ∷ xs) ys t = ground (arith, contains_append xs ys t)

module _ (lines : List Text) (t : Text) (has : contains lines t ≡ true) where
  merge_line_has :
      (b : Bool) (l : Text) (o : Option Text) (rest : Bool → List Text × Bool)
      → ((c : Bool) → (rest c).1 ≡ true → contains (rest c).0 t ≡ true)
      → (merge_line lines b l o rest).1 ≡ true
      → contains (merge_line lines b l o rest).0 t ≡ true
  merge_line_has b l (some name) rest k h =
      by_found (name == terminal) (rest (name == terminal)) (k (name == terminal)) h
    where
      by_found :
          (found : Bool) (r : List Text × Bool)
          → (r.1 ≡ true → contains r.0 t ≡ true)
          → (keep_header lines l found r).1 ≡ true
          → contains (keep_header lines l found r).0 t ≡ true
      by_found true r q e = ground (arith, contains_append lines r.0 t)
      by_found false r q e = ground (arith, q)
  merge_line_has b l none rest k h =
      by_drop
        (b && is_setting (toml_key (trim_space l))
          || not b && is_dotted_setting (toml_key (trim_space l)))
        h
    where
      by_drop :
          (x : Bool)
          → (if x then rest b else keep_line l (rest b)).1 ≡ true
          → contains (if x then rest b else keep_line l (rest b)).0 t ≡ true
      by_drop true e = k b e
      by_drop false e = ground (arith, k b e)

  merge_lines_has :
      (ls : List Text) (b : Bool)
      → (merge_lines lines b ls).1 ≡ true
      → contains (merge_lines lines b ls).0 t ≡ true
  unfolding merge_lines
  merge_lines_has [] b h = absurd (ground (arith, h))
  merge_lines_has (l ∷ ls) b h =
      merge_line_has b l (toml_table_header (trim_space l)) (λ c. merge_lines lines c ls)
        (λ c. merge_lines_has ls c) h

  with_table_has :
      (r : List Text × Bool)
      → (r.1 ≡ true → contains r.0 t ≡ true)
      → contains (with_table lines r) t ≡ true
  with_table_has (out, true) k = k refl
  with_table_has ([], false) k = ground arith
  with_table_has (l ∷ out, false) k =
      ground (arith, contains_append (l ∷ out) ([] ∷ new_table lines) t)

-- Each managed line is a line of the merged configuration.
pub contains-merged :
    (user_config pane_shell line : Text)
    → contains (managed pane_shell) line ≡ true
    → contains (merged user_config pane_shell) line ≡ true
unfolding merged
contains-merged user_config pane_shell line h =
    let ls = user_lines user_config in
    with_table_has (managed pane_shell) line h (merge_lines (managed pane_shell) false ls)
      (merge_lines_has (managed pane_shell) line h ls false)
