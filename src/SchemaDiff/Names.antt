-- ===== src/SchemaDiff/Names.antt =====
-- Which tables `diff_schema` adds, and which it reports as unchanged (crates/schema-diff/src/diff.rs).
use tsqlremaker.Base.{
  ◌≡◌, refl, sym, ap, ◌∙◌, Bool, true, false, ◌&&◌, ◌||◌, not, Bool-cases, inl, inr, List, [], ◌∷◌,
  ◌++◌, map, Option, none, some, Text, text_eq, eq_of_text_eq,
}
use tsqlremaker.Common.Ddl.{DataType}
use tsqlremaker.SchemaDiff.Catalog.{TableDiff, CatalogSchema, CatalogTable}
use tsqlremaker.SchemaDiff.Maps.{collect, get, keys}
use tsqlremaker.SchemaDiff.Diff.{pick}
use tsqlremaker.SchemaDiff.Diff.Schema.{
  diff_columns, diff_constraints, diff_single_table, diff_schema,
}
use tsqlremaker.SchemaDiff.Swap.{
  any, any-append, any-ap, any-sorted_names, adds, optional, old_table, new_table, diff_tables-any,
  table_change-adds,
}
use tsqlremaker.SchemaDiff.Laws.{all_unchanged, diff_single_table-same, diff_schema-unchanged}
use tsqlremaker.SchemaDiff.Lookup.{
  is_some, is_some-collect_into, is_some-keys, Keyed, nil-Keyed, collect_into-Keyed,
}

any-map :
    {A B : Type 0} (p : B → Bool) (f : A → B) (xs : List A)
    → any p (map f xs) ≡ any (λ x. p (f x)) xs
unfolding any
any-map p f [] = refl
any-map p f (x ∷ xs) = ap (λ b. p (f x) || b) (any-map p f xs)

absorb : (a b : Bool) → (b || (a && b)) ≡ b
absorb true true = refl
absorb true false = refl
absorb false true = refl
absorb false false = refl

-- Of the names only `n` counts.
any-and :
    (n : Text) (q : Text → Bool) (ks : List Text)
    → any (λ k. text_eq k n && q k) ks ≡ (any (λ k. text_eq k n) ks && q n)
unfolding any
any-and n q [] = refl
any-and n q (k ∷ ks) = elim (Bool-cases (text_eq k n)) [
  | inl same ↦
      rw same (
        rw (any-and n q ks)
          (rw (eq_of_text_eq k n same) (absorb (any (λ k. text_eq k n) ks) (q n))))
  | inr other ↦ rw other (any-and n q ks)
]

and_false : (b : Bool) → (b && false) ≡ false
and_false true = refl
and_false false = refl

and_true : (b : Bool) → (b && true) ≡ b
and_true true = refl
and_true false = refl

only_new : (c d : Bool) → ((c || d) && (d && not c)) ≡ (d && not c)
only_new true true = refl
only_new true false = refl
only_new false true = refl
only_new false false = refl

absorb_twice : (b : Bool) → ((b || b) && b) ≡ b
absorb_twice true = refl
absorb_twice false = refl

or_false : (b : Bool) → (b || false) ≡ b
or_false true = refl
or_false false = refl

module _ {E : Type 0} where
  -- A catalog has a table of that name.
  unfoldable pub has_table : Text → CatalogSchema E → Bool
  has_table n s = any (λ t. text_eq n t.name) s.tables

  -- Whether a difference reports the table of that name as unchanged.
  unfoldable pub keeps : Text → TableDiff E → Bool
  keeps n (TableDiff.unchanged name) = text_eq name n
  keeps n _ = false

  abbrev by_name : List (CatalogTable E) → List (Text × CatalogTable E)
  by_name ts = collect (map (λ t. (t.name, t)) ts)

  is_some-by_name :
      (n : Text) (s : CatalogSchema E) → is_some (get n (by_name s.tables)) ≡ has_table n s
  unfolding has_table collect get is_some
  is_some-by_name n s =
      is_some-collect_into n [] (map (λ t. (t.name, t)) s.tables)
      ∙ (or_false _ ∙ any-map (λ kv. text_eq n kv.0) (λ t. (t.name, t)) s.tables)

  by_name-Keyed : (ts : List (CatalogTable E)) → Keyed (λ t. t.name) (by_name ts)
  unfolding collect
  by_name-Keyed ts = collect_into-Keyed (λ t. t.name) [] ts (nil-Keyed _)

module _ {E : Type 0} (E_discrete : Discrete E) (debug : DataType → Text) (n : Text) where
  pick-adds :
      (name : Text) (c d : Option (CatalogTable E))
      → ((t : CatalogTable E) → d ≡ some t → t.name ≡ name)
      → optional
          (adds n)
          (pick
            (λ name. diff_single_table E_discrete debug)
            (old_table E_discrete debug n)
            (new_table E_discrete debug n)
            name
            c
            d).0
        ≡ (text_eq name n && (is_some d && not (is_some c)))
  unfolding diff_single_table adds is_some
  pick-adds name none none h = sym (and_false (text_eq name n))
  pick-adds name none (some d) h = rw (h d refl) (sym (and_true (text_eq name n)))
  pick-adds name (some c) none h = sym (and_false (text_eq name n))
  pick-adds name (some c) (some d) h =
      table_change-adds E_discrete debug n c.name (diff_columns E_discrete debug c d).0
        (diff_constraints E_discrete debug c d).0
      ∙ sym (and_false (text_eq name n))

  -- The comparison adds exactly the tables whose name the desired schema has and the current one has
  -- not.
  pub diff_schema-adds :
      (current desired : CatalogSchema E)
      → any (adds n) (diff_schema E_discrete debug current desired).table_diffs
        ≡ (has_table n desired && not (has_table n current))
  unfolding diff_schema Keyed
  diff_schema-adds current desired =
      let cur = by_name current.tables in
      let des = by_name desired.tables in
      let q : Text → Bool = λ name. is_some (get name des) && not (is_some (get name cur)) in
      diff_tables-any E_discrete debug n (adds n) current.tables desired.tables
      ∙ (any-ap _ (λ name. text_eq name n && q name)
            (λ name.
              pick-adds name (get name cur) (get name des)
                (λ t. by_name-Keyed desired.tables name t))
            _
          ∙ (any-and n q _
              ∙ rw (any-sorted_names (λ k. text_eq k n) (keys cur ++ keys des)) (
                  rw (any-append (λ k. text_eq k n) (keys cur) (keys des)) (
                    rw (is_some-keys n cur) (
                      rw (is_some-keys n des) (
                        rw (is_some-by_name n current) (
                          rw (is_some-by_name n desired)
                            (only_new (has_table n current) (has_table n desired)))))))))

  pick-keeps :
      (name : Text) (o : Option (CatalogTable E))
      → ((t : CatalogTable E) → o ≡ some t → t.name ≡ name)
      → optional
          (keeps n)
          (pick
            (λ name. diff_single_table E_discrete debug)
            (old_table E_discrete debug n)
            (new_table E_discrete debug n)
            name
            o
            o).0
        ≡ (text_eq name n && is_some o)
  unfolding keeps is_some
  pick-keeps name none h = sym (and_false (text_eq name n))
  pick-keeps name (some t) h =
      rw (diff_single_table-same E_discrete debug t)
        (rw (h t refl) (sym (and_true (text_eq name n))))

  -- A catalog compared with itself has no difference: a table is reported as unchanged where the catalog
  -- has one of that name, nothing else is reported of the tables, no index is reported, and there is no
  -- warning.
  pub diff_schema-same :
      (s : CatalogSchema E)
      → (any (keeps n) (diff_schema E_discrete debug s s).table_diffs ≡ has_table n s)
        × (all_unchanged (diff_schema E_discrete debug s s).table_diffs ≡ true)
        × ((diff_schema E_discrete debug s s).index_diffs ≡ [])
        × ((diff_schema E_discrete debug s s).warnings ≡ [])
  unfolding diff_schema Keyed
  diff_schema-same s =
      let m = by_name s.tables in
      let q : Text → Bool = λ name. is_some (get name m) in
      let (u, i, w) = diff_schema-unchanged E_discrete debug s in
      (
        diff_tables-any E_discrete debug n (keeps n) s.tables s.tables
            ∙ (any-ap _ (λ name. text_eq name n && q name)
                  (λ name. pick-keeps name (get name m) (λ t. by_name-Keyed s.tables name t)) _
                ∙ (any-and n q _
                    ∙ rw (any-sorted_names (λ k. text_eq k n) (keys m ++ keys m)) (
                        rw (any-append (λ k. text_eq k n) (keys m) (keys m)) (
                          rw (is_some-keys n m)
                            (rw (is_some-by_name n s) (absorb_twice (has_table n s))))))),
        u,
        i,
        w,
      )
