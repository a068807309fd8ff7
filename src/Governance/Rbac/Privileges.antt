-- ===== src/Governance/Rbac/Privileges.antt =====
-- rbac.py: what the check of the serving identity's privileges reports.
use supervisor_agent.Base.{
  All-In, subst, All-tabulate, In-of_keep, sym, ap, if◌then◌else◌, String, ◌==◌, Bool, true, false,
  not, ◌≡◌, refl, inl, inr, Option, none, some, List, [], ◌∷◌, elem, keep, is_empty, All, In,
  Bool-cases, by_test, eq_iff, arith,
}
use supervisor_agent.Base.Text.{upper}
use supervisor_agent.Base.Dict.{Dict, lookup, lookup-insert, insert}
use supervisor_agent.Base.Sort.{sort-In, All-sort}
use supervisor_agent.Governance.Rbac.{
  PrivilegeFinding, Grants, agents_or_empty, wanted_tables, add_grant, held_privileges,
  permitted_on, excess_over, findings_of, declared_or_default, le_text, check_privileges,
}

-- A privilege that is held on a table.
abbrev Holds : Dict (List String) → String → String → Type 0
Holds held table p = elem p (agents_or_empty (lookup table held)) ≡ true

add_grant-Holds :
    (held : Dict (List String)) (table privilege : String)
    → Holds (add_grant held (table, privilege)) table (upper privilege)
unfolding add_grant
add_grant-Holds held table privilege =
    let old = agents_or_empty (lookup table held) in
    rw
      (lookup-insert table table (if elem (upper privilege) old then old else upper privilege ∷ old)
        held)
      (ground (arith, eq_iff table table, eq_iff (upper privilege) (upper privilege)))

add_grant_keeps :
    (held : Dict (List String)) (row : String × String) (table p : String)
    → Holds held table p
    → Holds (add_grant held row) table p
unfolding add_grant
add_grant_keeps held (t, privilege) table p h =
    let old = agents_or_empty (lookup t held) in
    rw
      (lookup-insert table t (if elem (upper privilege) old then old else upper privilege ∷ old)
        held)
      (ground (arith, eq_iff table t))

held_privileges_keeps :
    (held : Dict (List String)) (rows : List (String × String)) (table p : String)
    → Holds held table p
    → Holds (held_privileges held rows) table p
unfolding held_privileges
held_privileges_keeps held [] table p h = h
held_privileges_keeps held (row ∷ rows) table p h =
    held_privileges_keeps (add_grant held row) rows table p (add_grant_keeps held row table p h)

held_privileges-Holds :
    (held : Dict (List String)) (rows : List (String × String)) (table privilege : String)
    → In (table, privilege) rows
    → Holds (held_privileges held rows) table (upper privilege)
unfolding held_privileges
held_privileges-Holds held [] table privilege m = absurd m
held_privileges-Holds held (row ∷ rows) table privilege (inl e) =
    held_privileges_keeps (add_grant held row) rows table (upper privilege)
      (rw⁻¹ e (add_grant-Holds held table privilege))
held_privileges-Holds held (row ∷ rows) table privilege (inr m) =
    held_privileges-Holds (add_grant held row) rows table privilege m

lookup-In :
    (k : String) (d : Dict (List String)) (p : String)
    → Holds d k p
    → (v : List String) × In (k, v) d × (elem p v ≡ true)
unfolding lookup
lookup-In k [] p h = absurd cc
lookup-In k ((j, w) ∷ d) p h = elim (Bool-cases (k == j)) [
  | inl same ↦ (w, inl (ap (λ (x : String). (x, w)) ((eq_iff k j).0 same)), ground arith)
  | inr other ↦ let (v, m, q) = lookup-In k d p (ground arith) in (v, inr m, q)
]

In-keep :
    (f : String → Bool) (p : String) (xs : List String)
    → elem p xs ≡ true
    → f p ≡ true
    → In p (keep f xs)
In-keep f p [] h k = absurd cc
In-keep f p (x ∷ xs) h k = elim (Bool-cases (p == x)) [
  | inl same ↦
      let e = (eq_iff p x).0 same in let k' : f x ≡ true = rw e at k in rw (keep, k') (inl e)
  | inr other ↦ elim (Bool-cases (f x)) [
    | inl kept ↦ rw (keep, kept) (inr (In-keep f p xs (ground arith) k))
    | inr gone ↦ rw (keep, gone) (In-keep f p xs (ground arith) k)
  ]
]

excess_over-In :
    (permitted privileges : List String) (p : String)
    → elem p privileges ≡ true
    → elem p permitted ≡ false
    → In p (excess_over permitted privileges)
unfolding excess_over
excess_over-In permitted privileges p h k =
    sort-In le_text p (keep (λ q. not (elem q permitted)) privileges)
      (In-keep (λ q. not (elem q permitted)) p privileges h (ground arith))

is_empty-In : (p : String) (xs : List String) → In p xs → is_empty xs ≡ false
is_empty-In p [] m = absurd m
is_empty-In p (x ∷ xs) m = refl

-- A finding on the table, with the privilege in its excess.
abbrev pub Reported : String → String → List PrivilegeFinding → Type 0
Reported table p found = (f : PrivilegeFinding) × In f found × (f.table ≡ table) × In p f.excess

-- Every privilege that a finding reports is outside the set for its table.
abbrev pub Unpermitted : Dict (List String) → Dict String → List PrivilegeFinding → Type 0
Unpermitted allowed wanted =
    All (λ f. All (λ p. elem p (permitted_on allowed wanted f.table) ≡ false) f.excess)

excess_over-All :
    (permitted privileges : List String)
    → All (λ p. elem p permitted ≡ false) (excess_over permitted privileges)
unfolding excess_over
excess_over-All permitted privileges =
    All-sort le_text (λ p. elem p permitted ≡ false) (keep (λ p. not (elem p permitted)) privileges)
      (All-tabulate _ _ (λ p m.
        let (q, h) = In-of_keep (λ r. not (elem r permitted)) p privileges m in ground arith))

module _ (allowed : Dict (List String)) (wanted : Dict String) (role : String) where
  findings_of-Reported :
      (held : List (String × List String)) (table p : String) (privileges : List String)
      → In (table, privileges) held
      → elem p privileges ≡ true
      → elem p (permitted_on allowed wanted table) ≡ false
      → Reported table p (findings_of allowed wanted role held)
  unfolding findings_of excess_over
  findings_of-Reported [] table p privileges m h k = absurd m
  findings_of-Reported ((t, ps) ∷ held) table p privileges (inl e) h k =
      let excess : In p (excess_over (permitted_on allowed wanted t) ps) =
        excess_over-In (permitted_on allowed wanted t) ps p (rw⁻¹ (ap (λ x. x.1) e) h)
          (rw⁻¹ (ap (λ x. x.0) e) k) in
      rw (findings_of, is_empty-In p (excess_over (permitted_on allowed wanted t) ps) excess)
        (
          record {
            table = t;
            role = role;
            excess = excess_over (permitted_on allowed wanted t) ps;
          },
          inl refl,
          sym (ap (λ x. x.0) e),
          excess,
        )
  findings_of-Reported ((t, ps) ∷ held) table p privileges (inr m) h k =
      let (f, n, same, q) = findings_of-Reported held table p privileges m h k in
      by_test (Reported table p) (is_empty (excess_over (permitted_on allowed wanted t) ps)) _ _
        (λ _. (f, n, same, q)) (λ _. (f, inr n, same, q))

  findings_of-Unpermitted :
      (held : List (String × List String))
      → Unpermitted allowed wanted (findings_of allowed wanted role held)
  unfolding findings_of
  findings_of-Unpermitted [] = tt
  findings_of-Unpermitted ((t, ps) ∷ held) =
      by_test (Unpermitted allowed wanted)
        (is_empty (excess_over (permitted_on allowed wanted t) ps)) _ _
        (λ _. findings_of-Unpermitted held)
        (λ _. (excess_over-All (permitted_on allowed wanted t) ps, findings_of-Unpermitted held))

check_privileges-Reported :
    (grants : Grants) (tables : Dict String) (declared : Option (Dict (List String)))
    (table privilege : String)
    → is_empty (wanted_tables tables) ≡ false
    → In (table, privilege) grants.rows
    → elem
        (upper privilege)
        (permitted_on (declared_or_default declared) (wanted_tables tables) table)
      ≡ false
    → Reported table (upper privilege) (check_privileges (some grants) tables declared)
unfolding check_privileges
check_privileges-Reported grants tables declared table privilege some_table m k =
    let (privileges, n, held) =
      lookup-In table (held_privileges [] grants.rows) (upper privilege)
        (held_privileges-Holds [] grants.rows table privilege m) in
    rw (check_privileges, some_table)
      (findings_of-Reported (declared_or_default declared) (wanted_tables tables)
        grants.current_user _ table (upper privilege) privileges (sort-In _ (table, privileges) _ n)
        held k)

check_privileges-Unpermitted :
    (grants : Option Grants) (tables : Dict String) (declared : Option (Dict (List String)))
    → Unpermitted
        (declared_or_default declared)
        (wanted_tables tables)
        (check_privileges grants tables declared)
unfolding check_privileges
check_privileges-Unpermitted none tables declared =
    by_test (Unpermitted (declared_or_default declared) (wanted_tables tables))
      (is_empty (wanted_tables tables)) _ _ (λ _. tt) (λ _. tt)
check_privileges-Unpermitted (some g) tables declared =
    by_test (Unpermitted (declared_or_default declared) (wanted_tables tables))
      (is_empty (wanted_tables tables)) _ _ (λ _. tt)
      (λ _.
        findings_of-Unpermitted (declared_or_default declared) (wanted_tables tables) g.current_user
          _)

-- A privilege that was granted on a table, and what the entries and the findings say of grants.
abbrev pub Granted : List (String × String) → String → String → Type 0
Granted rows table p = (privilege : String) × In (table, privilege) rows × (upper privilege ≡ p)

abbrev EntryGranted : List (String × String) → String × List String → Type 0
EntryGranted rows (table, privileges) =
    (p : String) → elem p privileges ≡ true → Granted rows table p

abbrev pub FindingsGranted : List (String × String) → List PrivilegeFinding → Type 0
FindingsGranted rows = All (λ f. All (λ p. Granted rows f.table p) f.excess)

insert-All :
    (P : String × List String → Type 0) (k : String) (v : List String) (d : Dict (List String))
    → P (k, v)
    → All P d
    → All P (insert k v d)
unfolding insert
insert-All P k v [] h hs = (h, tt)
insert-All P k v ((j, w) ∷ d) h (i, hs) =
    by_test (λ (e : Dict (List String)). All P e) (k == j) _ _
      (λ same. (subst (λ (x : String). P (x, v)) ((eq_iff k j).0 same) h, hs))
      (λ other. (i, insert-All P k v d h hs))

In-elem : (p : String) (xs : List String) → In p xs → elem p xs ≡ true
In-elem p [] m = absurd m
In-elem p (x ∷ xs) (inl e) = rw ((eq_iff p x).1 e) refl
In-elem p (x ∷ xs) (inr m) = let h = In-elem p xs m in ground arith

module _ (rows : List (String × String)) where
  add_grant-Granted :
      (held : Dict (List String)) (table privilege : String)
      → In (table, privilege) rows
      → All (EntryGranted rows) held
      → All (EntryGranted rows) (add_grant held (table, privilege))
  unfolding add_grant
  add_grant-Granted held table privilege m hs =
      let old : (p : String)
          → elem p (agents_or_empty (lookup table held)) ≡ true
          → Granted rows table p =
        λ p h.
          let (v, n, q) = lookup-In table held p h in
          All-In (EntryGranted rows) (table, v) held hs n p q in
      insert-All (EntryGranted rows) table _ held
        (by_test (λ (ps : List String). EntryGranted rows (table, ps))
          (elem (upper privilege) (agents_or_empty (lookup table held))) _ _ (λ _. old)
          (λ _ p h. elim (Bool-cases (p == upper privilege)) [
            | inl same ↦ (privilege, m, sym ((eq_iff p (upper privilege)).0 same))
            | inr other ↦ old p (let h' = rw other at h in h')
          ]))
        hs

  held_privileges-Granted :
      (held : Dict (List String)) (more : List (String × String))
      → All (λ row. In row rows) more
      → All (EntryGranted rows) held
      → All (EntryGranted rows) (held_privileges held more)
  unfolding held_privileges
  held_privileges-Granted held [] ms hs = hs
  held_privileges-Granted held ((table, privilege) ∷ more) (m, ms) hs =
      held_privileges-Granted (add_grant held (table, privilege)) more ms
        (add_grant-Granted held table privilege m hs)

  findings_of-Granted :
      (allowed : Dict (List String)) (wanted : Dict String) (role : String)
      (held : List (String × List String))
      → All (EntryGranted rows) held
      → FindingsGranted rows (findings_of allowed wanted role held)
  unfolding findings_of excess_over
  findings_of-Granted allowed wanted role [] hs = tt
  findings_of-Granted allowed wanted role ((table, ps) ∷ held) (h, hs) =
      let rest = findings_of-Granted allowed wanted role held hs in
      by_test (FindingsGranted rows) (is_empty (excess_over (permitted_on allowed wanted table) ps))
        _ _ (λ _. rest)
        (λ _. (
          All-sort le_text (λ p. Granted rows table p) _
              (All-tabulate _ _ (λ p m. h p (In-elem p ps (In-of_keep _ p ps m).0))),
          rest,
        ))

check_privileges-Granted :
    (g : Grants) (tables : Dict String) (declared : Option (Dict (List String)))
    → FindingsGranted g.rows (check_privileges (some g) tables declared)
unfolding check_privileges
check_privileges-Granted g tables declared =
    by_test (FindingsGranted g.rows) (is_empty (wanted_tables tables)) _ _ (λ _. tt)
      (λ _.
        findings_of-Granted g.rows (declared_or_default declared) (wanted_tables tables)
          g.current_user _
          (All-sort _ (EntryGranted g.rows) _
            (held_privileges-Granted g.rows [] g.rows (All-tabulate _ _ (λ row m. m)) tt)))

-- The check of the serving identity's grants is exact. Every excess is reported: a privilege that it
-- holds on one of the governed tables, and that the declared set for that table does not name, is in
-- the finding for the table. And nothing else is: every privilege that a finding names is one that
-- was granted on its table and that the declared set for the table does not name. Some table is
-- governed.
pub check_privileges_exact :
    (grants : Grants) (tables : Dict String) (declared : Option (Dict (List String)))
    → is_empty (wanted_tables tables) ≡ false
    → ((table privilege : String)
        → In (table, privilege) grants.rows
        → elem
            (upper privilege)
            (permitted_on (declared_or_default declared) (wanted_tables tables) table)
          ≡ false
        → Reported table (upper privilege) (check_privileges (some grants) tables declared))
      × Unpermitted
          (declared_or_default declared)
          (wanted_tables tables)
          (check_privileges (some grants) tables declared)
      × FindingsGranted grants.rows (check_privileges (some grants) tables declared)
check_privileges_exact grants tables declared some_table = (
  λ table privilege m k.
      check_privileges-Reported grants tables declared table privilege some_table m k,
  check_privileges-Unpermitted (some grants) tables declared,
  check_privileges-Granted grants tables declared,
)
