-- ===== src/ThorClient/NameMaps.antt =====
-- What is found in the map of names of resolveNamesInClauses (transactions/transactions-module.ts).
use vechain_sdk_js.Prelude.{
  ◌≡◌, refl, ap, sym, ◌∙◌, subst, Bool, true, false, ◌&&◌, ◌||◌, not, Bool-cases, inl, inr, Option,
  none, some, List, [], ◌∷◌, map, if◌then◌else◌,
}
use vechain_sdk_js.Text.{Text, text_eq}
use vechain_sdk_js.Text.Equality.{text_eq_refl, text_eq-false, eq_of-text_eq}
use vechain_sdk_js.Transaction.Gas.{includes_dot}
use vechain_sdk_js.Provider.Details.{TransactionClause}
use vechain_sdk_js.ThorClient.Blocks.{has}
use vechain_sdk_js.ThorClient.Names.{
  NameMap, lookup, set_name, keys, is_there, collect_name, collect_names, set_address,
  set_addresses,
}

lookup-set_name :
    (t k v : Text) (m : NameMap)
    → lookup t (set_name k v m) ≡ (if text_eq k t then some v else lookup t m)
unfolding lookup set_name
lookup-set_name t k v [] = refl
lookup-set_name t k v ((j, w) ∷ m) = elim (Bool-cases (text_eq j k)) [
  | inl same ↦
      let e = eq_of-text_eq j k same in
      rw same (elim (Bool-cases (text_eq k t)) [
        | inl kt ↦ let jt = subst (λ x. text_eq x t ≡ true) (sym e) kt in rw (jt, kt) refl
        | inr kt ↦ let jt = subst (λ x. text_eq x t ≡ false) (sym e) kt in rw (jt, kt) refl
      ])
  | inr differ ↦
      rw (differ, lookup-set_name t k v m)
        (elim (Bool-cases (text_eq j t)) [
          | inl jt ↦
              let differ' = subst (λ x. text_eq x k ≡ false) (eq_of-text_eq j t jt) differ in
              rw (jt, text_eq-false t k differ') refl
          | inr jt ↦ rw jt refl
        ])
]

-- What is found after the addresses of all names have been set.
abbrev pub or_else : Option Text → Option Text → Option Text
or_else none o = o
or_else (some a) o = some a

or_else-twice : (o p : Option Text) → or_else o (or_else o p) ≡ or_else o p
or_else-twice none p = refl
or_else-twice (some a) p = refl

or_else-none : (o : Option Text) → or_else o none ≡ o
or_else-none none = refl
or_else-none (some a) = refl

if_same {ℓ} : {A : Type ℓ} (b : Bool) (x : A) → (if b then x else x) ≡ x
if_same true x = refl
if_same false x = refl

lookup-set_address :
    (t n : Text) (o : Option Text) (m : NameMap)
    → lookup t (set_address n o m) ≡ (if text_eq n t then or_else o (lookup t m) else lookup t m)
lookup-set_address t n none m = sym (if_same (text_eq n t) (lookup t m))
lookup-set_address t n (some a) m = lookup-set_name t n a m

pub lookup-set_addresses :
    (f : Text → Option Text) (t : Text) (ns : List Text) (m : NameMap)
    → lookup t (set_addresses m ns (map f ns))
      ≡ (if has t ns then or_else (f t) (lookup t m) else lookup t m)
unfolding set_addresses has
lookup-set_addresses f t [] m = refl
lookup-set_addresses f t (n ∷ ns) m =
    lookup-set_addresses f t ns (set_address n (f n) m) ∙ elim (Bool-cases (text_eq n t)) [
      | inl same ↦
          let here : lookup t (set_address n (f n) m) ≡ or_else (f t) (lookup t m) =
            lookup-set_address t n (f n) m
            ∙ rw same (ap (λ x. or_else (f x) (lookup t m)) (eq_of-text_eq n t same)) in
          rw (here, same, or_else-twice (f t) (lookup t m))
            (if_same (has t ns) (or_else (f t) (lookup t m)))
      | inr differ ↦
          let here : lookup t (set_address n (f n) m) ≡ lookup t m =
            lookup-set_address t n (f n) m ∙ rw differ refl in
          rw (here, differ) refl
    ]

pub has-keys : (t : Text) (m : NameMap) → has t (keys m) ≡ is_there (lookup t m)
unfolding has keys lookup
has-keys t [] = refl
has-keys t ((k, v) ∷ m) = elim (Bool-cases (text_eq k t)) [
  | inl same ↦ rw same refl
  | inr differ ↦ rw (differ, has-keys t m) refl
]

and_false : (a : Bool) → (a && false) ≡ false
and_false true = refl
and_false false = refl

-- The recipient is the name, and it occurs among the clauses.
abbrev pub is_to : Option Text → Text → Bool
is_to none t = false
is_to (some to) t = text_eq to t

unfoldable pub occurs : Text → List TransactionClause → Bool
occurs t [] = false
occurs t (clause ∷ clauses) = is_to clause.to t || occurs t clauses

abbrev pub named : Text → Bool → Option Text
named t b = if includes_dot t && b then some t else none

lookup-set_if :
    (t : Text) (m : NameMap) (c : Bool)
    → lookup t (if c then set_name t t m else m) ≡ (if c then some t else lookup t m)
lookup-set_if t m true = lookup-set_name t t t m ∙ rw (text_eq_refl t) refl
lookup-set_if t m false = refl

or_else-collected :
    (t : Text) (o : Option Text) (d b : Bool)
    → or_else (if not (is_there o) && d then some t else o) (if d && b then some t else none)
      ≡ or_else o (if d && true then some t else none)
or_else-collected t none true b = refl
or_else-collected t none false b = refl
or_else-collected t (some a) d b = refl

lookup-collect_to :
    (t : Text) (m : NameMap) (b : Bool)
    → or_else (lookup t (collect_name m (some t))) (named t b) ≡ or_else (lookup t m) (named t true)
unfolding collect_name
lookup-collect_to t m b =
    ap (λ o. or_else o (named t b)) (lookup-set_if t m _)
    ∙ or_else-collected t (lookup t m) (includes_dot t) b

lookup-set_other :
    (t to : Text) (m : NameMap) (c : Bool)
    → text_eq to t ≡ false
    → lookup t (if c then set_name to to m else m) ≡ lookup t m
lookup-set_other t to m true differ = lookup-set_name t to to m ∙ rw differ refl
lookup-set_other t to m false differ = refl

lookup-collect_name :
    (t : Text) (to : Option Text) (m : NameMap) (b : Bool)
    → or_else (lookup t (collect_name m to)) (named t b)
      ≡ or_else (lookup t m) (named t (is_to to t || b))
unfolding collect_name
lookup-collect_name t none m b = refl
lookup-collect_name t (some to) m b = elim (Bool-cases (text_eq to t)) [
  | inl same ↦
      ap (λ x. or_else (lookup t (collect_name m (some x))) (named t b)) (eq_of-text_eq to t same)
      ∙ lookup-collect_to t m b
      ∙ ap (λ c. or_else (lookup t m) (named t (c || b))) (sym same)
  | inr differ ↦
      ap (λ o. or_else o (named t b)) (lookup-set_other t to m _ differ)
      ∙ ap (λ c. or_else (lookup t m) (named t (c || b))) (sym differ)
]

pub lookup-collect_names :
    (t : Text) (clauses : List TransactionClause) (m : NameMap)
    → lookup t (collect_names m clauses) ≡ or_else (lookup t m) (named t (occurs t clauses))
unfolding collect_names occurs
lookup-collect_names t [] m = sym (
    ap (λ c. or_else (lookup t m) (if c then some t else none)) (and_false (includes_dot t))
    ∙ or_else-none (lookup t m))
lookup-collect_names t (clause ∷ clauses) m =
    lookup-collect_names t clauses (collect_name m clause.to)
    ∙ lookup-collect_name t clause.to m (occurs t clauses)
