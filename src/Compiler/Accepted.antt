-- ===== src/Compiler/Accepted.antt =====
-- What Compile has checked of the policies that it returns.
use standalone_policy_engine.Base.{
  ◌≤◌, ◌≡◌, refl, inl, inr, true, false, none, List, [], ◌∷◌, length, map, In, Bool-cases,
  Option-cases, arith,
}
use standalone_policy_engine.Base.Text.{Text}
use standalone_policy_engine.Ast.{Node, absent, ObligationNode, PolicyNode}
use standalone_policy_engine.Platform.{Platform}
use standalone_policy_engine.Dag.{member}
use standalone_policy_engine.Dag.Lookup.{member_iff}
use standalone_policy_engine.Compiler.{
  known_obligations, check_obligations, validate_policy_obligations, check_depth, optimize_node,
  compiled, is_absent, compile_condition, compile,
}
use standalone_policy_engine.Compiler.Depth.{depth, check_depth_iff}

-- No text occurs twice.
abbrev pub IsDistinct : List Text → Type 0
IsDistinct [] = Unit
IsDistinct (k ∷ ks) = (¬ In k ks) × IsDistinct ks

-- An obligation of a known type with a message of at most 256 bytes.
abbrev pub IsKnown : ObligationNode → Type 0
IsKnown o = In o.kind known_obligations × (length o.message ≤ 256)

-- The obligations pass the loop over the types already seen.
pub record IsChecked (seen : List Text) (os : List ObligationNode) : Type 0 where
  pub known : (o : ObligationNode) → In o os → IsKnown o
  pub fresh : (k : Text) → In k seen → ¬ In k (map (λ o. o.kind) os)
  pub distinct : IsDistinct (map (λ o. o.kind) os)

-- The tests of one round.
round_passed :
    (seen : List Text) (o : ObligationNode) (os : List ObligationNode)
    → check_obligations seen (o ∷ os) ≡ none
    → (member o.kind known_obligations ≡ true)
      × (member o.kind seen ≡ false)
      × (length o.message ≤ 256)
      × (check_obligations (o.kind ∷ seen) os ≡ none)
unfolding check_obligations
round_passed seen o os e = ground arith

check_obligations-IsChecked :
    (seen : List Text) (os : List ObligationNode)
    → check_obligations seen os ≡ none
    → IsChecked seen os
check_obligations-IsChecked seen [] e = record {
  known = λ o m. absurd m;
  fresh = λ k m n. n;
  distinct = tt;
}
check_obligations-IsChecked seen (o ∷ os) e =
    let (k, s, m, more) = round_passed seen o os e in
    let rest = check_obligations-IsChecked (o.kind ∷ seen) os more in
    record {
      known = λ x i. elim i [
        | inl q ↦ rw q ((member_iff o.kind known_obligations).0 k, m)
        | inr i ↦ rest.known x i
      ];
      fresh = λ j i n. elim n [
        | inl q ↦ (let t = (member_iff o.kind seen).1 (rw (← q) i) in cc)
        | inr n ↦ rest.fresh j (inr i) n
      ];
      distinct = (rest.fresh o.kind (inl refl), rest.distinct);
    }

-- `q` may be loaded in place of `p`.
pub record IsAccepted (p q : PolicyNode) : Type 0 where
  pub few : length p.obligations ≤ 4
  pub known : (o : ObligationNode) → In o p.obligations → IsKnown o
  pub distinct : IsDistinct (map (λ o. o.kind) p.obligations)
  pub shallow : depth p.condition ≤ 15
  pub same_obligations : q.obligations ≡ p.obligations
  pub same_effect : (q.effect ≡ p.effect) × (q.is_unless ≡ p.is_unless)
  pub same_scopes : (q.principal ≡ p.principal) × (q.action ≡ p.action) × (q.resource ≡ p.resource)
  pub explained : q.explanation_list ≡ p.id ∷ []

obligations_passed :
    (os : List ObligationNode)
    → validate_policy_obligations os ≡ none
    → (length os ≤ 4) × (check_obligations [] os ≡ none)
unfolding validate_policy_obligations
obligations_passed os e = ground arith

accepted :
    (p q : PolicyNode) (n : Node) (attrs : List Text)
    → validate_policy_obligations p.obligations ≡ none
    → depth p.condition ≤ 15
    → record p { condition = n; required_attributes = attrs; explanation_list = p.id ∷ [] } ≡ q
    → IsAccepted p q
accepted p q n attrs e d h =
    let (l, k) = obligations_passed p.obligations e in
    let c = check_obligations-IsChecked [] p.obligations k in
    rw (← h) (record {
      few = l;
      known = c.known;
      distinct = c.distinct;
      shallow = d;
      same_obligations = refl;
      same_effect = (refl, refl);
      same_scopes = (refl, refl, refl);
      explained = refl;
    })

absent_shallow : (n : Node) → is_absent n ≡ true → depth n ≤ 15
unfolding depth
absent_shallow absent e = omega arith
absent_shallow _ e = absurd (cc)

compiled_eq : (a b : PolicyNode) → compiled a ≡ compiled b → a ≡ b
compiled_eq a b e = cc

-- A policy that Compile returns had at most four obligations, of distinct known types and with
-- messages of at most 256 bytes, and a condition of at most 15 levels. Compile keeps its effect, its
-- scopes and its obligations, and its explanation is its id.
pub compile-IsAccepted :
    (lib : Platform) (p q : PolicyNode) → compile lib p ≡ compiled q → IsAccepted p q
unfolding compile compile_condition
compile-IsAccepted lib p q h = elim (Option-cases (validate_policy_obligations p.obligations)) [
  | inr (d, e) ↦ absurd (let k = rw (e, compile) at h in cc)
  | inl e ↦ elim (Bool-cases (is_absent p.condition)) [
    | inl a ↦
        accepted p q p.condition p.required_attributes e (absent_shallow p.condition a)
          (compiled_eq _ q (let k = rw (e, a, compile) at h in k))
    | inr a ↦ elim (Bool-cases (check_depth p.condition 1)) [
      | inr d ↦ absurd (let k = rw (e, a, d, compile, compile_condition) at h in cc)
      | inl d ↦ elim (Bool-cases (optimize_node lib p.condition).1) [
        | inl c ↦ absurd (let k = rw (e, a, d, c, compile, compile_condition) at h in cc)
        | inr c ↦
            accepted p q _ _ e ((check_depth_iff p.condition).0 d)
              (compiled_eq _ q (let k = rw (e, a, d, c, compile, compile_condition) at h in k))
      ]
    ]
  ]
]
