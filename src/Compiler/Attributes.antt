-- ===== src/Compiler/Attributes.antt =====
-- The attributes that Compile extracts from a condition.
use Prim.Native.Nat.{Ordering}
use standalone_policy_engine.Base.{◌≡◌, refl, ◌⊎◌, inl, inr, ◌↔◌, List, [], ◌∷◌, In, Bool-cases}
use standalone_policy_engine.Base.Text.{Text, text_compare}
use standalone_policy_engine.Ast.{Node, absent, value, variable, unary, binary, VarScope}
use standalone_policy_engine.Dag.{member}
use standalone_policy_engine.Dag.Lookup.{member_iff}
use standalone_policy_engine.Platform.{Platform}
use standalone_policy_engine.Evaluator.{EvalContext, attribute_of, evaluate}
use standalone_policy_engine.Evaluator.Agree.{SameRequest, Agrees, evaluate-same}
use standalone_policy_engine.Compiler.{
  collect_fields, insert_sorted, sort_strings, extract_required_attributes,
}

-- The condition has a variable of this field.
abbrev pub Reads : Text → Node → Type 0
Reads f (variable scope field) = f ≡ field
Reads f (unary op child) = Reads f child
Reads f (binary op left right) = Reads f left ⊎ Reads f right
Reads f node = ⊥

In-insert_sorted : (f a : Text) (bs : List Text) → In f (insert_sorted a bs) ↔ ((f ≡ a) ⊎ In f bs)
unfolding insert_sorted
In-insert_sorted f a [] = (λ m. m, λ m. m)
In-insert_sorted f a (b ∷ bs) = go (text_compare b a) (In-insert_sorted f a bs)
  where
    go :
        (o : Ordering)
        → In f (insert_sorted a bs) ↔ ((f ≡ a) ⊎ In f bs)
        → In f (elim o [ Ordering.lt ↦ b ∷ insert_sorted a bs | _ ↦ a ∷ b ∷ bs ])
          ↔ ((f ≡ a) ⊎ ((f ≡ b) ⊎ In f bs))
    go Ordering.lt h = (
      elim [ inl e ↦ inr (inl e) | inr m ↦ elim (h.0 m) [ inl e ↦ inl e | inr k ↦ inr (inr k) ] ],
      elim [
        | inl e ↦ inr (h.1 (inl e))
        | inr m ↦ elim m [ inl e ↦ inl e | inr k ↦ inr (h.1 (inr k)) ]
      ],
    )
    go o h = (λ m. m, λ m. m)

In-sort_strings : (f : Text) (as' : List Text) → In f (sort_strings as') ↔ In f as'
unfolding sort_strings
In-sort_strings f [] = (λ m. m, λ m. m)
In-sort_strings f (a ∷ as') =
    let h = In-insert_sorted f a (sort_strings as') in
    let ih = In-sort_strings f as' in
    (
      λ m. elim (h.0 m) [ inl e ↦ inl e | inr k ↦ inr (ih.0 k) ],
      elim [ inl e ↦ h.1 (inl e) | inr k ↦ h.1 (inr (ih.1 k)) ],
    )

In-collect_fields :
    (f : Text) (n : Node) (seen : List Text)
    → In f (collect_fields n seen) ↔ (Reads f n ⊎ In f seen)
unfolding collect_fields
In-collect_fields f absent seen = (inr, elim [ inl r ↦ absurd r | inr m ↦ m ])
In-collect_fields f (value v) seen = (inr, elim [ inl r ↦ absurd r | inr m ↦ m ])
In-collect_fields f (variable scope field) seen = elim (Bool-cases (member field seen)) [
  | inl e ↦ rw e (inr, elim [ inl r ↦ rw r ((member_iff field seen).0 e) | inr m ↦ m ])
  | inr e ↦ rw e (λ m. m, λ m. m)
]
In-collect_fields f (unary op child) seen = In-collect_fields f child seen
In-collect_fields f (binary op left right) seen =
    let r = In-collect_fields f right (collect_fields left seen) in
    let l = In-collect_fields f left seen in
    (
      λ m. elim (r.0 m) [
        | inl k ↦ inl (inr k)
        | inr k ↦ elim (l.0 k) [ inl j ↦ inl (inl j) | inr j ↦ inr j ]
      ],
      elim [
        | inl k ↦ elim k [ inl j ↦ r.1 (inr (l.1 (inl j))) | inr j ↦ r.1 (inl j) ]
        | inr m ↦ r.1 (inr (l.1 (inr m)))
      ],
    )

-- The extracted attributes are exactly the fields of the condition's variables.
pub In-extract_required_attributes :
    (f : Text) (n : Node) → In f (extract_required_attributes n) ↔ Reads f n
unfolding extract_required_attributes
In-extract_required_attributes f n =
    let s = In-sort_strings f (collect_fields n []) in
    let h = In-collect_fields f n [] in
    (λ m. elim (h.0 (s.0 m)) [ inl r ↦ r | inr k ↦ absurd k ], λ r. s.1 (h.1 (inl r)))

Reads-Agrees :
    (c d : EvalContext) (n : Node)
    → ((f : Text) (scope : VarScope) → Reads f n → attribute_of c scope f ≡ attribute_of d scope f)
    → Agrees c d n
Reads-Agrees c d absent h = tt
Reads-Agrees c d (value v) h = tt
Reads-Agrees c d (variable scope field) h = h field scope refl
Reads-Agrees c d (unary op child) h = Reads-Agrees c d child h
Reads-Agrees c d (binary op left right) h = (
  Reads-Agrees c d left (λ f scope r. h f scope (inl r)),
  Reads-Agrees c d right (λ f scope r. h f scope (inr r)),
)

-- The extracted attributes are enough: two requests of one subject for one resource under one role
-- hierarchy that agree on them, in each scope, give the condition the same value.
pub required_attributes_suffice :
    (lib : Platform) (c d : EvalContext) (n : Node)
    → SameRequest c d
    → ((f : Text) (scope : VarScope)
        → In f (extract_required_attributes n)
        → attribute_of c scope f ≡ attribute_of d scope f)
    → evaluate lib c n ≡ evaluate lib d n
required_attributes_suffice lib c d n same h =
    evaluate-same lib c d same n
      (Reads-Agrees c d n (λ f scope r. h f scope ((In-extract_required_attributes f n).1 r)))
