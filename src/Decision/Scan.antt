-- ===== src/Decision/Scan.antt =====
-- The loop over the matched policies and the truth table of the decision.
use standalone_policy_engine.Base.{
  ◌≡◌, ◌≢◌, refl, ◌⊎◌, inl, inr, ◌↔◌, Bool, true, false, Option, none, some, List, [], ◌∷◌, In,
  arith,
}
use standalone_policy_engine.Ast.{PolicyNode, Effect, permit, forbid}
use standalone_policy_engine.Platform.{Platform}
use standalone_policy_engine.Evaluator.{EvalContext}
use standalone_policy_engine.Decision.{
  allow, deny_forbid, DecisionResult, is_satisfied, Firsts, or_first, scan, explain, decide_by,
}

-- A satisfied policy of this effect is among the policies.
abbrev pub HasSatisfied : Platform → EvalContext → Effect → List PolicyNode → Type 0
HasSatisfied lib c e ps =
    (p : PolicyNode) × In p ps × (p.effect ≡ e) × (is_satisfied lib c p ≡ true)

or_first_cases :
    (first : Option PolicyNode) (p q : PolicyNode)
    → or_first first p ≡ some q
    → (first ≡ some q) ⊎ (p ≡ q)
or_first_cases none p q h = inr (cc)
or_first_cases (some r) p q h = inl h

or_first-ne-none : (first : Option PolicyNode) (p : PolicyNode) → or_first first p ≢ none
or_first-ne-none none p h = cc
or_first-ne-none (some r) p h = cc

module _ (lib : Platform) (c : EvalContext) where
  -- What the loop ends with: the first satisfied forbid, or none and the first satisfied permit.
  pub record IsScan (ps : List PolicyNode) (first : Option PolicyNode) (f : Firsts) : Type 0 where
    pub forbids :
        (p : PolicyNode)
        → f.first_forbid ≡ some p
        → In p ps × (p.effect ≡ forbid) × (is_satisfied lib c p ≡ true)
    pub no_forbid : f.first_forbid ≡ none → ¬ HasSatisfied lib c forbid ps
    pub permits :
        (p : PolicyNode)
        → f.first_permit ≡ some p
        → (first ≡ some p) ⊎ (In p ps × (p.effect ≡ permit) × (is_satisfied lib c p ≡ true))
    pub no_permit :
        f.first_forbid ≡ none
        → f.first_permit ≡ none
        → (first ≡ none) × (¬ HasSatisfied lib c permit ps)

  abbrev pub Satisfies : Effect → List PolicyNode → PolicyNode → Type 0
  Satisfies e ps p = In p ps × (p.effect ≡ e) × (is_satisfied lib c p ≡ true)

  -- A satisfied policy of the tail, or the head.
  tail_or_head :
      (e : Effect) (p : PolicyNode) (ps : List PolicyNode)
      → HasSatisfied lib c e (p ∷ ps)
      → HasSatisfied lib c e ps ⊎ ((p.effect ≡ e) × (is_satisfied lib c p ≡ true))
  tail_or_head e p ps (q, inl h, f, s) = inr (rw h at f, rw h at s)
  tail_or_head e p ps (q, inr m, f, s) = inl (q, m, f, s)

  scan-forbid :
      (p : PolicyNode) (ps : List PolicyNode) (first : Option PolicyNode)
      → is_satisfied lib c p ≡ true
      → p.effect ≡ forbid
      → scan lib c (p ∷ ps) first ≡ record { first_forbid = some p; first_permit = first }
  unfolding scan
  scan-forbid p ps first s f = ground arith

  scan-permit :
      (p : PolicyNode) (ps : List PolicyNode) (first : Option PolicyNode)
      → is_satisfied lib c p ≡ true
      → p.effect ≡ permit
      → scan lib c (p ∷ ps) first ≡ scan lib c ps (or_first first p)
  unfolding scan
  scan-permit p ps first s f = ground arith

  scan-skip :
      (p : PolicyNode) (ps : List PolicyNode) (first : Option PolicyNode)
      → is_satisfied lib c p ≡ false
      → scan lib c (p ∷ ps) first ≡ scan lib c ps first
  unfolding scan
  scan-skip p ps first s = ground arith

  scan_cons :
      (p : PolicyNode) (ps : List PolicyNode) (first : Option PolicyNode) (b : Bool) (e : Effect)
      → is_satisfied lib c p ≡ b
      → p.effect ≡ e
      → ((k : Option PolicyNode) → IsScan ps k (scan lib c ps k))
      → IsScan (p ∷ ps) first (scan lib c (p ∷ ps) first)
  scan_cons p ps first true forbid s f ih = rw (scan-forbid p ps first s f) (record {
    forbids = λ q h. let k : p ≡ q = cc in rw (← k) (inl refl, f, s);
    no_forbid = λ h. absurd (cc);
    permits = λ q h. inl h;
    no_permit = λ h. absurd (cc);
  })
  scan_cons p ps first true permit s f ih = rw (scan-permit p ps first s f) (record {
    forbids = λ q h. let (m, g, t) = (ih (or_first first p)).forbids q h in (inr m, g, t);
    no_forbid = λ h k. elim (tail_or_head forbid p ps k) [
      | inl t ↦ (ih (or_first first p)).no_forbid h t
      | inr (g, t) ↦ cc
    ];
    permits = λ q h. elim ((ih (or_first first p)).permits q h) [
      | inl k ↦ elim (or_first_cases first p q k) [
        | inl old ↦ inl old
        | inr new ↦ inr (rw (← new) (inl refl, f, s))
      ]
      | inr (m, g, t) ↦ inr (inr m, g, t)
    ];
    no_permit = λ h k. absurd (or_first-ne-none first p ((ih (or_first first p)).no_permit h k).0);
  })
  scan_cons p ps first false e s f ih = rw (scan-skip p ps first s) (record {
    forbids = λ q h. let (m, g, t) = (ih first).forbids q h in (inr m, g, t);
    no_forbid = λ h k. elim (tail_or_head forbid p ps k) [
      | inl t ↦ (ih first).no_forbid h t
      | inr (g, t) ↦ cc
    ];
    permits =
        λ q h. elim ((ih first).permits q h) [ inl k ↦ inl k | inr (m, g, t) ↦ inr (inr m, g, t) ];
    no_permit = λ h k.
        let (n, none_later) = (ih first).no_permit h k in
        (n, λ a. elim (tail_or_head permit p ps a) [ inl t ↦ none_later t | inr (g, t) ↦ cc ]);
  })

  pub scan-IsScan :
      (ps : List PolicyNode) (first : Option PolicyNode) → IsScan ps first (scan lib c ps first)
  unfolding scan
  scan-IsScan [] first = record {
    forbids = λ p h. cc;
    no_forbid = λ h (p, m, e, s). absurd m;
    permits = λ p h. inl h;
    no_permit = λ h k. (k, λ (p, m, e, s). absurd m);
  }
  scan-IsScan (p ∷ ps) first =
      scan_cons p ps first (is_satisfied lib c p) p.effect refl refl (λ k. scan-IsScan ps k)

  -- The policy that a result names: its explanation and its obligations.
  abbrev pub IsNamed : Effect → List PolicyNode → DecisionResult → Type 0
  IsNamed e ps r =
      (p : PolicyNode) × Satisfies e ps p
      × (r.explanations ≡ explain p)
      × (r.obligations ≡ p.obligations)

  -- What the decision over these policies states.
  pub record IsJustified (ps : List PolicyNode) (r : DecisionResult) : Type 0 where
    pub allowed :
        r.decision ≡ allow ↔ (HasSatisfied lib c permit ps × (¬ HasSatisfied lib c forbid ps))
    pub forbidden : r.reason ≡ deny_forbid ↔ HasSatisfied lib c forbid ps
    pub named_permit : r.decision ≡ allow → IsNamed permit ps r
    pub named_forbid : r.reason ≡ deny_forbid → IsNamed forbid ps r

  satisfied :
      (e : Effect) (ps : List PolicyNode) (p : PolicyNode)
      → Satisfies e ps p
      → HasSatisfied lib c e ps
  satisfied e ps p (m, g, t) = (p, m, g, t)

  first_permit_satisfied :
      (ps : List PolicyNode) (f : Firsts) (p : PolicyNode)
      → IsScan ps none f
      → f.first_permit ≡ some p
      → Satisfies permit ps p
  first_permit_satisfied ps f p h e = elim (h.permits p e) [ inl k ↦ absurd (cc) | inr m ↦ m ]

  pub by_firsts :
      (ps : List PolicyNode) (f : Firsts) (u v : Option PolicyNode)
      → f.first_forbid ≡ u
      → f.first_permit ≡ v
      → IsScan ps none f
      → IsJustified ps (decide_by f)
  unfolding decide_by
  by_firsts ps f (some p) v eu ev h =
      rw (eu, decide_by)
        (record {
          allowed = (λ k. cc, λ k. absurd (k.1 (satisfied forbid ps p (h.forbids p eu))));
          forbidden = (λ k. satisfied forbid ps p (h.forbids p eu), λ k. refl);
          named_permit = λ k. cc;
          named_forbid = λ k. (p, h.forbids p eu, refl, refl);
        })
  by_firsts ps f none (some p) eu ev h =
      rw (eu, ev, decide_by)
        (record {
          allowed = (
            λ k. (satisfied permit ps p (first_permit_satisfied ps f p h ev), h.no_forbid eu),
            λ k. refl,
          );
          forbidden = (λ k. cc, λ k. absurd (h.no_forbid eu k));
          named_permit = λ k. (p, first_permit_satisfied ps f p h ev, refl, refl);
          named_forbid = λ k. cc;
        })
  by_firsts ps f none none eu ev h =
      rw (eu, ev, decide_by)
        (record {
          allowed = (λ k. cc, λ k. absurd ((h.no_permit eu ev).1 k.0));
          forbidden = (λ k. cc, λ k. absurd (h.no_forbid eu k));
          named_permit = λ k. cc;
          named_forbid = λ k. cc;
        })
