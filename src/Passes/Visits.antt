-- ===== src/Passes/Visits.antt =====
-- odb-compiler/src/astpost/: which trees the passes let through.
use open_dark_basic.Prelude.{
  ◌≡◌, ◌↔◌, ◌⊎◌, inl, inr, refl, sym, ap, ◌∙◌, subst, Bool, true, Option, none, some, arith,
}
use open_dark_basic.Passes.{
  NodeKind, Nodes, Visitor, and_then, accept, visit_select, enforce_single_default_case,
}

-- A node with these children stands somewhere among the nodes.
abbrev pub Occurs : NodeKind → Nodes → Nodes → Type 0
Occurs k cs Nodes.nil = ⊥
Occurs k cs (Nodes.node k' cs' rest) =
    ((k ≡ k') × (cs ≡ cs')) ⊎ (Occurs k cs cs' ⊎ Occurs k cs rest)

-- Every node that stands somewhere among the nodes is fine.
abbrev pub EveryNode : (NodeKind → Nodes → Type 0) → Nodes → Type 0
EveryNode Ok root = (k : NodeKind) (cs : Nodes) → Occurs k cs root → Ok k cs

-- A step passes when the flag was set and its condition holds.
abbrev pub Passes : (Bool → Option Bool) → Type 0 → Type 0
Passes f P = (s : Bool) → (f s ≡ some true) ↔ ((s ≡ true) × P)

Passes-then :
    (f g : Bool → Option Bool) (P Q : Type 0)
    → Passes f P
    → Passes g Q
    → Passes (λ s. and_then (f s) g) (P × Q)
Passes-then f g P Q hf hg s = (there (f s) refl, back_again)
  where
    there : (o : Option Bool) → f s ≡ o → and_then o g ≡ some true → (s ≡ true) × (P × Q)
    there none e h = cc
    there (some b) e h =
        let (t, q) = (hg b).0 h in let (u, p) = (hf s).0 (e ∙ ap some t) in (u, (p, q))

    back_again : (s ≡ true) × (P × Q) → and_then (f s) g ≡ some true
    back_again (t, (p, q)) = ap (λ o. and_then o g) ((hf s).1 (t, p)) ∙ (hg true).1 (refl, q)

-- A visit passes when each node does.
module _ (v : Visitor) (Ok : NodeKind → Nodes → Type 0)
    (visits : (k : NodeKind) (cs : Nodes) → Passes (v k cs) (Ok k cs)) where
  AllOk : Nodes → Type 0
  AllOk Nodes.nil = Unit
  AllOk (Nodes.node k cs rest) = Ok k cs × (AllOk cs × AllOk rest)

  accept-Passes : (root : Nodes) → Passes (accept v root) (AllOk root)
  unfolding accept AllOk
  accept-Passes Nodes.nil s = (λ h. (cc, tt), λ h. cc)
  accept-Passes (Nodes.node k cs rest) s =
      Passes-then (v k cs) (λ s. and_then (accept v cs s) (accept v rest)) (Ok k cs)
        (AllOk cs × AllOk rest) (visits k cs)
        (Passes-then (accept v cs) (accept v rest) (AllOk cs) (AllOk rest) (accept-Passes cs)
          (accept-Passes rest))
        s

  AllOk→EveryNode : (root : Nodes) → AllOk root → EveryNode Ok root
  unfolding AllOk
  AllOk→EveryNode Nodes.nil h k cs i = absurd i
  AllOk→EveryNode (Nodes.node k' cs' rest) h k cs (inl e) =
      subst (λ c. Ok k c) (sym e.1) (subst (λ x. Ok x cs') (sym e.0) h.0)
  AllOk→EveryNode (Nodes.node k' cs' rest) h k cs (inr (inl i)) = AllOk→EveryNode cs' h.1.0 k cs i
  AllOk→EveryNode (Nodes.node k' cs' rest) h k cs (inr (inr i)) = AllOk→EveryNode rest h.1.1 k cs i

  EveryNode→AllOk : (root : Nodes) → EveryNode Ok root → AllOk root
  unfolding AllOk
  EveryNode→AllOk Nodes.nil h = tt
  EveryNode→AllOk (Nodes.node k cs rest) h = (
    h k cs (inl (refl, refl)),
    (
      EveryNode→AllOk cs (λ k' cs' i. h k' cs' (inr (inl i))),
      EveryNode→AllOk rest (λ k' cs' i. h k' cs' (inr (inr i))),
    ),
  )

  pub accept_iff : (root : Nodes) → (accept v root true ≡ some true) ↔ EveryNode Ok root
  accept_iff root = (
    λ h. AllOk→EveryNode root ((accept-Passes root true).0 h).1,
    λ h. (accept-Passes root true).1 (refl, EveryNode→AllOk root h),
  )

-- A select has a list of cases with one default case.
abbrev pub HasOneDefault : NodeKind → Nodes → Type 0
HasOneDefault (NodeKind.select n) cs = n ≡ some 1
HasOneDefault _ cs = Unit

abbrev pub Free : Type 0
Free = Unit

pub always : Passes some Free
always s = (λ h. (cc, tt), λ h. ap some h.0)

visit_select-Passes : (k : NodeKind) (cs : Nodes) → Passes (visit_select k cs) (HasOneDefault k cs)
unfolding visit_select
visit_select-Passes (NodeKind.select none) cs s = (λ h. cc, λ h. cc)
visit_select-Passes (NodeKind.select (some n)) cs s = (λ h. ground arith, λ h. ground arith)
visit_select-Passes (NodeKind.var_ref a) cs s = always s
visit_select-Passes (NodeKind.array_ref a) cs s = always s
visit_select-Passes (NodeKind.func_call_expr a) cs s = always s
visit_select-Passes (NodeKind.func_call_stmnt a) cs s = always s
visit_select-Passes (NodeKind.func_call_expr_or_array_ref a) cs s = always s
visit_select-Passes (NodeKind.command_expr a) cs s = always s
visit_select-Passes (NodeKind.command_stmnt a) cs s = always s
visit_select-Passes NodeKind.udt_field_outer cs s = always s
visit_select-Passes NodeKind.udt_field_inner cs s = always s
visit_select-Passes NodeKind.other_node cs s = always s

-- EnforceSingleDefaultCase lets a tree through exactly when every select in it, nested ones
-- included, has a list of cases with exactly one default case.
pub enforce_single_default_case_iff :
    (root : Nodes) → (enforce_single_default_case root ≡ some true) ↔ EveryNode HasOneDefault root
unfolding enforce_single_default_case
enforce_single_default_case_iff = accept_iff visit_select HasOneDefault visit_select-Passes
