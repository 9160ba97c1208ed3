-- ===== src/Expr/Budget.antt =====
-- The step budget of `evalNode` in packages/core/src/expr.ts, against the size of the tree.
use memoturn.Prelude.{
  ℕ, suc, ◌+◌, ◌≤◌, ◌<◌, ◌≡◌, Bool, true, false, ltb, arith, Bool-cases, inl, inr, if◌then◌else◌,
  subst, ◌≢◌,
}
use memoturn.RegExpEngine.{Engine}
use memoturn.Json.{Json}
use memoturn.Expr.Values.{Numbers, truthy}
use memoturn.Expr.Faults.{Fault, Returned, returned, faulted}
use memoturn.Expr.{
  or_op, and_op, compare_op, arith_op, ExprNode, lit, var, member, index, call, negate, not_node,
  bin, cond, Args, no_args, arg, ExprContext, over_budget, fault, Evaluated, thrown, value,
  and_then, spend, give, binary, eval_node, eval_args, evaluate_expression, max_eval_steps,
}

unfoldable mutual
  -- The number of nodes of a tree.
  pub nodes : {Num : Type 0} → ExprNode Num → ℕ
  nodes (lit v) = 1
  nodes (var x) = 1
  nodes (member o name) = suc (nodes o)
  nodes (index o i) = suc (nodes o + nodes i)
  nodes (call f args) = suc (args_nodes args)
  nodes (negate a) = suc (nodes a)
  nodes (not_node a) = suc (nodes a)
  nodes (bin op l r) = suc (nodes l + nodes r)
  nodes (cond test a b) = suc (nodes test + (nodes a + nodes b))

  pub args_nodes : {Num : Type 0} → Args Num → ℕ
  args_nodes no_args = 0
  args_nodes (arg a rest) = nodes a + args_nodes rest

-- An evaluation that starts at step `n` of a tree of `k` nodes: a value comes after at most `k` steps
-- within the budget, and the budget is exceeded only if `n` and `k` together exceed it.
unfoldable pub IsWithin : {A : Type 0} → ℕ → ℕ → Evaluated A → Type 0
IsWithin n k (value v m) = (n ≤ m) × (m ≤ n + k)
IsWithin n k (thrown over_budget) = max_eval_steps < n + k
IsWithin n k (thrown (fault f)) = Unit

IsWithin-more :
    {A : Type 0} (n m a b : ℕ) (o : Evaluated A)
    → n ≤ m
    → m + a ≤ n + b
    → IsWithin m a o
    → IsWithin n b o
unfolding IsWithin
IsWithin-more n m a b (value v x) l le h = omega (arith, h.0, h.1)
IsWithin-more n m a b (thrown over_budget) l le h = omega arith
IsWithin-more n m a b (thrown (fault f)) l le h = tt

IsWithin-spend :
    {A : Type 0} (n k : ℕ) (o : Evaluated A)
    → IsWithin (suc n) k o
    → IsWithin n (suc k) (if ltb max_eval_steps (suc n) then thrown over_budget else o)
unfolding IsWithin
IsWithin-spend n k o h = elim (Bool-cases (ltb max_eval_steps (suc n))) [
  | inl out ↦ rw out (ground arith)
  | inr left ↦ rw left (IsWithin-more n (suc n) k (suc k) o (omega arith) (omega arith) h)
]

IsWithin-and_then :
    {A B : Type 0} (n a b : ℕ) (o : Evaluated A) (k : A → ℕ → Evaluated B)
    → IsWithin n a o
    → ((v : A) (m : ℕ) → IsWithin m b (k v m))
    → IsWithin n (a + b) (and_then o k)
unfolding IsWithin
IsWithin-and_then n a b (thrown over_budget) k h g = omega arith
IsWithin-and_then n a b (thrown (fault f)) k h g = tt
IsWithin-and_then n a b (value v m) k h g =
    IsWithin-more n m b (a + b) (k v m) h.0 (omega (arith, h.1)) (g v m)

IsWithin-give : {A : Type 0} (n : ℕ) (r : Returned A) → IsWithin n 0 (give r n)
unfolding give IsWithin
IsWithin-give n (returned v) = omega arith
IsWithin-give n (faulted f) = tt

module _ (e : Engine) (ns : Numbers) (ctx : ExprContext ns.Num) where
  open ns use {Num}

  -- One operand, then a step that costs nothing.
  IsWithin-unary :
      {A B : Type 0} (n a : ℕ) (o : Evaluated A) (k : A → ℕ → Evaluated B)
      → IsWithin n a o
      → ((v : A) (m : ℕ) → IsWithin m 0 (k v m))
      → IsWithin n a (and_then o k)
  IsWithin-unary n a o k h g =
      IsWithin-more n n (a + 0) a (and_then o k) (omega arith) (omega arith)
        (IsWithin-and_then n a 0 o k h g)

  IsWithin-choice :
      {A : Type 0} (n a b : ℕ) (t : Bool) (x y : Evaluated A)
      → IsWithin n a x
      → IsWithin n b y
      → IsWithin n (a + b) (elim t [ true ↦ x | false ↦ y ])
  IsWithin-choice n a b true x y h g = IsWithin-more n n a (a + b) x (omega arith) (omega arith) h
  IsWithin-choice n a b false x y h g = IsWithin-more n n b (a + b) y (omega arith) (omega arith) g

  IsWithin-pick :
      {A : Type 0} (n k : ℕ) (t : Bool) (x y : Evaluated A)
      → IsWithin n k x
      → IsWithin n k y
      → IsWithin n k (elim t [ true ↦ x | false ↦ y ])
  IsWithin-pick n k true x y h g = h
  IsWithin-pick n k false x y h g = g

  IsWithin-guard :
      {A : Type 0} (n k : ℕ) (t : Bool) (f : Fault) (o : Evaluated A)
      → IsWithin n k o
      → IsWithin n k (elim t [ false ↦ thrown (fault f) | true ↦ o ])
  unfolding IsWithin
  IsWithin-guard n k true f o h = h
  IsWithin-guard n k false f o h = tt

  IsWithin-value : {A : Type 0} (v : A) (n : ℕ) → IsWithin n 0 (value v n)
  unfolding IsWithin
  IsWithin-value v n = omega arith

  mutual
    unfolding eval_node nodes spend

    eval_node-IsWithin :
        (ast : ExprNode Num) (n : ℕ) → IsWithin n (nodes ast) (eval_node e ns ctx ast n)
    eval_node-IsWithin (lit v) n = IsWithin-spend n 0 _ (IsWithin-value v (suc n))
    eval_node-IsWithin (var x) n = IsWithin-spend n 0 _ (IsWithin-value _ (suc n))
    eval_node-IsWithin (member o name) n = IsWithin-spend n (nodes o) _ (
        IsWithin-unary (suc n) (nodes o) _ _ (eval_node-IsWithin o (suc n))
          (λ v m. IsWithin-give m _))
    eval_node-IsWithin (index o i) n = IsWithin-spend n (nodes o + nodes i) _ (
        IsWithin-and_then (suc n) (nodes o) (nodes i) _ _ (eval_node-IsWithin o (suc n)) (λ v m.
          IsWithin-unary m (nodes i) _ _ (eval_node-IsWithin i m) (λ w p. IsWithin-give p _)))
    eval_node-IsWithin (not_node a) n = IsWithin-spend n (nodes a) _ (
        IsWithin-unary (suc n) (nodes a) _ _ (eval_node-IsWithin a (suc n))
          (λ v m. IsWithin-value _ m))
    eval_node-IsWithin (negate a) n = IsWithin-spend n (nodes a) _ (
        IsWithin-unary (suc n) (nodes a) _ _ (eval_node-IsWithin a (suc n))
          (λ v m. IsWithin-give m _))
    eval_node-IsWithin (bin and_op l r) n = IsWithin-spend n (nodes l + nodes r) _ (
        IsWithin-and_then (suc n) (nodes l) (nodes r) _ _ (eval_node-IsWithin l (suc n)) (λ v m.
          IsWithin-pick m (nodes r) (truthy ns v) _ _
            (IsWithin-unary m (nodes r) _ _ (eval_node-IsWithin r m) (λ w p. IsWithin-value _ p))
            (IsWithin-more m m 0 (nodes r) _ (omega arith) (omega arith) (IsWithin-value _ m))))
    eval_node-IsWithin (bin or_op l r) n = IsWithin-spend n (nodes l + nodes r) _ (
        IsWithin-and_then (suc n) (nodes l) (nodes r) _ _ (eval_node-IsWithin l (suc n)) (λ v m.
          IsWithin-pick m (nodes r) (truthy ns v) _ _
            (IsWithin-more m m 0 (nodes r) _ (omega arith) (omega arith) (IsWithin-value _ m))
            (IsWithin-unary m (nodes r) _ _ (eval_node-IsWithin r m) (λ w p. IsWithin-value _ p))))
    eval_node-IsWithin (bin (compare_op op) l r) n = IsWithin-spend n (nodes l + nodes r) _ (
        IsWithin-and_then (suc n) (nodes l) (nodes r) _ _ (eval_node-IsWithin l (suc n)) (λ v m.
          IsWithin-unary m (nodes r) _ _ (eval_node-IsWithin r m)
            (λ w p. IsWithin-give p (binary e ns ctx (compare_op op) v w))))
    eval_node-IsWithin (bin (arith_op op) l r) n = IsWithin-spend n (nodes l + nodes r) _ (
        IsWithin-and_then (suc n) (nodes l) (nodes r) _ _ (eval_node-IsWithin l (suc n)) (λ v m.
          IsWithin-unary m (nodes r) _ _ (eval_node-IsWithin r m) (λ w p. IsWithin-give p _)))
    eval_node-IsWithin (cond test a b) n = IsWithin-spend n (nodes test + (nodes a + nodes b)) _ (
        IsWithin-and_then (suc n) (nodes test) (nodes a + nodes b) _ _
          (eval_node-IsWithin test (suc n))
          (λ v m.
            IsWithin-choice m (nodes a) (nodes b) (truthy ns v) _ _ (eval_node-IsWithin a m)
              (eval_node-IsWithin b m)))
    eval_node-IsWithin (call f args) n = IsWithin-spend n (args_nodes args) _ (
        IsWithin-guard (suc n) (args_nodes args) _ _ _ (
          IsWithin-unary (suc n) (args_nodes args) _ _ (eval_args-IsWithin args (suc n))
            (λ vs m. IsWithin-give m _)))

    eval_args-IsWithin :
        (args : Args Num) (n : ℕ) → IsWithin n (args_nodes args) (eval_args e ns ctx args n)
    eval_args-IsWithin no_args n = IsWithin-value _ n
    eval_args-IsWithin (arg a rest) n =
        IsWithin-and_then n (nodes a) (args_nodes rest) _ _ (eval_node-IsWithin a n) (λ v m.
          IsWithin-unary m (args_nodes rest) _ _ (eval_args-IsWithin rest m)
            (λ w p. IsWithin-value _ p))

  -- The budget stops only large trees: the evaluation of a tree of at most 20 000 nodes never ends by
  -- the budget, and a value comes after at most as many steps as the tree has nodes.
  pub evaluate_expression-budget :
      (ast : ExprNode Num)
      → (nodes ast ≤ max_eval_steps → evaluate_expression e ns ctx ast ≢ thrown over_budget)
        × ((v : Json Num) (m : ℕ) → evaluate_expression e ns ctx ast ≡ value v m → m ≤ nodes ast)
  unfolding evaluate_expression IsWithin
  evaluate_expression-budget ast =
      let h = eval_node-IsWithin ast 0 in
      (
        λ small over.
            (let g : max_eval_steps < 0 + nodes ast = subst (IsWithin 0 (nodes ast)) over h in
              omega arith),
        λ v m same.
            (let g : (0 ≤ m) × (m ≤ 0 + nodes ast) = subst (IsWithin 0 (nodes ast)) same h in
              omega (arith, g.1)),
      )
