-- ===== src/Compiler/Depth.antt =====
-- The depth limit of conditions.
use Prim.Native.Nat.{max}
use standalone_policy_engine.Base.{ℕ, suc, ◌+◌, ◌≤◌, ◌≡◌, ◌↔◌, true, arith}
use standalone_policy_engine.Ast.{Node, unary, binary}
use standalone_policy_engine.Compiler.{check_depth}

-- The levels of a tree.
unfoldable pub depth : Node → ℕ
depth (unary op child) = suc (depth child)
depth (binary op left right) = suc (max (depth left) (depth right))
depth node = 1

check_depth_from : (n : Node) (d : ℕ) → (check_depth n d ≡ true) ↔ (d + depth n ≤ 16)
unfolding check_depth depth
check_depth_from (unary op child) d = ground (arith, check_depth_from child (d + 1))
check_depth_from (binary op left right) d =
    ground (arith, check_depth_from left (d + 1), check_depth_from right (d + 1))
check_depth_from _ d = ground arith

-- checkDepth accepts a condition exactly when its tree has at most 15 levels.
pub check_depth_iff : (n : Node) → (check_depth n 1 ≡ true) ↔ (depth n ≤ 15)
check_depth_iff n = ground (arith, check_depth_from n 1)
