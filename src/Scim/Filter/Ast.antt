-- ===== src/Scim/Filter/Ast.antt =====
-- `SCIMFilterNode` and `Eval`.
use freecloud.Prelude.{
  Bool, true, not, ◌&&◌, ◌||◌, Bytes, [], Option, none, some, eq_bytes, to_lower, has_prefix,
  contains_bytes,
}

pub data Op : Type 0 where
  eq ne co sw pr : Op

-- The parser gives each branch its children, so that none is nil.
pub data Node : Type 0 where
  leaf : (attr : Bytes) → Op → (value : Bytes) → Node
  both : Node → Node → Node
  either : Node → Node → Node
  negated : Node → Node

-- A map from strings to strings, "" for a missing key.
abbrev pub Attrs : Type 0
Attrs = Bytes → Bytes

unfoldable pub eval_leaf : Op → (got want raw : Bytes) → Bool
eval_leaf eq got want raw = eq_bytes got want
eval_leaf ne got want raw = not (eq_bytes got want)
eval_leaf co got want raw = contains_bytes got want
eval_leaf sw got want raw = has_prefix got want
eval_leaf pr got want raw = not (eq_bytes raw [])

unfoldable pub eval_node : Node → Attrs → Bool
unfolding eval_leaf
eval_node (both l r) attrs = eval_node l attrs && eval_node r attrs
eval_node (either l r) attrs = eval_node l attrs || eval_node r attrs
eval_node (negated l) attrs = not (eval_node l attrs)
eval_node (leaf attr op value) attrs =
    eval_leaf op (to_lower (attrs attr)) (to_lower value) (attrs attr)

-- `Eval` on a pointer: nil matches all.
unfoldable pub eval : Option Node → Attrs → Bool
unfolding eval_node
eval none attrs = true
eval (some n) attrs = eval_node n attrs
