-- ===== src/VNode.antt =====
-- spec/chord/vnode.go, as far as a node holds it: a reference to a virtual node. `handle` is the
-- identity of the Go object behind the interface value, which `==` on two references compares;
-- `id` and `address` are what ID() and Identity() return. A nil reference is `none`.
use specter.Prelude.{ℕ, Bool, false, true, Option, none, some, Bytes, ◌==◌}

pub record VNode : Type 0 where
  pub handle : ℕ
  pub id : ℕ
  pub address : Bytes

-- `==` on two interface values that may be nil.
unfoldable pub same_ref : Option VNode → Option VNode → Bool
same_ref none none = true
same_ref none (some v) = false
same_ref (some u) none = false
same_ref (some u) (some v) = u.handle == v.handle
